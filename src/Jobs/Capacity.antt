-- ===== src/Jobs/Capacity.antt =====
-- That the jobs which hive-server-go/queue.go shows as running are at most its workers.
use ollama_local_hives_clust.Jobs.Busy.{
  is_busy, any_busy, any_that-set_self, any_that-set_keep, length-any_busy,
}
use ollama_local_hives_clust.Prelude.{
  ℕ, ◌+◌, ◌≤◌, ◌≡◌, refl, ◌∙◌, ◌⊎◌, inl, inr, String, true, false, Option, some, List, [], ◌∷◌,
  length, length-set, length-replicate, get_elem?, set, lookup, insert, delete, lookup-insert,
  lookup-delete, str_eq, Bool-cases, arith, ltb, ◌++◌, ℤ,
}
use ollama_local_hives_clust.ModelRegistry.Loads.{Keyed, insert-Keyed, delete-Keyed}
use ollama_local_hives_clust.Jobs.{Fields, Job}
use ollama_local_hives_clust.Jobs.Calls.{OllamaCall, CallResult, JsonReader}
use ollama_local_hives_clust.Jobs.Metrics.{execute_job-SameJob}
use ollama_local_hives_clust.Jobs.Workers.{
  WorkerState, waiting, received, registered, executed, OllamaQueue, new_ollama_queue, submit,
  started, execute_job, QueueStep, submits, receives, registers, executes, retires, cleans,
  ReachableQueue, begins, goes_on, get_available_capacity, cleanup_old_jobs,
}

-- All workers are there, no id is twice in `running`, and each of its ids is one that a worker has.
pub record Within {N : Type 0} (n : ℕ) (q : OllamaQueue N) : Type 0 where
  pub staffed : length q.workers ≡ n
  pub keyed : Keyed q.running
  pub owned : (k : String) (i : ℕ) → lookup k q.running ≡ some i → any_busy k q.workers ≡ true

module _ {N : Type 0} (to_int : N → ℤ) (tenth : N) (ollama_model : String)
    (write_prompt : String → Option String → Fields N → String) (reader : JsonReader N) where
  Within-same :
      (n : ℕ) (q q' : OllamaQueue N)
      → q'.workers ≡ q.workers
      → q'.running ≡ q.running
      → Within n q
      → Within n q'
  Within-same n q q' a b w = record {
    staffed = rw a w.staffed;
    keyed = rw b w.keyed;
    owned = λ k i e. rw a (w.owned k i (rw b at e));
  }

  submit-Within : (n : ℕ) (job : Job N) (q : OllamaQueue N) → Within n q → Within n (submit job q).1
  unfolding submit
  submit-Within n job q w = elim (Bool-cases (ltb (length q.job_ch) 1000)) [
    | inl e ↦ simp e (Within-same n q (record q { job_ch = q.job_ch ++ job ∷ [] }) refl refl w)
    | inr e ↦ simp e w
  ]

  -- A worker goes on without a change of `running`.
  moved-Within :
      (n : ℕ) (q : OllamaQueue N) (ch : List (Job N)) (i : ℕ) (s t : WorkerState N)
      → get_elem? q.workers i ≡ some s
      → ((k : String) → (is_busy k s ≡ false) ⊎ (is_busy k t ≡ true))
      → Within n q
      → Within n (record q { job_ch = ch; workers = set q.workers i t })
  moved-Within n q ch i s t f keeps w = record {
    staffed = length-set q.workers i t ∙ w.staffed;
    keyed = w.keyed;
    owned = λ k j e. any_that-set_keep (is_busy k) q.workers i s t f (keeps k) (w.owned k j e);
  }

  registered-owned :
      (n : ℕ) (q : OllamaQueue N) (i : ℕ) (job : Job N)
      → get_elem? q.workers i ≡ some (received job)
      → Within n q
      → (k : String) (j : ℕ) → lookup k (insert job.id i q.running) ≡ some j
      → any_busy k (set q.workers i (registered job)) ≡ true
  registered-owned n q i job f w k j e = elim (Bool-cases (str_eq job.id k)) [
    | inl own ↦ any_that-set_self (is_busy k) q.workers i (received job) (registered job) f own
    | inr other ↦
        let held : lookup k q.running ≡ some j =
          ground (arith, lookup-insert job.id k i q.running, other, e) in
        any_that-set_keep (is_busy k) q.workers i (received job) (registered job) f (inl refl)
          (w.owned k j held)
  ]

  retired-owned :
      (n : ℕ) (q : OllamaQueue N) (i : ℕ) (job : Job N)
      → get_elem? q.workers i ≡ some (executed job)
      → Within n q
      → (k : String) (j : ℕ) → lookup k (delete job.id q.running) ≡ some j
      → any_busy k (set q.workers i waiting) ≡ true
  retired-owned n q i job f w k j e = elim (Bool-cases (str_eq job.id k)) [
    | inl own ↦ ground (arith, lookup-delete job.id k q.running, own, e)
    | inr other ↦
        let held : lookup k q.running ≡ some j =
          ground (arith, lookup-delete job.id k q.running, other, e) in
        any_that-set_keep (is_busy k) q.workers i (executed job) waiting f (inl other)
          (w.owned k j held)
  ]

  executed-busy :
      (answer : OllamaCall N → CallResult N) (now : ℕ) (job done : Job N) (k : String)
      → execute_job to_int tenth ollama_model write_prompt reader answer now job ≡ some done
      → (is_busy k (registered job) ≡ false) ⊎ (is_busy k (executed done) ≡ true)
  executed-busy answer now job done k e = elim (Bool-cases (str_eq job.id k)) [
    | inl own ↦ inr (
        rw
          ((execute_job-SameJob to_int tenth ollama_model write_prompt reader answer now job done
            e).0)
          own)
    | inr other ↦ inl other
  ]

  step-Within :
      (n : ℕ) (q q' : OllamaQueue N)
      → QueueStep to_int tenth ollama_model write_prompt reader q q'
      → Within n q
      → Within n q'
  unfolding cleanup_old_jobs
  step-Within n q q' (submits _ job) w = submit-Within n job q w
  step-Within n q q' (receives _ i job rest now e f) w =
      moved-Within n q rest i waiting (received (started now job)) f (λ k. inl refl) w
  step-Within n q q' (registers _ i job f) w = record {
    staffed = length-set q.workers i (registered job) ∙ w.staffed;
    keyed = insert-Keyed job.id i q.running w.keyed;
    owned = registered-owned n q i job f w;
  }
  step-Within n q q' (executes _ i job done answer now f e) w =
      moved-Within n q q.job_ch i (registered job) (executed done) f
        (λ k. executed-busy answer now job done k e) w
  step-Within n q q' (retires _ i job f) w = record {
    staffed = length-set q.workers i waiting ∙ w.staffed;
    keyed = delete-Keyed job.id q.running w.keyed;
    owned = retired-owned n q i job f w;
  }
  step-Within n q q' (cleans _ cutoff) w = Within-same n q (cleanup_old_jobs cutoff q) refl refl w

  ReachableQueue-Within :
      (n : ℕ) (q : OllamaQueue N)
      → ReachableQueue to_int tenth ollama_model write_prompt reader n q
      → Within n q
  unfolding new_ollama_queue lookup
  ReachableQueue-Within n q (begins _) = record {
    staffed = length-replicate n waiting;
    keyed = tt;
    owned = λ k i e. cc;
  }
  ReachableQueue-Within n q (goes_on _ p _ r s) = step-Within n p q s (ReachableQueue-Within n p r)

  -- In every reachable state of a queue with `n` workers, even when jobs share an id, at most `n` jobs
  -- are shown as running, and the running jobs and the available capacity add up to `n`.
  pub get_available_capacity-ReachableQueue :
      (n : ℕ) (q : OllamaQueue N)
      → ReachableQueue to_int tenth ollama_model write_prompt reader n q
      → (length q.running ≤ n) × (length q.running + get_available_capacity n q ≡ n)
  unfolding get_available_capacity
  get_available_capacity-ReachableQueue n q r =
      let w = ReachableQueue-Within n q r in
      let bound : length q.running ≤ n =
        omega (arith, w.staffed, length-any_busy q.workers q.running w.keyed w.owned) in
      (bound, omega (arith, bound))

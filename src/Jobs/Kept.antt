-- ===== src/Jobs/Kept.antt =====
-- That hive-server-go/queue.go keeps a job that it has accepted, and when it does not.
use ollama_local_hives_clust.Prelude.{
  ℕ, delete, false≢true, ◌≡◌, refl, ◌⊎◌, inl, inr, String, Bool, true, false, Option, none, some,
  List, [], ◌∷◌, ◌++◌, length, ltb, get_elem?, set, Map, lookup, insert, lookup-insert, str_eq,
  eq_refl, Bool-cases, Option-cases, arith, if◌then◌else◌, ℤ, ◌&&◌, ◌==◌, ◌∙◌,
}
use ollama_local_hives_clust.Jobs.{Fields, Job}
use ollama_local_hives_clust.Jobs.Workers.{
  WorkerState, waiting, received, registered, executed, OllamaQueue, submit, started, execute_job,
  QueueStep, submits, receives, registers, executes, retires, cleans, is_old, without_old,
  cleanup_old_jobs,
}
use ollama_local_hives_clust.Jobs.Busy.{any_that, any_that-set_self, any_that-set_keep}
use ollama_local_hives_clust.Jobs.Metrics.{SameJob, execute_job-SameJob}
use ollama_local_hives_clust.Jobs.Calls.{OllamaCall, CallResult, JsonReader}

Bool-either : (b : Bool) → (b ≡ false) ⊎ (b ≡ true)
Bool-either true = inr refl
Bool-either false = inl refl

module _ {N : Type 0} where
  -- The job was submitted with the same id, client, type and time of creation.
  abbrev pub is_same : Job N → Job N → Bool
  is_same want j =
      str_eq j.id want.id
      && str_eq j.client_id want.client_id
      && str_eq j.job_type want.job_type
      && j.created_at == want.created_at

  is_same_refl : (j : Job N) → is_same j j ≡ true
  is_same_refl j = ground (arith, eq_refl j.id, eq_refl j.client_id, eq_refl j.job_type)

  is_same-id : (want j : Job N) → is_same want j ≡ true → str_eq j.id want.id ≡ true
  is_same-id want j h = ground (arith, h)

  is_same-SameJob : (want j done : Job N) → SameJob j done → is_same want done ≡ is_same want j
  is_same-SameJob want j done (a, b, c, d) = rw (a, b, c, d) refl

  abbrev pub any_queued : Job N → List (Job N) → Bool
  any_queued want [] = false
  any_queued want (j ∷ js) = if is_same want j then true else any_queued want js

  abbrev pub has_job : Job N → WorkerState N → Bool
  has_job want waiting = false
  has_job want (received job) = is_same want job
  has_job want (registered job) = is_same want job
  has_job want (executed job) = is_same want job

  abbrev pub is_completed : Job N → OllamaQueue N → Bool
  is_completed want q = elim (lookup want.id q.completed) [ none ↦ false | some j ↦ is_same want j ]

  -- The job waits in the channel, is with a worker, or is the completed one of its id.
  abbrev pub Kept : Job N → OllamaQueue N → Type 0
  Kept want q =
      (any_queued want q.job_ch ≡ true)
      ⊎ ((any_that (has_job want) q.workers ≡ true) ⊎ (is_completed want q ≡ true))

  any_queued-append :
      (want : Job N) (js : List (Job N)) (j : Job N)
      → any_queued want js ≡ true
      → any_queued want (js ++ j ∷ []) ≡ true
  any_queued-append want [] j h = ground (arith, h)
  any_queued-append want (x ∷ xs) j h = ground (arith, h, any_queued-append want xs j)

  any_queued-last :
      (want : Job N) (js : List (Job N)) (j : Job N)
      → is_same want j ≡ true
      → any_queued want (js ++ j ∷ []) ≡ true
  any_queued-last want [] j h = ground (arith, h)
  any_queued-last want (x ∷ xs) j h = ground (arith, h, any_queued-last want xs j h)

  -- A job that Submit accepts is kept.
  pub submit-Kept :
      (job : Job N) (q : OllamaQueue N) → (submit job q).0 ≡ true → Kept job (submit job q).1
  unfolding submit
  submit-Kept job q e = elim (Bool-cases (ltb (length q.job_ch) 1000)) [
    | inl room ↦ simp room (inl (any_queued-last job q.job_ch job (is_same_refl job)))
    | inr full ↦ ground (arith, full, e)
  ]

  submitted-Kept :
      (want : Job N) (job : Job N) (q : OllamaQueue N) → Kept want q → Kept want (submit job q).1
  unfolding submit
  submitted-Kept want job q kept = elim (Bool-cases (ltb (length q.job_ch) 1000)) [
    | inr full ↦ simp full kept
    | inl room ↦
        simp room (elim kept as (λ _. Kept want (record q { job_ch = q.job_ch ++ job ∷ [] })) [
          | inl h ↦ inl (any_queued-append want q.job_ch job h)
          | inr h ↦ inr h
        ])
  ]

  -- A worker goes on with the same job, or takes one.
  moved-Kept :
      (want : Job N) (q : OllamaQueue N) (i : ℕ) (s t : WorkerState N) (r : Map ℕ)
      → get_elem? q.workers i ≡ some s
      → (has_job want s ≡ false) ⊎ (has_job want t ≡ true)
      → Kept want q
      → Kept want (record q { workers = set q.workers i t; running = r })
  moved-Kept want q i s t r f keeps (inl h) = inl h
  moved-Kept want q i s t r f keeps (inr (inl h)) =
      inr (inl (any_that-set_keep (has_job want) q.workers i s t f keeps h))
  moved-Kept want q i s t r f keeps (inr (inr h)) = inr (inr h)

  receives-Kept :
      (want : Job N) (q : OllamaQueue N) (i : ℕ) (job : Job N) (rest : List (Job N)) (now : ℕ)
      → q.job_ch ≡ job ∷ rest
      → get_elem? q.workers i ≡ some waiting
      → Kept want q
      → Kept want
          (record q { job_ch = rest; workers = set q.workers i (received (started now job)) })
  unfolding started
  receives-Kept want q i job rest now e f (inr (inl h)) = inr (
      inl (
        any_that-set_keep (has_job want) q.workers i waiting (received (started now job)) f
          (inl refl) h))
  receives-Kept want q i job rest now e f (inr (inr h)) = inr (inr h)
  receives-Kept want q i job rest now e f (inl h) =
      let there : any_queued want (job ∷ rest) ≡ true = rw e at h in
      elim (Bool-cases (is_same want job)) [
        | inl own ↦ inr (
            inl (
              any_that-set_self (has_job want) q.workers i waiting (received (started now job)) f
                own))
        | inr other ↦ let later : any_queued want rest ≡ true = rw other at there in inl later
      ]

  -- A worker retires another job of the same id.
  abbrev pub Overwritten : Job N → OllamaQueue N → OllamaQueue N → Type 0
  Overwritten want q q' =
      (i : ℕ) × (job : Job N) × (get_elem? q.workers i ≡ some (executed job))
      × (q'.completed ≡ insert job.id job q.completed)
      × (str_eq job.id want.id ≡ true)
      × (is_same want job ≡ false)

  retires-Kept :
      (want : Job N) (q : OllamaQueue N) (i : ℕ) (job : Job N) (r : Map ℕ)
      → get_elem? q.workers i ≡ some (executed job)
      → Kept want q
      → (let q' = record q {
        workers = set q.workers i waiting;
        running = r;
        completed = insert job.id job q.completed;
      } in
          Kept want q' ⊎ Overwritten want q q')
  retires-Kept want q i job r f kept = elim (Bool-cases (is_same want job)) [
    | inl own ↦
        let at_id = is_same-id want job own in
        inl (inr (inr (rw (is_completed, lookup-insert job.id want.id job q.completed, at_id) own)))
    | inr other ↦ elim kept [
      | inl h ↦ inl (inl h)
      | inr w ↦ elim w [
        | inl h ↦ inl (
            inr (
              inl (
                any_that-set_keep (has_job want) q.workers i (executed job) waiting f (inl other)
                  h)))
        | inr h ↦ elim (Bool-cases (str_eq job.id want.id)) [
          | inl at_id ↦ inr (i, job, f, refl, at_id, other)
          | inr apart ↦
              inl (
                inr
                  (inr (rw (is_completed, lookup-insert job.id want.id job q.completed, apart) h)))
        ]
      ]
    ]
  ]

  lookup-without_old :
      (cutoff : ℕ) (k : String) (j : Job N) (m : Map (Job N))
      → lookup k m ≡ some j
      → is_old cutoff j ≡ false
      → lookup k (without_old cutoff m) ≡ some j
  unfolding lookup without_old
  lookup-without_old cutoff k j [] e h = cc
  lookup-without_old cutoff k j (x ∷ xs) e h = elim (Bool-cases (str_eq x.0 k)) [
    | inl own ↦
        let held : some x.1 ≡ some j = rw (own, lookup) at e in
        let same : x.1 ≡ j = cc in
        let stays : is_old cutoff x.1 ≡ false = rw same h in rw (stays, lookup, own) held
    | inr other ↦
        let rest = lookup-without_old cutoff k j xs (rw (other, lookup) at e) h in
        elim (Bool-cases (is_old cutoff x.1)) [
          | inl gone ↦ rw gone rest
          | inr stays ↦ rw (stays, lookup, other) rest
        ]
  ]

  -- The step is a clean-up, and the job had ended before its cutoff.
  abbrev pub Expired : Job N → OllamaQueue N → OllamaQueue N → Type 0
  Expired want q q' =
      (cutoff : ℕ) × (j : Job N) × (q' ≡ cleanup_old_jobs cutoff q)
      × (lookup want.id q.completed ≡ some j)
      × (is_same want j ≡ true)
      × (is_old cutoff j ≡ true)

  cleans-Kept :
      (want : Job N) (q : OllamaQueue N) (cutoff : ℕ)
      → Kept want q
      → Kept want (cleanup_old_jobs cutoff q) ⊎ Expired want q (cleanup_old_jobs cutoff q)
  unfolding cleanup_old_jobs
  cleans-Kept want q cutoff (inl h) = inl (inl h)
  cleans-Kept want q cutoff (inr (inl h)) = inl (inr (inl h))
  cleans-Kept want q cutoff (inr (inr h)) = elim (Option-cases (lookup want.id q.completed)) [
    | inl e ↦ absurd (false≢true (rw (is_completed, e) at h))
    | inr (j, e) ↦
        let same : is_same want j ≡ true = rw (is_completed, e) at h in
        elim (Bool-cases (is_old cutoff j)) [
          | inl old ↦ inr (cutoff, j, refl, e, same, old)
          | inr young ↦ inl (
              inr (
                inr (
                  rw (is_completed, lookup-without_old cutoff want.id j q.completed e young) same)))
        ]
  ]

module _ {N : Type 0} (to_int : N → ℤ) (tenth : N) (ollama_model : String)
    (write_prompt : String → Option String → Fields N → String) (reader : JsonReader N) where
  executed-has_job :
      (want : Job N) (answer : OllamaCall N → CallResult N) (now : ℕ) (job done : Job N)
      → execute_job to_int tenth ollama_model write_prompt reader answer now job ≡ some done
      → (has_job want (registered job) ≡ false) ⊎ (has_job want (executed done) ≡ true)
  executed-has_job want answer now job done e = elim (Bool-cases (is_same want job)) [
    | inr other ↦ inl other
    | inl own ↦ inr (
        is_same-SameJob want job done
          (execute_job-SameJob to_int tenth ollama_model write_prompt reader answer now job done e)
        ∙ own)
  ]

  -- A job is the one that was submitted with an id, client, type and time of creation. When it waits in
  -- the channel, is with a worker or is the completed job of its id, it does so after every step of the
  -- queue, unless the step is a clean-up and it had ended before the cutoff, or a worker retires
  -- another job of the same id, which takes its place among the completed ones.
  pub QueueStep-Kept :
      (want : Job N) (q q' : OllamaQueue N)
      → QueueStep to_int tenth ollama_model write_prompt reader q q'
      → Kept want q
      → Kept want q' ⊎ (Expired want q q' ⊎ Overwritten want q q')
  QueueStep-Kept want q q' (submits _ job) kept = inl (submitted-Kept want job q kept)
  QueueStep-Kept want q q' (receives _ i job rest now e f) kept =
      inl (receives-Kept want q i job rest now e f kept)
  QueueStep-Kept want q q' (registers _ i job f) kept = inl (
      moved-Kept want q i (received job) (registered job) (insert job.id i q.running) f
        (Bool-either (is_same want job)) kept)
  QueueStep-Kept want q q' (executes _ i job done answer now f e) kept = inl (
      moved-Kept want q i (registered job) (executed done) q.running f
        (executed-has_job want answer now job done e) kept)
  QueueStep-Kept want q q' (retires _ i job f) kept =
      elim (retires-Kept want q i job (delete job.id q.running) f kept) [
        | inl k ↦ inl k
        | inr o ↦ inr (inr o)
      ]
  QueueStep-Kept want q q' (cleans _ cutoff) kept = elim (cleans-Kept want q cutoff kept) [
    | inl k ↦ inl k
    | inr x ↦ inr (inl x)
  ]

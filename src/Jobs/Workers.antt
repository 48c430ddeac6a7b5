-- ===== src/Jobs/Workers.antt =====
-- OllamaQueue of hive-server-go/queue.go: the channel, the workers and the two maps, with one step for
-- each piece of code between which other goroutines may run. A worker's job is one object that the
-- map `running` also points to: the map holds the worker's index, and the job is read there.
use ollama_local_hives_clust.Prelude.{
  ℕ, ◌+◌, ◌-◌, ◌≡◌, String, Bool, true, false, Option, none, some, List, [], ◌∷◌, ◌++◌,
  if◌then◌else◌, ltb, length, get_elem?, set, replicate, Map, lookup, insert, delete, ℤ,
}
use ollama_local_hives_clust.Jobs.{
  Fields, job_running, job_completed, job_failed, Job, parse_token_metrics,
}
use ollama_local_hives_clust.Jobs.Calls.{
  OllamaCall, CallResult, call_failed, call_answered, call_of, perform, is_generic, generic_result,
  JsonReader,
}

-- Where a worker stands in its loop: it waits, it has received a job, the job is in `running`, the job
-- has been executed and is about to leave `running`.
pub data WorkerState (N : Type 0) : Type 0 where
  waiting : WorkerState N
  received registered executed : Job N → WorkerState N

pub record OllamaQueue (N : Type 0) : Type 0 where
  pub job_ch : List (Job N)
  pub workers : List (WorkerState N)
  pub running : Map ℕ
  pub completed : Map (Job N)

abbrev pub channel_size : ℕ
channel_size = 1000

module _ {N : Type 0} where
  unfoldable pub new_ollama_queue : ℕ → OllamaQueue N
  new_ollama_queue max_concurrent = record {
    job_ch = [];
    workers = replicate max_concurrent waiting;
    running = [];
    completed = [];
  }

  -- With `false`, the channel is full and the queue unchanged.
  unfoldable pub submit : Job N → OllamaQueue N → Bool × OllamaQueue N
  submit job q =
      if ltb (length q.job_ch) channel_size
      then (true, record q { job_ch = q.job_ch ++ job ∷ [] })
      else (false, q)

  -- The cutoff is now() less the age; a completed job without a time stays.
  abbrev pub is_old : ℕ → Job N → Bool
  is_old cutoff job = elim job.completed_at [ none ↦ false | some t ↦ ltb t cutoff ]

  unfoldable pub without_old : ℕ → Map (Job N) → Map (Job N)
  without_old cutoff [] = []
  without_old cutoff (e ∷ es) =
      let rest = without_old cutoff es in if is_old cutoff e.1 then rest else e ∷ rest

  unfoldable pub cleanup_old_jobs : ℕ → OllamaQueue N → OllamaQueue N
  cleanup_old_jobs cutoff q = record q { completed = without_old cutoff q.completed }

  abbrev pub job_of : WorkerState N → Option (Job N)
  job_of waiting = none
  job_of (received job) = some job
  job_of (registered job) = some job
  job_of (executed job) = some job

  unfoldable pub get_job : String → OllamaQueue N → Option (Job N)
  get_job id q = elim (lookup id q.running) [
    | none ↦ lookup id q.completed
    | some i ↦ elim (get_elem? q.workers i) [ none ↦ none | some w ↦ job_of w ]
  ]

  -- maxInt(0, q.maxConcurrent-len(q.running)); Start makes maxConcurrent workers.
  unfoldable pub get_available_capacity : ℕ → OllamaQueue N → ℕ
  get_available_capacity max_concurrent q = max_concurrent - length q.running

  -- The number of entries that completed in the last hour
  unfoldable pub recent_completed : ℕ → Map (Job N) → ℕ
  recent_completed now [] = 0
  recent_completed now (e ∷ es) =
      let rest = recent_completed now es in
      elim e.1.completed_at [
        | none ↦ rest
        | some t ↦ if ltb now (t + 3600000) then rest + 1 else rest
      ]

  -- pending, running and completed_recent
  unfoldable pub get_queue_status : ℕ → OllamaQueue N → ℕ × ℕ × ℕ
  unfolding recent_completed
  get_queue_status now q = (length q.job_ch, length q.running, recent_completed now q.completed)

  unfoldable pub started : ℕ → Job N → Job N
  started now job = record job { status = job_running; started_at = some now }

  module _ (to_int : N → ℤ) (tenth : N) (ollama_model : String)
      (write_prompt : String → Option String → Fields N → String) (reader : JsonReader N) where
    -- The end of executeJob, after the call
    unfoldable pub settled : CallResult N → ℕ → Job N → Job N
    unfolding parse_token_metrics
    settled (call_failed e) now job = record job {
      completed_at = some now;
      status = job_failed;
      error = e;
      result = none;
    }
    settled (call_answered r) now job =
        parse_token_metrics to_int r
          (record job { completed_at = some now; status = job_completed; result = some r })

    -- none where callOllamaGeneric panics
    unfoldable pub adapted : String → CallResult N → Option (CallResult N)
    unfolding generic_result
    adapted t (call_failed e) = some (call_failed e)
    adapted t (call_answered r) =
        if is_generic tenth ollama_model t
        then elim (generic_result tenth ollama_model reader r) as (λ _. Option (CallResult N)) [
          | none ↦ none
          | some r' ↦ some (call_answered r')
        ]
        else some (call_answered r)

    -- none where it panics, which nothing recovers: the server ends.
    unfoldable pub execute_job : (OllamaCall N → CallResult N) → ℕ → Job N → Option (Job N)
    unfolding call_of perform settled adapted
    execute_job answer now job =
        elim (adapted job.job_type (
            perform tenth ollama_model answer
              (call_of tenth ollama_model write_prompt job.job_type job.payload_map)))
          as (λ _. Option (Job N)) [ none ↦ none | some c ↦ some (settled c now job) ]

    -- What can happen to the queue; a step of a worker names it by its index.
    pub data QueueStep : OllamaQueue N → OllamaQueue N → Type 0 where
      submits : (q : OllamaQueue N) (job : Job N) → QueueStep q (submit job q).1
      receives :
          (q : OllamaQueue N) (i : ℕ) (job : Job N) (rest : List (Job N)) (now : ℕ)
          → q.job_ch ≡ job ∷ rest
          → get_elem? q.workers i ≡ some waiting
          → QueueStep q
              (record q { job_ch = rest; workers = set q.workers i (received (started now job)) })
      registers :
          (q : OllamaQueue N) (i : ℕ) (job : Job N)
          → get_elem? q.workers i ≡ some (received job)
          → QueueStep q (record q {
            workers = set q.workers i (registered job);
            running = insert job.id i q.running;
          })
      executes :
          (q : OllamaQueue N) (i : ℕ) (job done : Job N) (answer : OllamaCall N → CallResult N)
          (now : ℕ)
          → get_elem? q.workers i ≡ some (registered job)
          → execute_job answer now job ≡ some done
          → QueueStep q (record q { workers = set q.workers i (executed done) })
      retires :
          (q : OllamaQueue N) (i : ℕ) (job : Job N)
          → get_elem? q.workers i ≡ some (executed job)
          → QueueStep q (record q {
            workers = set q.workers i waiting;
            running = delete job.id q.running;
            completed = insert job.id job q.completed;
          })
      cleans : (q : OllamaQueue N) (cutoff : ℕ) → QueueStep q (cleanup_old_jobs cutoff q)

    pub data ReachableQueue : ℕ → OllamaQueue N → Type 0 where
      begins : (n : ℕ) → ReachableQueue n (new_ollama_queue n)
      goes_on :
          (n : ℕ) (q q' : OllamaQueue N) → ReachableQueue n q → QueueStep q q' → ReachableQueue n q'

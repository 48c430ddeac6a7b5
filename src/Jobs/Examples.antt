-- ===== src/Jobs/Examples.antt =====
-- The theorems about hive-server-go/queue.go at one embedding job and one worker.
use ollama_local_hives_clust.Prelude.{
  ℕ, ◌+◌, ◌≤◌, ◌≡◌, ◌⊎◌, inl, refl, String, Option, none, some, if◌then◌else◌, str_eq, length, pos,
  [], set, insert,
}
use ollama_local_hives_clust.Jobs.{Fields, text_value, object_value, no_fields, field, Job, new_job}
use ollama_local_hives_clust.Jobs.Calls.{
  OllamaCall, CallResult, call_answered, JsonReader, call_ollama_generic,
}
use ollama_local_hives_clust.Jobs.Workers.{
  OllamaQueue, new_ollama_queue, submit, started, execute_job, ReachableQueue, begins, goes_on,
  submits, receives, registers, get_available_capacity, received, registered,
}
use ollama_local_hives_clust.Jobs.Metrics.{Settled, Panics, answer_of, execute_job-Settled}
use ollama_local_hives_clust.Jobs.Capacity.{get_available_capacity-ReachableQueue}
use ollama_local_hives_clust.Jobs.Kept.{Kept, Expired, Overwritten, QueueStep-Kept}

abbrev prompt_for : String → Option String → Fields ℕ → String
prompt_for t text payload = t

abbrev reader : JsonReader ℕ
reader = record { unmarshal = λ t. if str_eq t "null" then some none else none; groups = λ t. [] }

abbrev answer : OllamaCall ℕ → CallResult ℕ
answer _ = call_answered (
    object_value
      (field "response" (text_value "null") (field "model" (text_value "llama3:8b") no_fields)))

abbrev payload : Fields ℕ
payload = field "text" (text_value "a text") no_fields

abbrev done_job : String → Option (Job ℕ)
unfolding execute_job started new_job
done_job t =
    execute_job (λ n. pos n) 0 "llama3:8b" prompt_for reader answer 30
      (started 20 (new_job "j" "c" t payload 0 10))

-- The answer makes a generic job's worker panic.
analysis_panics : done_job "analyze_paper" ≡ none
unfolding done_job call_ollama_generic
analysis_panics = refl

abbrev job : Job ℕ
job = new_job "j" "c" "embed" payload 0 10

abbrev idle_queue : OllamaQueue ℕ
idle_queue = new_ollama_queue 1

abbrev Reached : OllamaQueue ℕ → Type 0
Reached q = ReachableQueue (λ n. pos n) 0 "llama3:8b" prompt_for reader 1 q

abbrev filled_queue : OllamaQueue ℕ
filled_queue = (submit job idle_queue).1

abbrev taking_queue : OllamaQueue ℕ
taking_queue = record filled_queue {
  job_ch = [];
  workers = set filled_queue.workers 0 (received (started 20 job));
}

abbrev busy_queue : OllamaQueue ℕ
busy_queue = record taking_queue {
  workers = set taking_queue.workers 0 (registered (started 20 job));
  running = insert "j" 0 taking_queue.running;
}

busy_queue-Reached : Reached busy_queue
unfolding submit new_ollama_queue started new_job
busy_queue-Reached =
    goes_on 1 taking_queue busy_queue
      (goes_on 1 filled_queue taking_queue
        (goes_on 1 idle_queue filled_queue (begins 1) (submits idle_queue job))
        (receives filled_queue 0 job [] 20 refl refl))
      (registers taking_queue 0 (started 20 job) refl)

get_available_capacity-ReachableQueue_example :
    (length busy_queue.running ≤ 1)
    × (length busy_queue.running + get_available_capacity 1 busy_queue ≡ 1)
get_available_capacity-ReachableQueue_example =
    get_available_capacity-ReachableQueue (λ n. pos n) 0 "llama3:8b" prompt_for reader 1 busy_queue
      busy_queue-Reached

QueueStep-Kept_example :
    Kept job taking_queue
    ⊎ (Expired job filled_queue taking_queue ⊎ Overwritten job filled_queue taking_queue)
unfolding submit new_ollama_queue started new_job
QueueStep-Kept_example =
    QueueStep-Kept (λ n. pos n) 0 "llama3:8b" prompt_for reader job filled_queue taking_queue
      (receives filled_queue 0 job [] 20 refl refl) (inl refl)

execute_job-Settled_example :
    (let job = started 20 (new_job "j" "c" "embed" payload 0 10) in
      ((execute_job (λ n. pos n) 0 "llama3:8b" prompt_for reader answer 30 job ≡ none)
        × Panics
            (λ n. pos n)
            0
            "llama3:8b"
            prompt_for
            reader
            "embed"
            (answer_of (λ n. pos n) 0 "llama3:8b" prompt_for reader answer job))
      ⊎ ((done : Job ℕ) × (execute_job (λ n. pos n) 0 "llama3:8b" prompt_for reader answer 30 job
            ≡ some done)
          × Settled (λ n. pos n) 0 "llama3:8b" prompt_for reader 30 done))
execute_job-Settled_example =
    execute_job-Settled (λ n. pos n) 0 "llama3:8b" prompt_for reader answer "j" "c" "embed" payload
      0 10 20 30

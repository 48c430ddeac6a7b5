-- ===== src/PriorityQueue/Examples.antt =====
-- The theorems about hive-server-go/priority_queue.go at a small queue.
use ollama_local_hives_clust.Prelude.{ℕ, ◌≡◌, String, Option, none, some, [], ◌∷◌, pos, false}
use ollama_local_hives_clust.PriorityQueue.{Job, PriorityQueue, new_priority_queue, dequeue_round}
use ollama_local_hives_clust.PriorityQueue.Order.{jobs, first_urgent, head?, or_else, dequeue-next}
use ollama_local_hives_clust.PriorityQueue.Accounts.{
  enqueues, peeks, rounds, cancels, perform_all, Balanced, jobs-Balanced,
}

abbrev job : String → ℕ → Option ℕ → Job
job id priority deadline = record {
  id = id;
  job_type = "chat";
  priority = pos priority;
  deadline = deadline;
}

abbrev two_jobs : PriorityQueue
two_jobs = record {
  realtime_jobs = job "a" 0 none ∷ [];
  high_jobs = [];
  normal_jobs = job "b" 2 (some 1000) ∷ [];
  low_jobs = [];
  closed = false;
  enqueued = 2;
  dequeued = 0;
  dropped = 0;
}

dequeue-next_example :
    (dequeue_round 900 two_jobs).0
    ≡ or_else (first_urgent 900 (jobs two_jobs)) (head? (jobs two_jobs))
dequeue-next_example = dequeue-next 900 two_jobs

jobs-Balanced_example :
    let (lost, pq) = perform_all new_priority_queue (
      enqueues (job "a" 0 none)
      ∷ enqueues (job "b" 2 (some 5))
      ∷ peeks 1
      ∷ rounds 2
      ∷ cancels "a"
      ∷ []) in
    Balanced lost pq
jobs-Balanced_example = jobs-Balanced (
    enqueues (job "a" 0 none)
    ∷ enqueues (job "b" 2 (some 5))
    ∷ peeks 1
    ∷ rounds 2
    ∷ cancels "a"
    ∷ [])

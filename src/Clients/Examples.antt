-- ===== src/Clients/Examples.antt =====
-- The theorems about hive-server-go/handlers.go at two clients and at a full job queue.
use ollama_local_hives_clust.Prelude.{
  ℕ, ◌/◌, ◌≡◌, refl, Option, none, some, List, replicate, lookup, pos, pos_part, ltb, ◌==◌,
}
use ollama_local_hives_clust.Mesh.{LoadOps, PeerInfo}
use ollama_local_hives_clust.Jobs.{Fields, Job, no_fields, new_job}
use ollama_local_hives_clust.Jobs.Workers.{new_ollama_queue}
use ollama_local_hives_clust.Clients.{new_client_manager, new_client, register}
use ollama_local_hives_clust.Clients.Submission.{SubmitBody, HiveServer}

abbrev loads : LoadOps ℕ
loads = record {
  zero_load = 0;
  one_load = 1;
  div_load = λ a b. a / b;
  less_load = ltb;
  same_load = λ a b. a == b;
  of_int = pos_part;
}

abbrev body : SubmitBody ℕ
body = record { client_id = "a"; job_type = "chat"; payload = no_fields }

abbrev waiting_job : Job ℕ
waiting_job = new_job "j" "b" "chat" no_fields 0 1

abbrev waiting_jobs : List (Job ℕ)
waiting_jobs = replicate 1000 waiting_job

abbrev full_server : HiveServer ℕ ℕ
full_server = record {
  clients = new_client_manager (pos 10);
  queue = record (new_ollama_queue 2) { job_ch = waiting_jobs };
  max_concurrent = 2;
  mesh = none;
}

abbrev no_forward : PeerInfo ℕ → Option (Fields ℕ)
no_forward _ = none

a_known : (register "a" "a" 5 full_server.clients).0 ≡ some (new_client "a" "a" 5)
unfolding register new_client_manager lookup
a_known = refl

-- ===== src/Clients/Submission.antt =====
-- submitJob of hive-server-go/handlers.go, with the clients, the job queue and the mesh: a job whose
-- server is busy goes to the best peer, and to the server's own queue if there is none or it fails.
use ollama_local_hives_clust.Prelude.{
  ℕ, String, ◌||◌, Option, none, some, if◌then◌else◌, str_eq, ◌==◌,
}
use ollama_local_hives_clust.Mesh.{LoadOps, PeerInfo, MeshDiscovery}
use ollama_local_hives_clust.Mesh.Select.{get_alive_peers, get_best_peer}
use ollama_local_hives_clust.Jobs.{Fields, Job, new_job}
use ollama_local_hives_clust.Jobs.Workers.{OllamaQueue, submit, get_available_capacity}
use ollama_local_hives_clust.Clients.{ClientManager, register, increment_submitted}

pub record SubmitBody (N : Type 0) : Type 0 where
  pub client_id : String
  pub job_type : String
  pub payload : Fields N

-- `mesh` is none where the mesh is not enabled.
pub record HiveServer (N F : Type 0) : Type 0 where
  pub clients : ClientManager
  pub queue : OllamaQueue N
  pub max_concurrent : ℕ
  pub mesh : Option (MeshDiscovery F)

pub data SubmitReply (N : Type 0) : Type 0 where
  submit_bad_json submit_fields_required submit_too_many_clients : SubmitReply N
  forwarded_answer : Fields N → SubmitReply N
  job_written : Job N → SubmitReply N

module _ {N F : Type 0} (ops : LoadOps F) (zero_duration : N) where
  -- hs.queue.Submit(job), whose result is not read, and the rest
  unfoldable pub submit_here :
      String → SubmitBody N → ℕ → HiveServer N F → SubmitReply N × HiveServer N F
  submit_here id b now hs =
      let job = new_job id b.client_id b.job_type b.payload zero_duration now in
      (
        job_written job,
        record hs {
          queue = (submit job hs.queue).1;
          clients = increment_submitted b.client_id hs.clients;
        },
      )

  -- The peer that is asked when no worker is free
  unfoldable pub peer_for : ℕ → HiveServer N F → Option (PeerInfo F)
  peer_for now hs = elim hs.mesh [
    | none ↦ none
    | some m ↦
        if get_available_capacity hs.max_concurrent hs.queue == 0
        then get_best_peer ops now m
        else none
  ]

  abbrev pub looked_at : ℕ → HiveServer N F → Option (MeshDiscovery F)
  looked_at now hs = elim hs.mesh [
    | none ↦ none
    | some m ↦
        if get_available_capacity hs.max_concurrent hs.queue == 0
        then some (get_alive_peers ops now m).1
        else some m
  ]

  -- After the client is known; `forward` is forwardJobToPeer.
  unfoldable pub place_job :
      (PeerInfo F → Option (Fields N))
      → String
      → SubmitBody N
      → ℕ
      → HiveServer N F
      → SubmitReply N × HiveServer N F
  place_job forward id b now hs =
      let hs' = record hs { mesh = looked_at now hs } in
      elim (peer_for now hs) [
        | none ↦ submit_here id b now hs'
        | some p ↦ elim (forward p) [
          | none ↦ submit_here id b now hs'
          | some answer ↦ (
            forwarded_answer answer,
            record hs' { clients = increment_submitted b.client_id hs'.clients },
          )
        ]
      ]

  unfoldable pub submit_job :
      (PeerInfo F → Option (Fields N))
      → String
      → Option (SubmitBody N)
      → ℕ
      → HiveServer N F
      → SubmitReply N × HiveServer N F
  submit_job forward id none now hs = (submit_bad_json, hs)
  submit_job forward id (some b) now hs =
      if str_eq b.client_id "" || str_eq b.job_type ""
      then (submit_fields_required, hs)
      else let r = register b.client_id b.client_id now hs.clients in
        elim r.0 [
          | none ↦ (submit_too_many_clients, record hs { clients = r.1 })
          | some c ↦ place_job forward id b now (record hs { clients = r.1 })
        ]

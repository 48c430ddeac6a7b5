-- ===== src/Proxy/Examples.antt =====
-- The theorems about internal/proxy/proxy.go at a cluster of one node and a queue for one request.
use ollama_local_hives_clust.Prelude.{
  ℕ, ◌≡◌, refl, true, false, none, some, List, [], ◌∷◌, arith, pos, lookup,
}
use ollama_local_hives_clust.Queue.{Request, RequestStatus, unset, pending}
use ollama_local_hives_clust.Cluster.Node.{Node}
use ollama_local_hives_clust.Cluster.Manager.{Manager, get_healthy_nodes}
use ollama_local_hives_clust.Balancer.{Balancer, Runtime, select_node}
use ollama_local_hives_clust.Balancer.Sorting.{insertion_runtime}
use ollama_local_hives_clust.Balancer.Examples.{ℕ_ops, sample_node}
use ollama_local_hives_clust.Proxy.{
  Proxy, Body, answered, idle, arrive, handle_inference, here, next, arrives, queue_full,
}
use ollama_local_hives_clust.Proxy.Saturation.{full_forever}
use ollama_local_hives_clust.Proxy.Handler.{Outcome, inference-Outcome}

abbrev rt : Runtime (Node ℕ)
rt = insertion_runtime (Node ℕ)

abbrev cluster_of_one : Manager ℕ
cluster_of_one = record {
  nodes = ("a", sample_node "a" 9 2) ∷ [];
  heartbeat_timeout = 1000;
  on_update = false;
  updates = 0;
}

abbrev least_load : Balancer
least_load = record { strategy = "least_load"; rr_index = 0; rand_calls = 0 }

abbrev request_of : RequestStatus → Request
request_of status = record {
  id = "r";
  model = "m";
  priority = pos 1;
  status = status;
  node_id = "";
  created_at = 0;
  started_at = none;
  completed_at = none;
  error = "";
  metadata = "";
}

abbrev body : Body
body = record { body_model = "m"; body_stream = true; body_priority = none; raw = "" }

-- A proxy whose requests are in the given status, with the given queue.
abbrev proxy : RequestStatus → List ℕ → Proxy ℕ
proxy status items = record {
  manager = cluster_of_one;
  balancer = least_load;
  queue = record { items = items; max_size = 1; notify = true };
  heap = λ r. request_of status;
  history = record { requests = []; history_size = 10 };
  active = [];
  phase = λ r. idle;
  next_ref = 1;
}

abbrev arrived : Proxy ℕ
arrived = (arrive (proxy pending (0 ∷ [])) (some (some body)) "s" 150).1

full_forever_example : (arrive arrived (some (some body)) "t" 160).0 ≡ some queue_full
full_forever_example =
    full_forever rt ℕ_ops {p = proxy pending (0 ∷ [])} {s = arrived}
      (next here (arrives (some (some body)) "s" 150)) body "t" 160 (omega arith) refl

inference-Outcome_example :
    Outcome
      (proxy unset [])
      1
      "s"
      (select_node rt ℕ_ops least_load (get_healthy_nodes cluster_of_one 150) 150).0
      true
      true
      (answered 200)
      (handle_inference rt ℕ_ops (proxy unset []) body "s" true (answered 200) 150)
unfolding lookup
inference-Outcome_example =
    inference-Outcome rt ℕ_ops (proxy unset []) body "s" true (answered 200) 150 (omega arith) refl

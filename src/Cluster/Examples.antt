-- ===== src/Cluster/Examples.antt =====
-- The theorems about internal/cluster at one node, with natural numbers for float64.
use ollama_local_hives_clust.Prelude.{
  ℕ, ◌+◌, ◌<◌, ◌↔◌, ◌≡◌, refl, true, none, some, List, [], ◌∷◌, pos,
}
use ollama_local_hives_clust.Cluster.Node.{Node, Load, online}
use ollama_local_hives_clust.Cluster.Manager.{
  Manager, RegistrationPayload, HeartbeatPayload, new_manager, get_node, get_healthy_nodes, node_of,
}
use ollama_local_hives_clust.Cluster.Events.{
  Event, register_call, heartbeat_call, tick, run, Consistent, run-Consistent,
}
use ollama_local_hives_clust.Cluster.Health.{find_id, get_healthy_nodes-online}

abbrev no_load : Load ℕ
no_load = record { cpu = 0; mem_used = 0; mem_total = 0; v_used = 0; v_total = 0; conns = pos 0 }

abbrev payload : RegistrationPayload
payload = record {
  reg_id = "a";
  reg_name = "a";
  reg_address = "10.0.0.1";
  reg_port = pos 11434;
  reg_hardware = "";
  reg_gpu_model = "";
  reg_gpu_memory = pos 0;
  reg_capacity = pos 2;
  reg_models = [];
  reg_ollama_version = "";
}

abbrev beat : HeartbeatPayload ℕ
beat = record { hb_node_id = "a"; hb_load = no_load; hb_models = none }

-- Node "a" was last heard of at time 100, the timeout is 10.
abbrev first_node : Node ℕ
first_node = record (node_of no_load payload) { status = online; last_heartbeat = 100 }

abbrev one_node : Manager ℕ
one_node = record {
  nodes = ("a", first_node) ∷ [];
  heartbeat_timeout = 10;
  on_update = true;
  updates = 1;
}

one_node-Consistent : Consistent one_node.nodes
unfolding node_of
one_node-Consistent = (refl, tt, tt)

abbrev events : List (Event ℕ)
events =
    register_call true (some payload) 100 100 ∷ tick 200 ∷ heartbeat_call true (some beat) 201 ∷ []

run-Consistent_example : Consistent (run no_load (new_manager 10 true) events).nodes
run-Consistent_example = run-Consistent no_load 10 true events

get_healthy_nodes-online_example :
    (find_id "a" (get_healthy_nodes one_node 105) ≡ some first_node) ↔ (
      (get_node one_node "a" ≡ some first_node)
      × (first_node.status ≡ online)
      × (105 < first_node.last_heartbeat + 10))
get_healthy_nodes-online_example =
    get_healthy_nodes-online one_node 105 "a" first_node one_node-Consistent

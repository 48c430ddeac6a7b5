-- ===== src/Agent/Examples.antt =====
-- The theorem about cmd/agent/main.go at a node that the server does not know.
use ollama_local_hives_clust.Prelude.{ℕ, ◌≡◌, refl, false, none, [], ◌∷◌, pos, lookup}
use ollama_local_hives_clust.Cluster.Node.{Load}
use ollama_local_hives_clust.Cluster.Manager.{Manager, RegistrationPayload, new_manager, get_node}
use ollama_local_hives_clust.Cluster.Events.{tick}
use ollama_local_hives_clust.Cluster.Health.{if_healthy}
use ollama_local_hives_clust.Agent.{not_sent, answered, Round, agent_run}
use ollama_local_hives_clust.Agent.Silence.{agent_run-unhealthy}

abbrev no_load : Load ℕ
no_load = record { cpu = 0; mem_used = 0; mem_total = 0; v_used = 0; v_total = 0; conns = pos 0 }

abbrev node_a : RegistrationPayload
node_a = record {
  reg_id = "a";
  reg_name = "a";
  reg_address = "10.0.0.1";
  reg_port = pos 11434;
  reg_hardware = "cpu";
  reg_gpu_model = "";
  reg_gpu_memory = pos 8;
  reg_capacity = pos 5;
  reg_models = [];
  reg_ollama_version = "";
}

-- The server has been started again, and one heartbeat is answered.
abbrev restarted : Manager ℕ
restarted = new_manager 10 false

abbrev beat_at : ℕ → Round no_load node_a
beat_at now = record {
  others = tick now ∷ [];
  measured = record { load = no_load; models = none };
  beat = answered now now;
  again = not_sent;
}

agent_run-unhealthy_example :
    if_healthy 10 105 (get_node (agent_run no_load node_a restarted (beat_at 104 ∷ [])) "a") ≡ none
unfolding get_node lookup new_manager
agent_run-unhealthy_example =
    agent_run-unhealthy no_load node_a (beat_at 104 ∷ []) restarted 10 105 tt
      ((refl, (refl, tt)), tt)

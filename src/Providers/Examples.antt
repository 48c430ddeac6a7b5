-- ===== src/Providers/Examples.antt =====
-- The theorems about hive-server-go/provider.go at a server with one peer; both have the same model.
use ollama_local_hives_clust.Prelude.{
  ℕ, ◌≡◌, refl, String, true, Option, none, some, List, [], ◌∷◌, if◌then◌else◌, str_eq, lookup,
  insert, ℤ, pos, map,
}
use ollama_local_hives_clust.Mesh.{PeerInfo}
use ollama_local_hives_clust.Providers.{
  Web, ProviderManager, new_provider_manager, register_all, probe_ollama, probe_openai_compatible,
  probe_lm_studio_at, probe_vllm_at, probe_custom, detect_local_providers, detect_peer_providers,
}
use ollama_local_hives_clust.Providers.Cache.{
  collect, collect_models, collect_providers, collect_nodes, peer_nodes, self_node, refresh, is_old,
  get_nodes, get_aggregated_models,
}
use ollama_local_hives_clust.Providers.Offered.{
  first_with, Unique, offered_by, get_aggregated_models-first,
}
use ollama_local_hives_clust.Providers.Kept.{node_ids, get_nodes-get_aggregated_models}
use native.Mathlib.Omega.{arith}

abbrev tags_at : String → Option (List (String × ℤ))
tags_at url =
    if str_eq url "http://localhost:11434"
    then some (("llama3:8b", pos 4700000000) ∷ ("phi3:mini", pos 0) ∷ [])
    else if str_eq url "http://10.0.0.2:11434"
    then some (("llama3:8b", pos 4700000000) ∷ [])
    else none

abbrev web : Web
web = record {
  tags = tags_at;
  ids = λ url. if str_eq url "http://localhost:1234" then some ("qwen2" ∷ "qwen2" ∷ []) else none;
  hostname = λ endpoint. if str_eq endpoint "http://10.0.0.2:8000" then some "10.0.0.2" else none;
  port_text = λ _. "8000";
  gb_text = λ _. "4.7";
  asked_at = λ _. 100000;
}

abbrev peer : PeerInfo ℕ
peer = record {
  server_id = "b";
  endpoint = "http://10.0.0.2:8000";
  max_concurrent = pos 2;
  ollama_model = "llama3:8b";
  last_seen = 99500;
  pending_jobs = pos 0;
  running_jobs = pos 0;
  clients = pos 0;
  available_cap = pos 2;
  load = 0;
  alive = true;
}

abbrev manager : ProviderManager ℕ
unfolding new_provider_manager
manager =
    new_provider_manager "a" (pos 8000) "http://localhost:11434" ("http://localhost:9000" ∷ []) none

-- The peer's model is not listed, as no peer is asked.
manager_models :
    map (λ m. m.name) (get_aggregated_models 0 web 100000 manager).0
    ≡ "llama3:8b" ∷ "phi3:mini" ∷ "qwen2" ∷ []
unfolding get_aggregated_models collect_nodes get_nodes manager refresh peer_nodes collect_providers
    self_node detect_local_providers probe_ollama probe_lm_studio_at probe_openai_compatible
    probe_vllm_at collect_models probe_custom collect lookup insert register_all
    detect_peer_providers new_provider_manager
manager_models = refl

manager_is_old : is_old 100000 manager ≡ true
unfolding manager
manager_is_old = refl

get_aggregated_models-first_example :
    Unique (get_aggregated_models 0 web 100000 manager).0
    × ((k : String)
        → first_with k (get_aggregated_models 0 web 100000 manager).0
          ≡ first_with k (offered_by (get_nodes 0 web [] 100000 manager).0))
get_aggregated_models-first_example = get_aggregated_models-first 0 web 100000 manager

get_nodes-get_aggregated_models_example :
    (node_ids (get_nodes 0 web (peer ∷ []) 100000 manager).0 ≡ "a" ∷ "b" ∷ [])
    × (get_nodes 0 web [] 120000 (get_nodes 0 web (peer ∷ []) 100000 manager).1
        ≡ get_nodes 0 web (peer ∷ []) 100000 manager)
    × (node_ids (get_nodes 0 web [] 120000 (get_aggregated_models 0 web 100000 manager).1).0
        ≡ "a" ∷ [])
unfolding manager
get_nodes-get_aggregated_models_example =
    get_nodes-get_aggregated_models 0 web (peer ∷ []) [] 100000 120000 manager manager_is_old
      (omega arith)

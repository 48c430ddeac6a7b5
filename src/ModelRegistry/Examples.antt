-- ===== src/ModelRegistry/Examples.antt =====
-- The theorem about hive-server-go/model_registry.go at one model.
use ollama_local_hives_clust.Prelude.{[], ◌∷◌, true, pos}
use ollama_local_hives_clust.ModelRegistry.{new_model_registry}
use ollama_local_hives_clust.ModelRegistry.Loads.{
  Balanced, loads_model, unloads_model, uses_model, perform_all, loads-Balanced,
}

loads-Balanced_example : Balanced (
    perform_all new_model_registry (
      loads_model "server" "llama3:8b" "ollama" "http://localhost" (pos 1000) (pos 8192) 10
      ∷ uses_model "llama3:8b" true "" 11
      ∷ unloads_model "llama3:8b"
      ∷ []))
loads-Balanced_example = loads-Balanced (
    loads_model "server" "llama3:8b" "ollama" "http://localhost" (pos 1000) (pos 8192) 10
    ∷ uses_model "llama3:8b" true "" 11
    ∷ unloads_model "llama3:8b"
    ∷ [])

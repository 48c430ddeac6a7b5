-- ===== src/OpenAi/Asked.antt =====
-- What Ollama is asked for a chat that handleOpenAIDirect of hive-server-go/openai_compat.go hands to
-- the job queue.
use ollama_local_hives_clust.Prelude.{String, false, Option, if◌then◌else◌, str_eq}
use ollama_local_hives_clust.Jobs.{
  Json, Fields, null_value, bool_value, text_value, no_fields, field,
}
use ollama_local_hives_clust.Jobs.Calls.{OllamaCall, post_ollama}

module _ {N : Type 0} (show : Json N → String) (tenth : N) (ollama_model : String)
    (write_prompt : String → Option String → Fields N → String) where
  -- A request of a model without messages, with JSON's null in their place.
  abbrev pub empty_chat : String → OllamaCall N
  empty_chat model = post_ollama "/api/chat" (
      field "model" (text_value (if str_eq model "" then ollama_model else model))
        (field "messages" null_value (field "stream" (bool_value false) no_fields)))

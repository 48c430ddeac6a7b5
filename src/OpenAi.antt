-- ===== src/OpenAi.antt =====
-- hive-server-go/openai_compat.go: the model that a chat request is served with, and the messages that
-- are passed on. strings.ToLower is an argument. The replies are in the children.
pub mod Stream
pub mod Direct
pub mod Listing
pub mod Search
pub mod Selection
pub mod Prompt
pub mod Ending
pub mod Relay
pub mod Asked
pub mod Listed
pub mod Owners
pub mod Replay
mod Examples
use ollama_local_hives_clust.Prelude.{
  ℕ, String, Bool, true, false, ◌&&◌, Option, none, some, List, [], ◌∷◌, ◌++◌, if◌then◌else◌,
  str_eq,
}
use ollama_local_hives_clust.ModelRegistry.{
  LoadedModelInfo, ModelRegistry, is_loaded_locally, find_compatible_local_model,
  find_peer_with_loaded_model, find_peer_with_compatible_model, mark_model_used,
}

pub record SelectedModel : Type 0 where
  pub name : String
  pub endpoint : String
  pub used_compatible : Bool

-- if peerNodeID, info := …; peerNodeID != "" {
unfoldable pub on_a_peer : Option (String × LoadedModelInfo) → Option (String × LoadedModelInfo)
on_a_peer none = none
on_a_peer (some p) = if str_eq p.0 "" then none else some p

unfoldable pub select_best_model :
    String → ModelRegistry → String → ℕ → SelectedModel × ModelRegistry
select_best_model ollama_url mr requested now =
    if is_loaded_locally mr requested
    then (
      record { name = requested; endpoint = ollama_url; used_compatible = false },
      mark_model_used mr requested true "" now,
    )
    else elim (find_compatible_local_model mr requested) as (λ _. SelectedModel × ModelRegistry) [
      | some info ↦ (
        record { name = info.name; endpoint = info.endpoint; used_compatible = true },
        mark_model_used mr info.name true "" now,
      )
      | none ↦
          elim (on_a_peer (find_peer_with_loaded_model mr requested))
            as (λ _. SelectedModel × ModelRegistry) [
              | some p ↦ (
                record { name = requested; endpoint = p.1.endpoint; used_compatible = false },
                mark_model_used mr requested false p.0 now,
              )
              | none ↦
                  elim (on_a_peer (find_peer_with_compatible_model mr requested))
                    as (λ _. SelectedModel × ModelRegistry) [
                      | some p ↦ (
                        record { name = p.1.name; endpoint = p.1.endpoint; used_compatible = true },
                        mark_model_used mr p.1.name false p.0 now,
                      )
                      | none ↦ (
                        record { name = requested; endpoint = ollama_url; used_compatible = false },
                        mr,
                      )
                    ]
            ]
    ]

-- OpenAIMessage, and a message map of Ollama
pub record OpenAiMessage : Type 0 where
  pub role : String
  pub content : String

-- The system prompt and the conversation, as far as the loop has come
pub record Extracted : Type 0 where
  pub system_prompt : String
  pub conversation : List OpenAiMessage

abbrev pub ollama_role : String → String
ollama_role role = if str_eq role "developer" then "system" else role

abbrev pub with_message : String → OpenAiMessage → Extracted → Extracted
with_message role m x = if str_eq m.content "" then x else record x {
  conversation = x.conversation ++ (record { role = ollama_role role; content = m.content }) ∷ [];
}

unfoldable pub extract_message : (String → String) → OpenAiMessage → Extracted → Extracted
extract_message to_lower m x =
    if str_eq (to_lower m.role) "system" && str_eq x.system_prompt ""
    then record x { system_prompt = m.content }
    else with_message (to_lower m.role) m x

unfoldable pub extract_messages : (String → String) → List OpenAiMessage → Extracted → Extracted
extract_messages to_lower [] x = x
extract_messages to_lower (m ∷ ms) x = extract_messages to_lower ms (extract_message to_lower m x)

abbrev pub default_prompt : String
default_prompt = "You are a helpful coding assistant. Write clean, production-ready code."

unfoldable pub with_default : Extracted → Extracted
with_default x =
    if str_eq x.system_prompt "" then record x { system_prompt = default_prompt } else x

unfoldable pub messages_of : (String → String) → List OpenAiMessage → Extracted
messages_of to_lower ms =
    with_default (extract_messages to_lower ms (record { system_prompt = ""; conversation = [] }))

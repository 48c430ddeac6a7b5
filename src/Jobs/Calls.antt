-- ===== src/Jobs/Calls.antt =====
-- The requests that the jobs of hive-server-go/queue.go make of Ollama, by the type of the job.
use ollama_local_hives_clust.Prelude.{
  String, Bool, true, false, ◌||◌, Option, none, some, List, [], ◌∷◌, if◌then◌else◌, str_eq,
}
use ollama_local_hives_clust.Jobs.{
  Json, Fields, null_value, bool_value, number_value, text_value, object_value, no_fields, field,
  array_value, get_field, as_text, as_number, as_bool, or_default,
}

-- A body is sent as the fields in the order that the source writes them; JSON's order is free.
pub data OllamaCall (N : Type 0) : Type 0 where
  post_ollama : String → Fields N → OllamaCall N
  get_ollama : String → OllamaCall N
  -- an error before any request
  no_call : String → OllamaCall N

-- What an answer holds: the error's text, or the decoded body
pub data CallResult (N : Type 0) : Type 0 where
  call_failed : String → CallResult N
  call_answered : Json N → CallResult N

-- json.Unmarshal into a map: none for an error, and in it none for the text `null`, which leaves the map
-- nil. The groups that the three patterns match, in their order.
pub record JsonReader (N : Type 0) : Type 0 where
  pub unmarshal : String → Option (Option (Fields N))
  pub groups : String → List String

module _ {N : Type 0} (reader : JsonReader N) where
  unfoldable pub first_parsed : List String → Option (Option (Fields N))
  first_parsed [] = none
  first_parsed (g ∷ gs) = elim (reader.unmarshal g) as (λ _. Option (Option (Fields N))) [
    | some parsed ↦ some parsed
    | none ↦ first_parsed gs
  ]

  -- none is a nil map
  unfoldable pub extract_json_from_response : Fields N → Option (Fields N)
  unfolding get_field as_text first_parsed
  extract_json_from_response fs =
      let response = or_default (as_text (get_field "response" fs)) "" in
      if str_eq response ""
      then some fs
      else elim (reader.unmarshal response) as (λ _. Option (Fields N)) [
        | some parsed ↦ parsed
        | none ↦ elim (first_parsed (reader.groups response)) as (λ _. Option (Fields N)) [
          | some parsed ↦ parsed
          | none ↦ some (field "raw_response" (text_value response) fs)
        ]
      ]

module _ {N : Type 0} (tenth : N) (ollama_model : String) where
  unfoldable pub text_or : String → Fields N → String → String
  unfolding get_field as_text
  text_or key payload d = or_default (as_text (get_field key payload)) d

  -- payload["model"], if it is a text and not empty
  abbrev pub model_or : Fields N → String → String
  model_or payload d = let m = text_or "model" payload "" in if str_eq m "" then d else m

  unfoldable pub stream_of : Fields N → Bool
  unfolding get_field as_bool
  stream_of payload = or_default (as_bool (get_field "stream" payload)) false

  unfoldable pub call_ollama_generate : Fields N → OllamaCall N
  unfolding get_field as_number
  call_ollama_generate payload =
      let system = text_or "system" payload "" in
      post_ollama "/api/generate" (
        field "model" (text_value (model_or payload ollama_model)) (
          field "prompt" (text_value (text_or "prompt" payload "")) (
            field "stream" (bool_value (stream_of payload)) (
              field "temperature"
                (number_value (or_default (as_number (get_field "temperature" payload)) tenth))
                (if str_eq system ""
                  then no_fields
                  else field "system" (text_value system) no_fields)))))

  -- A payload whose messages are no []interface{} sends null.
  unfoldable pub messages_of : Fields N → Json N
  unfolding get_field
  messages_of payload = elim (get_field "messages" payload) [
    | some (array_value es) ↦ array_value es
    | _ ↦ null_value
  ]

  unfoldable pub call_ollama_chat : Fields N → OllamaCall N
  unfolding messages_of
  call_ollama_chat payload = post_ollama "/api/chat" (
      field "model" (text_value (model_or payload ollama_model)) (
        field "messages" (messages_of payload)
          (field "stream" (bool_value (stream_of payload)) no_fields)))

  unfoldable pub call_ollama_chat_payload : Fields N → OllamaCall N
  unfolding get_field
  call_ollama_chat_payload payload = post_ollama "/api/chat" (
      field "model" (or_default (get_field "model" payload) null_value) (
        field "messages" (or_default (get_field "messages" payload) null_value)
          (field "stream" (bool_value false) no_fields)))

  unfoldable pub call_ollama_embed : Fields N → OllamaCall N
  call_ollama_embed payload =
      let prompt = text_or "prompt" payload "" in
      post_ollama "/api/embeddings" (
        field "model" (text_value (model_or payload "nomic-embed-text")) (
          field "prompt"
            (text_value (if str_eq prompt "" then text_or "text" payload "" else prompt))
            no_fields))

  unfoldable pub call_ollama_pull_model : Fields N → OllamaCall N
  call_ollama_pull_model payload =
      let name = text_or "name" payload "" in
      if str_eq name ""
      then no_call "model name required"
      else post_ollama "/api/pull"
          (field "name" (text_value name) (field "stream" (bool_value false) no_fields))

  -- The prompt is made of the job's type and its text, or of its whole payload.
  unfoldable pub call_ollama_generic :
      (String → Option String → Fields N → String) → Fields N → String → OllamaCall N
  call_ollama_generic write_prompt payload job_type =
      let own = text_or "text" payload "" in
      let text = if str_eq own "" then text_or "prompt" payload "" else own in
      post_ollama "/api/generate" (
        field "model" (text_value ollama_model) (
          field "prompt"
            (text_value
              (write_prompt job_type (if str_eq text "" then none else some text) payload))
            (field "stream" (bool_value false)
              (field "temperature" (number_value tenth) no_fields))))

  -- The numbers and the model of the answer, written over the extracted object
  abbrev pub copied : String → Option (Json N) → Fields N → Fields N
  copied key none fs = fs
  copied key (some v) fs = field key v fs

  abbrev pub number_of : String → Fields N → Option (Json N)
  unfolding get_field as_number
  number_of key fs = elim (as_number (get_field key fs)) as (λ _. Option (Json N)) [
    | none ↦ none
    | some n ↦ some (number_value n)
  ]

  abbrev pub is_some {ℓ} : {A : Type ℓ} → Option A → Bool
  is_some none = false
  is_some (some _) = true

  abbrev pub model_value : Fields N → Option (Json N)
  unfolding get_field as_text
  model_value fs = elim (as_text (get_field "model" fs)) as (λ _. Option (Json N)) [
    | none ↦ none
    | some m ↦ some (text_value m)
  ]

  -- One of the four tests before a write holds.
  abbrev pub has_counts : Fields N → Bool
  unfolding number_of model_value
  has_counts fs =
      is_some (number_of "eval_count" fs)
      || is_some (number_of "prompt_eval_count" fs)
      || is_some (number_of "eval_duration" fs)
      || is_some (model_value fs)

  abbrev pub with_answer : Fields N → Fields N → Fields N
  unfolding number_of model_value
  with_answer fs extracted = copied "model" (model_value fs) (
      copied "eval_duration" (number_of "eval_duration" fs) (
        copied "prompt_eval_count" (number_of "prompt_eval_count" fs)
          (copied "eval_count" (number_of "eval_count" fs) extracted)))

  -- The object of the result, or none where a write to a nil map panics. A nil map without a write
  -- is encoded as null.
  unfoldable pub generic_result : JsonReader N → Json N → Option (Json N)
  unfolding extract_json_from_response has_counts with_answer
  generic_result reader (object_value fs) =
      elim (extract_json_from_response reader fs) as (λ _. Option (Json N)) [
        | some extracted ↦ some (object_value (with_answer fs extracted))
        | none ↦ if has_counts fs then none else some null_value
      ]
  generic_result reader v = some v

  abbrev pub is_generic : String → Bool
  is_generic t =
      if str_eq t "generate"
      then false
      else if str_eq t "chat"
      then false
      else if str_eq t "coding_agent_chat"
      then false
      else if str_eq t "embed"
      then false
      else if str_eq t "get_embedding"
      then false
      else if str_eq t "list_models"
      then false
      else if str_eq t "pull_model"
      then false
      else true

  -- The switch of executeJob
  unfoldable pub call_of :
      (String → Option String → Fields N → String) → String → Fields N → OllamaCall N
  call_of write_prompt t payload =
      if str_eq t "generate"
      then call_ollama_generate payload
      else if str_eq t "chat"
      then call_ollama_chat payload
      else if str_eq t "coding_agent_chat"
      then call_ollama_chat_payload payload
      else if str_eq t "embed"
      then call_ollama_embed payload
      else if str_eq t "get_embedding"
      then call_ollama_embed payload
      else if str_eq t "list_models"
      then get_ollama "/api/tags"
      else if str_eq t "pull_model"
      then call_ollama_pull_model payload
      else call_ollama_generic write_prompt payload t

  unfoldable pub perform : (OllamaCall N → CallResult N) → OllamaCall N → CallResult N
  perform answer (no_call e) = call_failed e
  perform answer (post_ollama path body) = answer (post_ollama path body)
  perform answer (get_ollama path) = answer (get_ollama path)

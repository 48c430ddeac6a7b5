-- ===== src/Audit.antt =====
-- hive-server-go/audit.go and auditMiddleware of hive-server-go/main.go: what is logged of a request
-- and of its response. Bodies are decoded JSON, and `none` one that is no object. The times and the
-- random request ids that a call draws are arguments. A nil map is an empty one.
pub mod Flusher
pub mod Detail
pub mod Trail
pub mod Waking
pub mod Middleware
mod Examples
use text.Mathlib.Text.{starts_with}
use ollama_local_hives_clust.Prelude.{
  ℕ, String, Bool, true, false, ◌||◌, ◌&&◌, Option, none, some, List, [], ◌∷◌, if◌then◌else◌,
  str_eq, ℤ, pos,
}
use ollama_local_hives_clust.Jobs.{
  Json, array_value, text_value, Elements, no_elements, element, Fields, no_fields, field,
  get_field, as_text, as_object, as_number, or_default,
}

-- An event without the columns parent_id and agent_type, which nothing writes; `created_at` is `none`
-- until it is logged, and the id is the place in the table.
pub record AuditEvent (N : Type 0) : Type 0 where
  pub request_id : String
  pub event_type : String
  pub category : String
  pub method : String
  pub path : String
  pub status_code : ℤ
  pub client_id : String
  pub model : String
  pub job_type : String
  pub job_id : String
  pub content : String
  pub query : String
  pub prompt : String
  pub overrides : Fields N
  pub duration_ms : N
  pub token_count : ℤ
  pub served_by : String
  pub metadata : Fields N
  pub error_message : String
  pub created_at : Option ℕ

-- What the logging reads of an *http.Request
pub record HttpRequest : Type 0 where
  pub method : String
  pub path : String
  pub remote_addr : String
  pub user_agent : String

-- if t, ok := …; ok && text == "" { text = t }
abbrev pub fill : String → Option String → String
fill text none = text
fill text (some t) = if str_eq text "" then t else text

unfoldable pub category_of : String → String
category_of path =
    if starts_with path "/api/agent"
    then "coding_agent"
    else if starts_with path "/v1/"
    then "openai_compat"
    else if starts_with path "/api/jobs"
    then "job_queue"
    else if starts_with path "/api/peers"
    then "mesh"
    else "system"

module _ {N : Type 0} where
  -- AuditEvent{}, with the zero of float64
  unfoldable pub empty_event : N → AuditEvent N
  empty_event zero = record {
    request_id = "";
    event_type = "";
    category = "";
    method = "";
    path = "";
    status_code = pos 0;
    client_id = "";
    model = "";
    job_type = "";
    job_id = "";
    content = "";
    query = "";
    prompt = "";
    overrides = no_fields;
    duration_ms = zero;
    token_count = pos 0;
    served_by = "";
    metadata = no_fields;
    error_message = "";
    created_at = none;
  }

  -- The two fields that LogEvent fills in
  unfoldable pub stamped : ℕ → String → AuditEvent N → AuditEvent N
  stamped now generated e = record e {
    created_at = some (or_default e.created_at now);
    request_id = if str_eq e.request_id "" then generated else e.request_id;
  }

  unfoldable pub as_array : Option (Json N) → Option (Elements N)
  as_array (some (array_value xs)) = some xs
  as_array _ = none

  abbrev pub first_element : Elements N → Option (Json N)
  first_element no_elements = none
  first_element (element x xs) = some x

  abbrev pub last_element : Elements N → Option (Json N)
  last_element no_elements = none
  last_element (element x no_elements) = some x
  last_element (element x (element y ys)) = last_element (element y ys)

  abbrev pub text_field : String → Fields N → Option String
  unfolding get_field as_text
  text_field key fs = as_text (get_field key fs)

  -- The content of the last of the messages
  unfoldable pub last_content : Fields N → Option String
  unfolding as_array as_object get_field
  last_content fs = elim (as_array (get_field "messages" fs)) [
    | none ↦ none
    | some xs ↦ elim (as_object (last_element xs)) as (λ _. Option String) [
      | none ↦ none
      | some m ↦ text_field "content" m
    ]
  ]

  -- The prompt and the model that LogRequest reads from a body
  unfoldable pub prompt_of : Fields N → String
  unfolding as_object get_field last_content
  prompt_of body =
      let own = or_default (text_field "prompt" body) "" in
      let nested = elim (as_object (get_field "payload" body)) as (λ _. String) [
        | none ↦ own
        | some payload ↦ fill (fill own (text_field "prompt" payload)) (last_content payload)
      ] in
      fill nested (last_content body)

  unfoldable pub model_of : Fields N → String
  unfolding as_object get_field
  model_of body =
      let own = or_default (text_field "model" body) "" in
      elim (as_object (get_field "payload" body)) as (λ _. String) [
        | none ↦ own
        | some payload ↦ fill own (text_field "model" payload)
      ]

  -- The event of LogRequest under the id that it draws
  unfoldable pub request_event :
      N → String → HttpRequest → Option (Fields N) → String → AuditEvent N
  unfolding empty_event prompt_of model_of category_of
  request_event zero id r body client =
      let fs = or_default body no_fields in
      record (empty_event zero) {
        request_id = id;
        event_type = "request";
        category = category_of r.path;
        method = r.method;
        path = r.path;
        client_id = client;
        model = model_of fs;
        job_type = or_default (text_field "job_type" fs) "";
        query = or_default (text_field "query" fs) "";
        prompt = prompt_of fs;
        overrides = fs;
        metadata =
            field "remote_addr" (text_value r.remote_addr)
              (field "user_agent" (text_value r.user_agent) no_fields);
      }

  -- choices[0].message.content
  unfoldable pub choice_content : Fields N → Option String
  unfolding as_array as_object get_field
  choice_content body = elim (as_array (get_field "choices" body)) [
    | none ↦ none
    | some xs ↦ elim (as_object (first_element xs)) as (λ _. Option String) [
      | none ↦ none
      | some choice ↦ elim (as_object (get_field "message" choice)) as (λ _. Option String) [
        | none ↦ none
        | some m ↦ text_field "content" m
      ]
    ]
  ]

  unfoldable pub usage_total : (N → ℤ) → Fields N → ℤ
  unfolding as_object get_field as_number
  usage_total to_int body = elim (as_object (get_field "usage" body)) [
    | none ↦ pos 0
    | some usage ↦ elim (as_number (get_field "total_tokens" usage)) [
      | none ↦ pos 0
      | some n ↦ to_int n
    ]
  ]

  -- The event of LogResponse
  unfoldable pub response_event :
      N → (N → ℤ) → String → String → ℤ → Option (Fields N) → N → AuditEvent N
  unfolding empty_event choice_content usage_total
  response_event zero to_int server id code body duration =
      let fs = or_default body no_fields in
      record (empty_event zero) {
        request_id = id;
        event_type = "response";
        status_code = code;
        content = or_default (choice_content fs) (or_default (text_field "content" fs) "");
        token_count = usage_total to_int fs;
        duration_ms = duration;
        served_by = server;
      }

  -- The events of LogJobEvent, LogForwardEvent and LogError
  unfoldable pub job_event :
      N → String → String → String → String → String → Fields N → AuditEvent N
  unfolding empty_event
  job_event zero id job job_type model event_type metadata = record (empty_event zero) {
    request_id = id;
    event_type = event_type;
    category = "job_queue";
    job_id = job;
    job_type = job_type;
    model = model;
    metadata = metadata;
  }

  unfoldable pub forward_event : N → String → String → String → String → AuditEvent N
  unfolding empty_event
  forward_event zero id peer model event_type = record (empty_event zero) {
    request_id = id;
    event_type = event_type;
    category = "mesh";
    model = model;
    metadata = field "peer_id" (text_value peer) no_fields;
  }

  unfoldable pub error_event : N → String → String → Fields N → AuditEvent N
  unfolding empty_event
  error_event zero id message metadata = record (empty_event zero) {
    request_id = id;
    event_type = "error";
    error_message = message;
    metadata = metadata;
  }

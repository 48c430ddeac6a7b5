-- ===== src/Jobs.antt =====
-- hive-server-go/queue.go: the jobs of the mesh server, the requests that they become and the workers
-- that carry them out. A value of encoding/json is a tree over the numbers `N` of float64. What a
-- request is answered, how a generic job's prompt is written, and what json.Unmarshal and the regular
-- expressions make of a text are arguments. Times are milliseconds.
pub mod Calls
pub mod Workers
pub mod Busy
pub mod Capacity
pub mod Kept
pub mod Metrics
mod Examples
use ollama_local_hives_clust.Prelude.{
  ℕ, ◌+◌, String, Bool, true, false, Option, none, some, List, [], ◌∷◌, if◌then◌else◌, str_eq, ℤ,
  pos, add64, eqb_ℤ, ◌&&◌,
}

mutual
  pub data Json (N : Type 0) : Type 0 where
    null_value : Json N
    bool_value : Bool → Json N
    number_value : N → Json N
    text_value : String → Json N
    array_value : Elements N → Json N
    -- a []map[string]string, which is no []interface{}
    text_maps : Elements N → Json N
    object_value : Fields N → Json N

  pub data Elements (N : Type 0) : Type 0 where
    no_elements : Elements N
    element : Json N → Elements N → Elements N

  pub data Fields (N : Type 0) : Type 0 where
    no_fields : Fields N
    field : String → Json N → Fields N → Fields N

pub data JobStatus : Type 0 where
  job_pending job_running job_completed job_failed : JobStatus

pub record Job (N : Type 0) : Type 0 where
  pub id : String
  pub client_id : String
  pub job_type : String
  pub payload_map : Fields N
  pub status : JobStatus
  pub result : Option (Json N)
  pub error : String
  pub created_at : ℕ
  pub started_at : Option ℕ
  pub completed_at : Option ℕ
  pub model : String
  pub prompt_tokens : ℤ
  pub eval_tokens : ℤ
  pub total_tokens : ℤ
  pub eval_duration : N

abbrev pub or_default {ℓ} : {A : Type ℓ} → Option A → A → A
or_default none d = d
or_default (some a) d = a

module _ {N : Type 0} where
  -- m[key] for a map[string]interface{}
  unfoldable pub get_field : String → Fields N → Option (Json N)
  get_field key no_fields = none
  get_field key (field k v rest) = if str_eq k key then some v else get_field key rest

  -- The conversions v.(T) in the comma-ok form
  unfoldable pub as_text : Option (Json N) → Option String
  as_text (some (text_value s)) = some s
  as_text _ = none

  unfoldable pub as_number : Option (Json N) → Option N
  as_number (some (number_value n)) = some n
  as_number _ = none

  unfoldable pub as_bool : Option (Json N) → Option Bool
  as_bool (some (bool_value b)) = some b
  as_bool _ = none

  unfoldable pub as_object : Option (Json N) → Option (Fields N)
  as_object (some (object_value fs)) = some fs
  as_object _ = none

  unfoldable pub new_job : String → String → String → Fields N → N → ℕ → Job N
  new_job id client_id job_type payload zero now = record {
    id = id;
    client_id = client_id;
    job_type = job_type;
    payload_map = payload;
    status = job_pending;
    result = none;
    error = "";
    created_at = now;
    started_at = none;
    completed_at = none;
    model = "";
    prompt_tokens = pos 0;
    eval_tokens = pos 0;
    total_tokens = pos 0;
    eval_duration = zero;
  }

  -- `to_int` is int(…) of a float64.
  module _ (to_int : N → ℤ) where
    -- v.(float64), converted, or what was there
    abbrev pub int_or : Option (Json N) → ℤ → ℤ
    unfolding as_number
    int_or v d = elim (as_number v) [ none ↦ d | some n ↦ to_int n ]

    abbrev pub totalled : Job N → Job N
    totalled j = record j { total_tokens = add64 j.prompt_tokens j.eval_tokens }

    -- The counts at the top of the result
    unfoldable pub with_counts : Fields N → Job N → Job N
    unfolding get_field as_text as_number
    with_counts fs j =
        let named = or_default (as_text (get_field "model" fs)) "" in
        record (totalled (record j {
          prompt_tokens = int_or (get_field "prompt_eval_count" fs) j.prompt_tokens;
          eval_tokens = int_or (get_field "eval_count" fs) j.eval_tokens;
        })) {
          model = if str_eq named "" then j.model else named;
          eval_duration = or_default (as_number (get_field "eval_duration" fs)) j.eval_duration;
        }

    -- The counts under "usage"
    unfoldable pub with_usage : Fields N → Job N → Job N
    unfolding get_field
    with_usage fs j = totalled (record j {
      prompt_tokens = int_or (get_field "prompt_tokens" fs) j.prompt_tokens;
      eval_tokens = int_or (get_field "completion_tokens" fs) j.eval_tokens;
    })

    abbrev pub is_uncounted : Job N → Bool
    is_uncounted j = eqb_ℤ j.prompt_tokens (pos 0) && eqb_ℤ j.eval_tokens (pos 0)

    unfoldable pub parse_token_metrics : Json N → Job N → Job N
    unfolding get_field as_object
    parse_token_metrics (object_value fs) j =
        let counted = with_counts fs j in
        if is_uncounted counted
        then elim (as_object (get_field "usage" fs)) [
          | none ↦ counted
          | some usage ↦ with_usage usage counted
        ]
        else counted
    parse_token_metrics _ j = j

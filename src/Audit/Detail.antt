-- ===== src/Audit/Detail.antt =====
-- GetRequestDetail of hive-server-go/audit.go, over the events that GetRequestTimeline gives: the rows
-- with the request's id, in the order of their times. Times are whole seconds, as they are stored.
use ollama_local_hives_clust.Prelude.{
  ℕ, ◌+◌, ◌≡◌, refl, ap, ◌∙◌, String, Bool, true, false, ◌&&◌, not, Option, none, some, List, [],
  ◌∷◌, arith, if◌then◌else◌, Map, lookup, insert, lookup-insert, str_eq, eq_iff, ℤ, pos, ltb_ℤ,
  sub64, mul64, length,
}
use ollama_local_hives_clust.Jobs.{Fields, or_default}
use ollama_local_hives_clust.Audit.{AuditEvent}

-- The fields of the first request event that the detail repeats
pub record PrimaryEvent (N : Type 0) : Type 0 where
  pub method : String
  pub path : String
  pub model : String
  pub prompt : String
  pub query : String
  pub client_id : String
  pub job_type : String
  pub overrides : Fields N

-- The keys of the detail; `none` is a key that is not set.
pub record RequestDetail (N : Type 0) : Type 0 where
  pub events : List (AuditEvent N)
  pub total_events : ℕ
  pub primary : Option (PrimaryEvent N)
  pub response_content : Option String
  pub status_code : Option ℤ
  pub token_count : Option ℤ
  pub served_by : Option String
  pub total_duration_ms : ℤ
  pub event_counts : Map ℕ

-- if test && detail[key] == nil { detail[key] = value }
abbrev pub set_once {ℓ} : {A : Type ℓ} → Option A → Bool → A → Option A
set_once (some a) test value = some a
set_once none test value = if test then some value else none

abbrev pub or_first {ℓ} : {A : Type ℓ} → Option A → Option A → Option A
or_first (some a) b = some a
or_first none b = b

set_once-or_first {ℓ} :
    {A : Type ℓ} (r t : Bool) (o : Option A) (v : A) (rest : Option A)
    → or_first (if r then set_once o t v else o) rest ≡ or_first o (if r && t then some v else rest)
set_once-or_first true true none v rest = refl
set_once-or_first true false none v rest = refl
set_once-or_first false t none v rest = refl
set_once-or_first true t (some a) v rest = refl
set_once-or_first false t (some a) v rest = refl

or_first-none {ℓ} : {A : Type ℓ} (o : Option A) → o ≡ or_first o none
or_first-none none = refl
or_first-none (some a) = refl

module _ {N : Type 0} where
  unfoldable pub primary_of : List (AuditEvent N) → Option (PrimaryEvent N)
  primary_of [] = none
  primary_of (e ∷ es) =
      let rest = primary_of es in
      if str_eq e.event_type "request"
      then some (record {
        method = e.method;
        path = e.path;
        model = e.model;
        prompt = e.prompt;
        query = e.query;
        client_id = e.client_id;
        job_type = e.job_type;
        overrides = e.overrides;
      })
      else rest

  abbrev pub is_response : AuditEvent N → Bool
  is_response e = str_eq e.event_type "response"

  unfoldable pub with_response : AuditEvent N → RequestDetail N → RequestDetail N
  with_response e d =
      if is_response e
      then record d {
        response_content = set_once d.response_content (not (str_eq e.content "")) e.content;
        status_code = set_once d.status_code true e.status_code;
        token_count = set_once d.token_count (ltb_ℤ (pos 0) e.token_count) e.token_count;
        served_by = set_once d.served_by (not (str_eq e.served_by "")) e.served_by;
      }
      else d

  unfoldable pub with_responses : List (AuditEvent N) → RequestDetail N → RequestDetail N
  with_responses [] d = d
  with_responses (e ∷ es) d = with_responses es (with_response e d)

  abbrev pub last_of : AuditEvent N → List (AuditEvent N) → AuditEvent N
  last_of e [] = e
  last_of e (f ∷ fs) = last_of f fs

  abbrev pub time_of : AuditEvent N → ℤ
  time_of e = pos (or_default e.created_at 0)

  -- eventCounts[e.EventType]++
  unfoldable pub count_events : List (AuditEvent N) → Map ℕ → Map ℕ
  count_events [] m = m
  count_events (e ∷ es) m =
      count_events es (insert e.event_type (or_default (lookup e.event_type m) 0 + 1) m)

  unfoldable pub get_request_detail : List (AuditEvent N) → Option (RequestDetail N)
  get_request_detail [] = none
  get_request_detail (e ∷ es) =
      some
        (record (with_responses (e ∷ es) (record {
          events = e ∷ es;
          total_events = length (e ∷ es);
          primary = primary_of (e ∷ es);
          response_content = none;
          status_code = none;
          token_count = none;
          served_by = none;
          total_duration_ms = pos 0;
          event_counts = [];
        })) {
          total_duration_ms = mul64 (sub64 (time_of (last_of e es)) (time_of e)) (pos 1000);
          event_counts = count_events (e ∷ es) [];
        })

  -- The first value among the responses that pass the test.
  abbrev pub first_response {ℓ} :
      {A : Type ℓ} → (AuditEvent N → Bool) → (AuditEvent N → A) → List (AuditEvent N) → Option A
  first_response test value [] = none
  first_response test value (e ∷ es) =
      if is_response e && test e then some (value e) else first_response test value es

  abbrev pub occurrences : String → List (AuditEvent N) → ℕ
  occurrences t [] = 0
  occurrences t (e ∷ es) = if str_eq e.event_type t then occurrences t es + 1 else occurrences t es

  -- What the responses leave of a key, for a key that each response sets as `set_once` does.
  with_responses-field {ℓ} :
      {A : Type ℓ} (key : RequestDetail N → Option A) (test : AuditEvent N → Bool)
      (value : AuditEvent N → A)
      → ((e : AuditEvent N) (d : RequestDetail N)
          → key (with_response e d)
            ≡ (if is_response e then set_once (key d) (test e) (value e) else key d))
      → (es : List (AuditEvent N)) (d : RequestDetail N)
      → key (with_responses es d) ≡ or_first (key d) (first_response test value es)
  unfolding with_responses
  with_responses-field key test value own [] d = or_first-none (key d)
  with_responses-field key test value own (e ∷ es) d =
      with_responses-field key test value own es (with_response e d)
      ∙ ap (λ o. or_first o (first_response test value es)) (own e d)
      ∙ set_once-or_first (is_response e) (test e) (key d) (value e) (first_response test value es)

  counts_lem :
      (t : String) (es : List (AuditEvent N)) (m : Map ℕ)
      → or_default (lookup t (count_events es m)) 0 ≡ or_default (lookup t m) 0 + occurrences t es
  unfolding count_events
  counts_lem t [] m = omega arith
  counts_lem t (e ∷ es) m =
      let m' = insert e.event_type (or_default (lookup e.event_type m) 0 + 1) m in
      let there = lookup-insert e.event_type t (or_default (lookup e.event_type m) 0 + 1) m in
      ground (arith, eq_iff e.event_type t, counts_lem t es m', there)

  counts_anew :
      (t : String) (es : List (AuditEvent N))
      → or_default (lookup t (count_events es [])) 0 ≡ occurrences t es
  unfolding lookup
  counts_anew t es = omega (arith, counts_lem t es [])

  -- Of a request with events, the detail has as response content the first content that is not empty among
  -- its response events, as status code the code of the first of them, as token count the first that is
  -- over 0 and as server the first that is not empty; each is missing only if there is none. The counts
  -- give for each type of event how many there are.
  pub get_request_detail-first :
      (e : AuditEvent N) (es : List (AuditEvent N))
      → (d : RequestDetail N) × (get_request_detail (e ∷ es) ≡ some d)
        × (d.response_content
            ≡ first_response (λ r. not (str_eq r.content "")) (λ r. r.content) (e ∷ es))
        × (d.status_code ≡ first_response (λ r. true) (λ r. r.status_code) (e ∷ es))
        × (d.token_count
            ≡ first_response (λ r. ltb_ℤ (pos 0) r.token_count) (λ r. r.token_count) (e ∷ es))
        × (d.served_by
            ≡ first_response (λ r. not (str_eq r.served_by "")) (λ r. r.served_by) (e ∷ es))
        × ((t : String) → or_default (lookup t d.event_counts) 0 ≡ occurrences t (e ∷ es))
  unfolding get_request_detail with_response
  get_request_detail-first e es = (
    _,
    refl,
    with_responses-field (λ d. d.response_content) (λ r. not (str_eq r.content "")) (λ r. r.content)
        (λ r d. ground arith) (e ∷ es) _,
    with_responses-field (λ d. d.status_code) (λ r. true) (λ r. r.status_code) (λ r d. ground arith)
        (e ∷ es) _,
    with_responses-field (λ d. d.token_count) (λ r. ltb_ℤ (pos 0) r.token_count)
        (λ r. r.token_count) (λ r d. ground arith) (e ∷ es) _,
    with_responses-field (λ d. d.served_by) (λ r. not (str_eq r.served_by "")) (λ r. r.served_by)
        (λ r d. ground arith) (e ∷ es) _,
    λ t. counts_anew t (e ∷ es),
  )

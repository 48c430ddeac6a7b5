-- ===== src/Audit/Middleware.antt =====
-- auditMiddleware of hive-server-go/main.go over LogRequest, LogResponse and GetRequestDetail: what is
-- shown of a request that has been served. The handler behind it is a parameter: the codes that it
-- passes to WriteHeader and the body that it writes.
use text.Mathlib.Text.{starts_with}
use ollama_local_hives_clust.Prelude.{
  ℕ, ◌≡◌, refl, String, Bool, false, ◌||◌, ◌&&◌, not, Option, none, some, List, [], ◌∷◌, arith,
  if◌then◌else◌, str_eq, ℤ, pos, ltb_ℤ,
}
use ollama_local_hives_clust.Jobs.{Fields, no_fields, or_default}
use ollama_local_hives_clust.Audit.{
  AuditEvent, HttpRequest, stamped, text_field, prompt_of, model_of, choice_content, usage_total,
  request_event, response_event,
}
use ollama_local_hives_clust.Audit.Detail.{
  RequestDetail, primary_of, with_response, with_responses, get_request_detail,
}

abbrev pub skipped_paths : List String
skipped_paths =
    "/api/health" ∷ "/api/status" ∷ "/metrics" ∷ "/api/peers" ∷ "/api/peers/health" ∷ "/api/logs"
    ∷ "/api/logs/clear" ∷ "/api/clients" ∷ "/version" ∷ []

abbrev pub skipped_gets : List String
skipped_gets =
    "/api/reports/usage" ∷ "/api/reports/usage/timeseries" ∷ "/api/reports/usage/histogram"
    ∷ "/api/reports/usage/recent" ∷ "/api/ollama/health" ∷ []

abbrev pub any_path : String → List String → Bool
any_path path [] = false
any_path path (p ∷ ps) = str_eq path p || any_path path ps

unfoldable pub is_skipped : HttpRequest → Bool
is_skipped r =
    any_path r.path skipped_paths
    || (starts_with r.path "/static/" || (any_path r.path skipped_gets && str_eq r.method "GET"))

-- auditLogWriter: what WriteHeader is called with last, or 200
abbrev pub last_code : ℤ → List ℤ → ℤ
last_code code [] = code
last_code code (c ∷ cs) = last_code c cs

pub record Served (N : Type 0) : Type 0 where
  pub codes : List ℤ
  pub body : Option (Fields N)
  pub duration_ms : N

-- What the clock and the generator of ids give to the two calls
pub record Draws : Type 0 where
  pub requested_at : ℕ
  pub responded_at : ℕ
  pub generated : String

abbrev pub unless_empty : String → Option String
unless_empty t = if str_eq t "" then none else some t

unless_empty_lem : (t : String) → (if not (str_eq t "") then some t else none) ≡ unless_empty t
unless_empty_lem t = ground arith

module _ {N : Type 0} (zero : N) (to_int : N → ℤ) (server : String) where
  -- The two events that are logged of a request.
  unfoldable pub served_events :
      Draws → HttpRequest → Option (Fields N) → Served N → List (AuditEvent N)
  served_events draws r body served =
      stamped draws.requested_at draws.generated (request_event zero draws.generated r body "")
      ∷ stamped draws.responded_at draws.generated (
          response_event zero to_int server draws.generated (last_code (pos 200) served.codes)
            served.body served.duration_ms)
      ∷ []

  -- The events that serving a request logs, in their order.
  unfoldable pub audit_middleware :
      (HttpRequest → Option (Fields N) → Served N)
      → Draws
      → HttpRequest
      → Option (Fields N)
      → List (AuditEvent N)
  audit_middleware next draws r body =
      if is_skipped r then [] else served_events draws r body (next r body)

  -- The content that LogResponse finds: that of the first choice, else the one at the top, else none.
  abbrev pub content_of : Fields N → String
  content_of fs = or_default (choice_content fs) (or_default (text_field "content" fs) "")

  -- What the detail shows of a request and of what it was answered.
  abbrev pub Shown : HttpRequest → Option (Fields N) → Served N → RequestDetail N → Type 0
  Shown r body served d =
      (d.primary
        ≡ some (record {
          method = r.method;
          path = r.path;
          model = model_of (or_default body no_fields);
          prompt = prompt_of (or_default body no_fields);
          query = or_default (text_field "query" (or_default body no_fields)) "";
          client_id = "";
          job_type = or_default (text_field "job_type" (or_default body no_fields)) "";
          overrides = or_default body no_fields;
        }))
      × (d.status_code ≡ some (last_code (pos 200) served.codes))
      × (d.response_content ≡ unless_empty (content_of (or_default served.body no_fields)))
      × (d.served_by ≡ unless_empty server)
      × (d.token_count ≡ (
          if ltb_ℤ (pos 0) (usage_total to_int (or_default served.body no_fields))
          then some (usage_total to_int (or_default served.body no_fields))
          else none))

  served_events-Shown :
      (draws : Draws) (r : HttpRequest) (body : Option (Fields N)) (served : Served N)
      → (d : RequestDetail N) × (get_request_detail (served_events draws r body served) ≡ some d)
        × Shown r body served d
  unfolding served_events get_request_detail stamped request_event response_event primary_of
      with_responses with_response
  served_events-Shown draws r body served = (
    _,
    refl,
    (
      refl,
      refl,
      unless_empty_lem (content_of (or_default served.body no_fields)),
      unless_empty_lem server,
      refl,
    ),
  )

  -- The detail of a request whose two events were written shows the request as it came in, with the prompt
  -- and the model of its body, and the code, content, token count and server of its response. Content,
  -- count and server are missing if they are empty or not over 0. It assumes that the path is not skipped.
  audit_middleware-get_request_detail :
      (next : HttpRequest → Option (Fields N) → Served N) (draws : Draws) (r : HttpRequest)
      (body : Option (Fields N))
      → is_skipped r ≡ false
      → (d : RequestDetail N) × (get_request_detail (audit_middleware next draws r body) ≡ some d)
        × Shown r body (next r body) d
  unfolding audit_middleware
  audit_middleware-get_request_detail next draws r body audited =
      rw audited (served_events-Shown draws r body (next r body))

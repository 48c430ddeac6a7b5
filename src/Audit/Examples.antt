-- ===== src/Audit/Examples.antt =====
-- The theorems about hive-server-go/audit.go at one request that is served, and two events.
use ollama_local_hives_clust.Prelude.{
  ℕ, ◌≡◌, refl, String, true, ◌||◌, Option, none, some, [], ◌∷◌, ◌++◌, ltb, pos, not, ltb_ℤ, str_eq,
  lookup,
}
use ollama_local_hives_clust.Jobs.{Fields, field, text_value, no_fields, or_default}
use ollama_local_hives_clust.Audit.{AuditEvent, HttpRequest, stamped, error_event, response_event}
use ollama_local_hives_clust.Audit.Flusher.{
  AuditTrailManager, new_audit_trail_manager, append_event, signal, AuditRun, starts, goes, appends,
  signals,
}
use ollama_local_hives_clust.Audit.Trail.{in_hand, events_of, written, AuditRun-Accounted}
use ollama_local_hives_clust.Audit.Waking.{is_empty, is_awake, AuditRun-heard}
use ollama_local_hives_clust.Audit.Detail.{
  RequestDetail, get_request_detail, first_response, occurrences, get_request_detail-first,
}
use ollama_local_hives_clust.Audit.Middleware.{Draws, Served}

abbrev oops : AuditEvent ℕ
unfolding error_event
oops = error_event 0 "r1" "no room" no_fields

abbrev idle_trail : AuditTrailManager ℕ
idle_trail = new_audit_trail_manager []

abbrev appended_trail : AuditTrailManager ℕ
appended_trail = append_event 7 "r2" oops idle_trail

abbrev signalled_trail : AuditTrailManager ℕ
signalled_trail = signal 0 appended_trail

signalled_trail-AuditRun : AuditRun [] signalled_trail (stamped 7 "r2" oops ∷ []) []
unfolding append_event new_audit_trail_manager
signalled_trail-AuditRun =
    goes (goes starts (appends idle_trail 7 "r2" oops)) (signals appended_trail 0 refl)

AuditRun-Accounted_example :
    (stamped 7 "r2" oops ∷ []
      ≡ events_of {N = ℕ} [] ++ (in_hand signalled_trail.flusher ++ signalled_trail.buffer))
    × (signalled_trail.rows ≡ [] ++ written [])
AuditRun-Accounted_example =
    AuditRun-Accounted [] signalled_trail (stamped 7 "r2" oops ∷ []) [] signalled_trail-AuditRun

AuditRun-heard_example :
    is_empty signalled_trail.buffer
      || (signalled_trail.flush_ch
          || (ltb 0 signalled_trail.appended || is_awake signalled_trail.flusher))
    ≡ true
AuditRun-heard_example =
    AuditRun-heard [] signalled_trail (stamped 7 "r2" oops ∷ []) [] signalled_trail-AuditRun

abbrev chat_request : HttpRequest
chat_request = record {
  method = "POST";
  path = "/api/jobs";
  remote_addr = "10.0.0.7";
  user_agent = "curl";
}

abbrev chat_body : Fields ℕ
chat_body = field "prompt" (text_value "hello") no_fields

abbrev answered_event : AuditEvent ℕ
unfolding response_event
answered_event = response_event 0 (λ n. pos n) "hive-1" "r1" (pos 200) none 3

get_request_detail-first_example :
    (d : RequestDetail ℕ) × (get_request_detail (oops ∷ answered_event ∷ []) ≡ some d)
    × (d.response_content
        ≡ first_response
            (λ r. not (str_eq r.content ""))
            (λ r. r.content)
            (oops ∷ answered_event ∷ []))
    × (d.status_code ≡ first_response (λ r. true) (λ r. r.status_code) (oops ∷ answered_event ∷ []))
    × (d.token_count
        ≡ first_response
            (λ r. ltb_ℤ (pos 0) r.token_count)
            (λ r. r.token_count)
            (oops ∷ answered_event ∷ []))
    × (d.served_by
        ≡ first_response
            (λ r. not (str_eq r.served_by ""))
            (λ r. r.served_by)
            (oops ∷ answered_event ∷ []))
    × ((t : String)
        → or_default (lookup t d.event_counts) 0 ≡ occurrences t (oops ∷ answered_event ∷ []))
get_request_detail-first_example = get_request_detail-first oops (answered_event ∷ [])

abbrev accept : HttpRequest → Option (Fields ℕ) → Served ℕ
accept r body = record { codes = pos 202 ∷ []; body = none; duration_ms = 5 }

abbrev draws : Draws
draws = record { requested_at = 100; responded_at = 101; generated = "req_1" }

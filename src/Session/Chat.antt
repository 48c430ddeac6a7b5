-- ===== src/Session/Chat.antt =====
-- The sessions of hive-server-go/coding_agent.go: CreateSession, GetSession, SendMessage,
-- finishMessage, ArchiveSession, DeleteSession and GetContextStats. The cached session is the
-- object that a handler changes, so its fields change in the cache at once, and in its row only by
-- UpdateCodingAgentSession.
use ollama_local_hives_clust.Prelude.{
  ℕ, ◌+◌, String, Bool, false, Option, none, some, List, if◌then◌else◌, ◌≡◌, refl, ◌⊎◌, inl, inr,
  Map, lookup, insert, map,
}
use ollama_local_hives_clust.Context.{ModelContextDetector}
use ollama_local_hives_clust.Session.{
  CodingAgentSession, CodingAgentMessage, DbStore, estimate_tokens, get_coding_agent_messages,
  insert_coding_agent_message, update_coding_agent_session, audit_log,
}
use ollama_local_hives_clust.Session.Compress.{CompressWorld}

pub record CodingAgentManager : Type 0 where
  pub db : DbStore
  pub detector : ModelContextDetector
  pub default_model : String
  pub sessions : Map CodingAgentSession

pub data ChatError : Type 0 where
  session_not_found session_is_archived insert_message_failed build_messages_failed : ChatError
  job_timed_out ollama_call_failed insert_session_failed db_failed : ChatError

pub data Result {ℓ} (A : Type ℓ) : Type ℓ where
  ok : A → Result A
  err : ChatError → Result A

pub Result-cases {ℓ} :
    {A : Type ℓ} (r : Result A) → ((a : A) × (r ≡ ok a)) ⊎ ((e : ChatError) × (r ≡ err e))
Result-cases (ok a) = inl (a, refl)
Result-cases (err e) = inr (e, refl)

-- How the answer is come by: the job is queued and waited for, or the queue is full, and a peer or
-- the local Ollama is called. `none` is an error of that call; no peer is `none` as well.
pub data Answer : Type 0 where
  job_failed job_timeout : Answer
  job_completed : String → Answer
  queue_full : Option String → Option String → Answer

unfoldable pub response_of : Answer → Result String
response_of job_failed = err ollama_call_failed
response_of job_timeout = err job_timed_out
response_of (job_completed text) = ok text
response_of (queue_full (some text) direct) = ok text
response_of (queue_full none (some text)) = ok text
response_of (queue_full none none) = err ollama_call_failed

-- What one call of SendMessage meets outside: ids, times, answers and failures.
pub record SendWorld : Type 0 where
  pub load_fails : Bool
  pub in_id : String
  pub out_id : String
  pub insert_fails : Bool
  pub compress : CompressWorld
  pub build_fails : Bool
  pub answer : List (String × String) → Answer
  pub insert_out_fails : Bool
  pub update_fails : Bool
  pub sent_at : ℕ
  pub replied_at : ℕ

-- GetSession: the cache, then the row, which is cached from then on.
unfoldable pub get_session :
    Bool → String → CodingAgentManager → Option CodingAgentSession × CodingAgentManager
get_session load_fails sid cam = elim (lookup sid cam.sessions) [
  | some s ↦ (some s, cam)
  | none ↦ if load_fails then (none, cam) else elim (lookup sid cam.db.session_rows) [
    | none ↦ (none, cam)
    | some s ↦ (some s, record cam { sessions = insert s.id s cam.sessions })
  ]
]

abbrev pub keep_session : CodingAgentSession → DbStore → CodingAgentManager → CodingAgentManager
keep_session s db cam = record cam { sessions = insert s.id s cam.sessions; db = db }

-- What buildOllamaMessages makes of the rows: role and content.
unfoldable pub build_ollama_messages : CodingAgentSession → DbStore → List (String × String)
unfolding get_coding_agent_messages
build_ollama_messages session db =
    map (λ m. (m.role, m.content)) (get_coding_agent_messages session.id 0 db)

abbrev pub counted : ℕ → CodingAgentSession → CodingAgentSession
counted tokens s = record s {
  total_messages = s.total_messages + 1;
  total_tokens = s.total_tokens + tokens;
}

-- A failure of the insertion is only logged.
unfoldable pub insert_or_keep : Bool → CodingAgentMessage → DbStore → DbStore
unfolding insert_coding_agent_message
insert_or_keep fails msg db = elim (insert_coding_agent_message fails msg db) [
  | none ↦ db
  | some written ↦ written
]

module _ (byte_len : String → ℕ) where
  unfoldable pub message_of : String → String → String → String → String → ℕ → CodingAgentMessage
  unfolding estimate_tokens
  message_of id sid role content metadata now = record {
    id = id;
    session_id = sid;
    role = role;
    content = content;
    token_count = estimate_tokens byte_len content;
    compress_group = 0;
    is_summary = false;
    metadata_json = metadata;
    created_at = now;
  }

  -- A failure of the insertion or of the update is only logged.
  unfoldable pub finish_message :
      SendWorld → String → Bool → CodingAgentSession → DbStore → CodingAgentSession × DbStore
  finish_message w response compressed session db =
      let out = message_of w.out_id session.id "assistant" response "" w.replied_at in
      let db1 = insert_or_keep w.insert_out_fails out db in
      let session1 = record (counted out.token_count session) { updated_at = w.replied_at } in
      let db2 = audit_log session1 "assistant" response out.token_count 0 false w.replied_at db1 in
      let session2 =
        if compressed
        then record session1 { compressions = session1.compressions + 1 }
        else session1 in
      (session2, if w.update_fails then db2 else update_coding_agent_session session2 db2)

-- ===== src/Session.antt =====
-- hive-server-go/coding_agent.go with its tables of hive-server-go/db.go: conversations that are
-- stored, counted in tokens, compressed and archived. The children hold the compression and the
-- handling of one message.
--
-- SQLite is not modelled. A table is the list of its rows in the order of created_at, which every
-- query of it sorts by: a row is inserted with the time of the insertion, so it comes last, as long
-- as the clock does not go back. An insertion fails when its primary key is taken; other failures
-- are arguments of the operations, but for that of an audit entry, which is only logged. The metadata
-- of a session is left out, and the queue and the mesh are seen through the answer to a message.
-- Times are numbers, ids and lengths in bytes are arguments.
pub mod Compress
pub mod Chat
pub mod Service
pub mod Rows
pub mod Stored
pub mod Window
pub mod Tokens
pub mod Refusal
mod Examples
use ollama_local_hives_clust.Prelude.{
  ℕ, ◌+◌, ◌/◌, String, Bool, true, false, Option, none, some, List, [], ◌∷◌, ◌++◌, leb, ltb, ◌==◌,
  if◌then◌else◌, Map, lookup, insert, delete, str_eq, ℤ, take, not,
}

pub data SessionStatus : Type 0 where
  session_active session_archived : SessionStatus

abbrev pub is_active : SessionStatus → Bool
is_active session_active = true
is_active session_archived = false

pub record CodingAgentSession : Type 0 where
  pub id : String
  pub agent_type : String
  pub model : String
  pub token_budget : ℤ
  pub status : SessionStatus
  pub system_prompt : String
  pub created_at : ℕ
  pub updated_at : ℕ
  pub total_messages : ℕ
  pub total_tokens : ℕ
  pub compressions : ℕ

pub record CodingAgentMessage : Type 0 where
  pub id : String
  pub session_id : String
  pub role : String
  pub content : String
  pub token_count : ℕ
  pub compress_group : ℕ
  pub is_summary : Bool
  pub metadata_json : String
  pub created_at : ℕ

pub record CodingAgentAuditEntry : Type 0 where
  pub session_id : String
  pub agent_type : String
  pub model : String
  pub role : String
  pub content : String
  pub token_count : ℕ
  pub compress_group : ℕ
  pub is_summary : Bool
  pub created_at : ℕ

pub record DbStore : Type 0 where
  pub session_rows : Map CodingAgentSession
  pub message_rows : List CodingAgentMessage
  pub audit_rows : List CodingAgentAuditEntry

-- len(s) is an argument, as strings are texts here and not bytes.
unfoldable pub estimate_tokens : (String → ℕ) → String → ℕ
estimate_tokens byte_len s =
    if byte_len s == 0 then 0 else if ltb (byte_len s / 4) 1 then 1 else byte_len s / 4

-- SELECT … WHERE session_id = ? ORDER BY created_at ASC, with no limit
unfoldable pub messages_of : String → List CodingAgentMessage → List CodingAgentMessage
messages_of sid [] = []
messages_of sid (m ∷ ms) =
    let rest = messages_of sid ms in if str_eq m.session_id sid then m ∷ rest else rest

unfoldable pub get_coding_agent_messages : String → ℕ → DbStore → List CodingAgentMessage
unfolding messages_of
get_coding_agent_messages sid limit s =
    let all = messages_of sid s.message_rows in if ltb 0 limit then take limit all else all

abbrev pub taken_id : String → List CodingAgentMessage → Bool
taken_id id [] = false
taken_id id (m ∷ ms) = if str_eq m.id id then true else taken_id id ms

unfoldable pub insert_coding_agent_message : Bool → CodingAgentMessage → DbStore → Option DbStore
insert_coding_agent_message fails msg s =
    if fails
    then none
    else if taken_id msg.id s.message_rows
    then none
    else some (record s {
      message_rows =
          s.message_rows
          ++ (record msg {
            metadata_json = if str_eq msg.metadata_json "" then "{}" else msg.metadata_json;
          })
            ∷ [];
    })

unfoldable pub insert_coding_agent_session : CodingAgentSession → DbStore → Option DbStore
insert_coding_agent_session row s = elim (lookup row.id s.session_rows) [
  | some _ ↦ none
  | none ↦ some (record s { session_rows = insert row.id row s.session_rows })
]

-- The columns that UPDATE writes; no row is touched if the id is unknown.
unfoldable pub update_coding_agent_session : CodingAgentSession → DbStore → DbStore
update_coding_agent_session row s = elim (lookup row.id s.session_rows) [
  | none ↦ s
  | some old ↦ record s {
    session_rows =
        insert row.id
          (record old {
            status = row.status;
            total_messages = row.total_messages;
            total_tokens = row.total_tokens;
            compressions = row.compressions;
            updated_at = row.updated_at;
          })
          s.session_rows;
  }
]

unfoldable pub others_messages : String → List CodingAgentMessage → List CodingAgentMessage
others_messages sid [] = []
others_messages sid (m ∷ ms) =
    let rest = others_messages sid ms in if str_eq m.session_id sid then rest else m ∷ rest

unfoldable pub others_entries : String → List CodingAgentAuditEntry → List CodingAgentAuditEntry
others_entries sid [] = []
others_entries sid (m ∷ ms) =
    let rest = others_entries sid ms in if str_eq m.session_id sid then rest else m ∷ rest

unfoldable pub delete_coding_agent_session : String → DbStore → DbStore
unfolding others_messages others_entries
delete_coding_agent_session sid s = record {
  session_rows = delete sid s.session_rows;
  message_rows = others_messages sid s.message_rows;
  audit_rows = others_entries sid s.audit_rows;
}

-- auditLog
unfoldable pub audit_log :
    CodingAgentSession → String → String → ℕ → ℕ → Bool → ℕ → DbStore → DbStore
audit_log session role content tokens group summary now s = record s {
  audit_rows =
      s.audit_rows
      ++ (record {
        session_id = session.id;
        agent_type = session.agent_type;
        model = session.model;
        role = role;
        content = content;
        token_count = tokens;
        compress_group = group;
        is_summary = summary;
        created_at = now;
      })
        ∷ [];
}

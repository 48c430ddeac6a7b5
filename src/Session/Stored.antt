-- ===== src/Session/Stored.antt =====
-- The tokens of the messages that hive-server-go/db.go stores for a session.
use ollama_local_hives_clust.Prelude.{
  ℕ, ◌+◌, ◌≤◌, ◌≡◌, refl, String, Bool, some, List, [], ◌∷◌, ◌++◌, str_eq, inl, inr, arith,
  Option-cases, if◌then◌else◌, lookup,
}
use ollama_local_hives_clust.Session.{
  CodingAgentSession, CodingAgentMessage, DbStore, messages_of, insert_coding_agent_message,
  update_coding_agent_session,
}
use ollama_local_hives_clust.Session.Compress.{sum_tokens}
use ollama_local_hives_clust.Session.Chat.{insert_or_keep}
use ollama_local_hives_clust.Session.Rows.{messages_of-append}

-- The tokens of the stored messages of a session.
abbrev pub stored_tokens : String → DbStore → ℕ
stored_tokens sid db = sum_tokens (messages_of sid db.message_rows)

-- The session's own count is at least that.
abbrev pub Covers : CodingAgentSession → DbStore → Type 0
Covers s db = stored_tokens s.id db ≤ s.total_tokens

pub sum_tokens-append :
    (xs ys : List CodingAgentMessage) → sum_tokens (xs ++ ys) ≡ sum_tokens xs + sum_tokens ys
sum_tokens-append [] ys = omega arith
sum_tokens-append (x ∷ xs) ys = rw (sum_tokens-append xs ys) (omega arith)

pub messages_of-tokens :
    (sid : String) (m : CodingAgentMessage) → sum_tokens (messages_of sid (m ∷ [])) ≤ m.token_count
unfolding messages_of
messages_of-tokens sid m = ground arith

pub insert_coding_agent_message-stored :
    (fails : Bool) (sid : String) (m : CodingAgentMessage) (db db' : DbStore)
    → insert_coding_agent_message fails m db ≡ some db'
    → stored_tokens sid db' ≤ stored_tokens sid db + m.token_count
unfolding insert_coding_agent_message
insert_coding_agent_message-stored fails sid m db db' e =
    let m' : CodingAgentMessage = record m {
      metadata_json = if str_eq m.metadata_json "" then "{}" else m.metadata_json;
    } in
    let rows : db'.message_rows ≡ db.message_rows ++ m' ∷ [] = ground (arith, e) in
    rw (rows, messages_of-append sid db.message_rows (m' ∷ []), sum_tokens-append)
      (ground (arith, messages_of-tokens sid m'))

pub insert_or_keep-stored :
    (fails : Bool) (sid : String) (m : CodingAgentMessage) (db : DbStore)
    → stored_tokens sid (insert_or_keep fails m db) ≤ stored_tokens sid db + m.token_count
unfolding insert_or_keep
insert_or_keep-stored fails sid m db =
    elim (Option-cases (insert_coding_agent_message fails m db)) [
      | inl refused ↦ rw (refused, insert_or_keep) (omega arith)
      | inr (db', e) ↦
          rw (e, insert_or_keep) (insert_coding_agent_message-stored fails sid m db db' e)
    ]

pub update_coding_agent_session-rows :
    (s : CodingAgentSession) (db : DbStore)
    → (update_coding_agent_session s db).message_rows ≡ db.message_rows
unfolding update_coding_agent_session
update_coding_agent_session-rows s db = elim (Option-cases (lookup s.id db.session_rows)) [
  | inl e ↦ rw (e, update_coding_agent_session) refl
  | inr (row, e) ↦ rw (e, update_coding_agent_session) refl
]

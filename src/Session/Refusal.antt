-- ===== src/Session/Refusal.antt =====
-- What hive-server-go/coding_agent.go refuses: messages to an archived session.
use ollama_local_hives_clust.Prelude.{
  ℕ, ◌≡◌, refl, String, Bool, false, some, ℤ, lookup, lookup-insert, eq_refl, inl, inr, Bool-cases,
}
use ollama_local_hives_clust.Session.{CodingAgentSession, is_active, session_archived}
use ollama_local_hives_clust.Session.Chat.{
  CodingAgentManager, SendWorld, get_session, err, session_is_archived,
}
use ollama_local_hives_clust.Session.Service.{archive_session, send_message}

pub get_session-cached :
    (load_fails : Bool) (sid : String) (cam : CodingAgentManager) (s : CodingAgentSession)
    → lookup sid cam.sessions ≡ some s
    → get_session load_fails sid cam ≡ (some s, cam)
unfolding get_session
get_session-cached load_fails sid cam s e = rw (e, get_session) refl

module _ (byte_len : String → ℕ) (trunc_str : String → ℕ → String) (threshold : ℤ → ℤ) where
  send_message-archived :
      (w : SendWorld) (sid role content metadata : String) (cam : CodingAgentManager)
      (s : CodingAgentSession)
      → lookup sid cam.sessions ≡ some s
      → is_active s.status ≡ false
      → send_message byte_len trunc_str threshold w sid role content metadata cam
        ≡ (err session_is_archived, cam)
  unfolding send_message
  send_message-archived w sid role content metadata cam s held off =
      let cached = get_session-cached w.load_fails sid cam s held in
      rw (cached, off, send_message, cached) refl

  archive_session-kept :
      (load_fails update_fails : Bool) (sid : String) (now : ℕ) (cam : CodingAgentManager)
      (s : CodingAgentSession)
      → (get_session load_fails sid cam).0 ≡ some s
      → s.id ≡ sid
      → lookup sid
          (archive_session byte_len trunc_str threshold load_fails update_fails sid now
            cam).1.sessions
        ≡ some (record s { status = session_archived; updated_at = now })
  unfolding archive_session
  archive_session-kept load_fails update_fails sid now cam s found same =
      elim (Bool-cases update_fails) [
        | inl e ↦ rw (found, e, archive_session, same, lookup-insert, eq_refl sid) refl
        | inr e ↦ rw (found, e, archive_session, same, lookup-insert, eq_refl sid) refl
      ]

  -- Once ArchiveSession has found a session, even if it could not write the session's row, every
  -- SendMessage to that session is refused as archived and leaves the manager as it is.
  pub send_message-archive_session :
      (w : SendWorld) (load_fails update_fails : Bool) (sid role content metadata : String)
      (now : ℕ) (cam : CodingAgentManager) (s : CodingAgentSession)
      → (get_session load_fails sid cam).0 ≡ some s
      → s.id ≡ sid
      → let after =
          (archive_session byte_len trunc_str threshold load_fails update_fails sid now cam).1 in
        send_message byte_len trunc_str threshold w sid role content metadata after
        ≡ (err session_is_archived, after)
  send_message-archive_session w load_fails update_fails sid role content metadata now cam s found
        same =
      send_message-archived w sid role content metadata
        (archive_session byte_len trunc_str threshold load_fails update_fails sid now cam).1
        (record s { status = session_archived; updated_at = now })
        (archive_session-kept load_fails update_fails sid now cam s found same) refl

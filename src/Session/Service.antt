-- ===== src/Session/Service.antt =====
-- The operations of CodingAgentManager in hive-server-go/coding_agent.go on the whole manager.
use ollama_local_hives_clust.Prelude.{
  ℕ, String, Bool, false, none, some, if◌then◌else◌, delete, str_eq, ℤ,
}
use ollama_local_hives_clust.Context.{
  ShowReply, detect_context_window, get_context_budget_for_model,
}
use ollama_local_hives_clust.Session.{
  session_active, session_archived, is_active, CodingAgentSession, DbStore,
  insert_coding_agent_message, insert_coding_agent_session, update_coding_agent_session,
  delete_coding_agent_session, audit_log,
}
use ollama_local_hives_clust.Session.Compress.{maybe_compress}
use ollama_local_hives_clust.Session.Chat.{
  CodingAgentManager, session_not_found, session_is_archived, insert_message_failed,
  build_messages_failed, insert_session_failed, db_failed, Result, ok, err, SendWorld, response_of,
  get_session, keep_session, build_ollama_messages, counted, message_of, insert_or_keep,
  finish_message,
}

-- What a handler leaves: its answer and the manager.
abbrev pub Outcome : Type 0 → Type 0
Outcome A = Result A × CodingAgentManager

module _ (byte_len : String → ℕ) (trunc_str : String → ℕ → String) (threshold : ℤ → ℤ) where
  -- From the answer on.
  unfoldable pub reply_step :
      SendWorld → Bool → CodingAgentSession → DbStore → CodingAgentManager → Outcome String
  reply_step w compressed session db cam =
      if w.build_fails
      then (err build_messages_failed, keep_session session db cam)
      else elim (response_of (w.answer (build_ollama_messages session db))) [
        | err e ↦ (err e, keep_session session db cam)
        | ok text ↦
            let r = finish_message byte_len w text compressed session db in
            (ok text, keep_session r.0 r.1 cam)
      ]

  -- From the insertion of the incoming message on.
  unfoldable pub accept_message :
      SendWorld
      → String
      → String
      → String
      → CodingAgentSession
      → CodingAgentManager
      → Outcome String
  accept_message w role content metadata session cam =
      let incoming = message_of byte_len w.in_id session.id role content metadata w.sent_at in
      elim (insert_coding_agent_message w.insert_fails incoming cam.db) [
        | none ↦ (err insert_message_failed, cam)
        | some db1 ↦
            let session1 = counted incoming.token_count session in
            let db2 = audit_log session1 role content incoming.token_count 0 false w.sent_at db1 in
            let c = maybe_compress byte_len trunc_str w.compress threshold session1 db2 in
            reply_step w c.0 c.1.0 c.1.1 cam
      ]

  unfoldable pub send_message :
      SendWorld → String → String → String → String → CodingAgentManager → Outcome String
  send_message w sid role content metadata cam =
      let found = get_session w.load_fails sid cam in
      elim found.0 [
        | none ↦ (err session_not_found, found.1)
        | some session ↦
            if is_active session.status
            then accept_message w role content metadata session found.1
            else (err session_is_archived, found.1)
      ]

  -- The system prompt becomes the first message; a failed insertion is logged, and counted.
  unfoldable pub with_system_prompt :
      Bool → String → ℕ → CodingAgentSession → DbStore → CodingAgentSession × DbStore
  with_system_prompt insert_fails id now session db =
      if str_eq session.system_prompt ""
      then (session, db)
      else let msg = message_of byte_len id session.id "system" session.system_prompt "" now in
        (counted msg.token_count session, insert_or_keep insert_fails msg db)

  abbrev pub new_session : String → String → String → String → ℤ → ℕ → CodingAgentSession
  new_session id agent_type model prompt budget now = record {
    id = id;
    agent_type = agent_type;
    model = model;
    token_budget = budget;
    status = session_active;
    system_prompt = prompt;
    created_at = now;
    updated_at = now;
    total_messages = 0;
    total_tokens = 0;
    compressions = 0;
  }

  module _ (to_lower : String → String) (eighty_percent : ℤ → ℤ) where
    unfoldable pub create_session :
        (String → ShowReply)
        → Bool
        → Bool
        → String
        → String
        → String
        → String
        → String
        → ℤ
        → ℕ
        → CodingAgentManager
        → Outcome CodingAgentSession
    unfolding detect_context_window get_context_budget_for_model insert_coding_agent_session
        with_system_prompt
    create_session post session_fails prompt_fails id msg_id agent_type asked prompt budget now
          cam =
        let model = if str_eq asked "" then cam.default_model else asked in
        let seen = detect_context_window to_lower post model cam.detector in
        let b = get_context_budget_for_model to_lower eighty_percent post model budget seen.1 in
        let fresh = new_session id agent_type model prompt b.0 now in
        elim (insert_coding_agent_session fresh cam.db) [
          | none ↦ (err insert_session_failed, record cam { detector = b.1 })
          | some db ↦
              if session_fails
              then (err insert_session_failed, record cam { detector = b.1 })
              else let r = with_system_prompt prompt_fails msg_id now fresh db in
                (ok r.0, keep_session r.0 r.1 (record cam { detector = b.1 }))
        ]

  -- The result of the UPDATE is the handler's; the cached session is archived either way.
  unfoldable pub archive_session : Bool → Bool → String → ℕ → CodingAgentManager → Outcome Unit
  archive_session load_fails update_fails sid now cam =
      let found = get_session load_fails sid cam in
      elim found.0 [
        | none ↦ (err session_not_found, found.1)
        | some s ↦
            let s1 = record s { status = session_archived; updated_at = now } in
            if update_fails
            then (err db_failed, keep_session s1 found.1.db found.1)
            else (ok tt, keep_session s1 (update_coding_agent_session s1 found.1.db) found.1)
      ]

  unfoldable pub delete_session : Bool → String → CodingAgentManager → Outcome Unit
  unfolding delete_coding_agent_session
  delete_session write_fails sid cam =
      let cam1 = record cam { sessions = delete sid cam.sessions } in
      if write_fails
      then (err db_failed, cam1)
      else (ok tt, record cam1 { db = delete_coding_agent_session sid cam1.db })

-- ===== src/Session/Tokens.antt =====
-- The count of tokens that hive-server-go/coding_agent.go keeps for a session, against its messages.
use ollama_local_hives_clust.Session.Stored.{
  stored_tokens, Covers, insert_coding_agent_message-stored, insert_or_keep-stored,
  update_coding_agent_session-rows,
}
use ollama_local_hives_clust.Prelude.{
  ℕ, ◌+◌, ◌≤◌, ◌≡◌, refl, String, Bool, false, some, List, str_eq, eq_refl, ◌∙◌, inl, inr, arith,
  Bool-cases, Option-cases, ℤ, lookup, lookup-insert, ltb_ℤ, pos, leb, length, drop, take, ◌-◌,
}
use ollama_local_hives_clust.Session.{
  CodingAgentSession, CodingAgentMessage, DbStore, get_coding_agent_messages,
  insert_coding_agent_message, audit_log, is_active,
}
use ollama_local_hives_clust.Session.Compress.{
  CompressWorld, recount, compress_coding_agent_messages, compress_split, compress_context,
  maybe_compress, split_index, group_at,
}
use ollama_local_hives_clust.Session.Chat.{
  CodingAgentManager, SendWorld, keep_session, message_of, counted, insert_or_keep, finish_message,
  build_ollama_messages, response_of, Result-cases,
}
use ollama_local_hives_clust.Session.Service.{reply_step, accept_message, send_message}
use ollama_local_hives_clust.Session.Refusal.{get_session-cached}

module _ (byte_len : String → ℕ) (trunc_str : String → ℕ → String) where
  abbrev CoversLike : CodingAgentSession → CodingAgentSession × DbStore → Type 0
  CoversLike s r = (r.0.id ≡ s.id) × Covers r.0 r.1

  recount-Covers :
      (w : CompressWorld) (session : CodingAgentSession) (content : String) (group : ℕ)
      (s : DbStore)
      → w.recount_fails ≡ false
      → CoversLike session (recount byte_len trunc_str w session content group s)
  unfolding recount audit_log get_coding_agent_messages
  recount-Covers w session content group s r = (ground arith, ground arith)

  compress_split-Covers :
      (w : CompressWorld) (msgs : List CodingAgentMessage) (split : ℕ)
      (session : CodingAgentSession) (s : DbStore)
      → w.recount_fails ≡ false
      → Covers session s
      → CoversLike session (compress_split byte_len trunc_str w msgs split session s).1
  unfolding compress_split
  compress_split-Covers w msgs split session s r c = elim (Bool-cases (leb (length msgs) 8)) [
    | inl few ↦ rw (few, compress_split) (refl, c)
    | inr many ↦ elim (Bool-cases (leb split 1)) [
      | inl first ↦ rw (many, first, compress_split) (refl, c)
      | inr later ↦ elim (Option-cases (w.summary (drop 1 (take split msgs)))) [
        | inl silent ↦ rw (many, later, silent, compress_split) (refl, c)
        | inr (content, said) ↦ elim (Bool-cases (str_eq content "")) [
          | inl empty ↦ rw (many, later, said, empty, compress_split) (refl, c)
          | inr text ↦
              let group = group_at (split - 1) msgs + 1 in
              elim (Option-cases (
                compress_coding_agent_messages byte_len w.write_fails w.summary_id session.id split
                  content group w.now s)) [
                    | inl failed ↦ rw (many, later, said, text, failed, compress_split) (refl, c)
                    | inr (s', done) ↦
                        rw (many, later, said, text, done, compress_split)
                          (recount-Covers w session content group s' r)
                  ]
        ]
      ]
    ]
  ]

  maybe_compress-Covers :
      (w : CompressWorld) (threshold : ℤ → ℤ) (session : CodingAgentSession) (s : DbStore)
      → w.recount_fails ≡ false
      → Covers session s
      → CoversLike session (maybe_compress byte_len trunc_str w threshold session s).1
  unfolding maybe_compress compress_context
  maybe_compress-Covers w threshold session s r c =
      elim (Bool-cases (ltb_ℤ (threshold session.token_budget) (pos session.total_tokens))) [
        | inr small ↦ rw (small, maybe_compress) (refl, c)
        | inl large ↦ elim (Bool-cases w.query_fails) [
          | inl failed ↦ simp (large, failed) (refl, c)
          | inr read ↦
              simp (large, read)
                (compress_split-Covers w (get_coding_agent_messages session.id 0 s)
                  (split_index (get_coding_agent_messages session.id 0 s)) session s r c)
        ]
      ]

  finish_message-Covers :
      (w : SendWorld) (response : String) (compressed : Bool) (session : CodingAgentSession)
      (db : DbStore)
      → Covers session db
      → CoversLike session (finish_message byte_len w response compressed session db)
  unfolding finish_message audit_log
  finish_message-Covers w response compressed session db c =
      let out = message_of byte_len w.out_id session.id "assistant" response "" w.replied_at in
      let kept : stored_tokens session.id (insert_or_keep w.insert_out_fails out db)
          ≤ session.total_tokens + out.token_count =
        ground (arith, c, insert_or_keep-stored w.insert_out_fails session.id out db) in
      elim (Bool-cases compressed) [
        | inl e ↦ elim (Bool-cases w.update_fails) [
          | inl f ↦ simp (e, f) (refl, kept)
          | inr f ↦ simp (e, f, update_coding_agent_session-rows) (refl, kept)
        ]
        | inr e ↦ elim (Bool-cases w.update_fails) [
          | inl f ↦ simp (e, f) (refl, kept)
          | inr f ↦ simp (e, f, update_coding_agent_session-rows) (refl, kept)
        ]
      ]

  -- The session is cached under its id, and its count covers its messages.
  abbrev pub Covered : String → CodingAgentManager → Type 0
  Covered sid cam =
      (s : CodingAgentSession) × (lookup sid cam.sessions ≡ some s)
      × ((s.id ≡ sid) × Covers s cam.db)

  keep_session-Covered :
      (sid : String) (s : CodingAgentSession) (db : DbStore) (cam : CodingAgentManager)
      → s.id ≡ sid
      → Covers s db
      → Covered sid (keep_session s db cam)
  keep_session-Covered sid s db cam same c =
      (s, rw (same, lookup-insert, eq_refl sid) refl, (same, c))

  reply_step-Covered :
      (threshold : ℤ → ℤ) (w : SendWorld) (sid : String) (compressed : Bool)
      (session : CodingAgentSession) (db : DbStore) (cam : CodingAgentManager)
      → session.id ≡ sid
      → Covers session db
      → Covered sid (reply_step byte_len trunc_str threshold w compressed session db cam).1
  unfolding reply_step
  reply_step-Covered threshold w sid compressed session db cam same c =
      elim (Bool-cases w.build_fails) [
        | inl failed ↦ simp failed (keep_session-Covered sid session db cam same c)
        | inr built ↦
            elim (Result-cases (response_of (w.answer (build_ollama_messages session db)))) [
              | inr (e, refused) ↦
                  simp (built, refused) (keep_session-Covered sid session db cam same c)
              | inl (text, said) ↦
                  let f = finish_message-Covers w text compressed session db c in
                  let r = finish_message byte_len w text compressed session db in
                  simp (built, said) (keep_session-Covered sid r.0 r.1 cam (f.0 ∙ same) f.1)
            ]
      ]

  accept_message-Covered :
      (threshold : ℤ → ℤ) (w : SendWorld) (sid role content metadata : String)
      (session : CodingAgentSession) (cam : CodingAgentManager)
      → w.compress.recount_fails ≡ false
      → lookup sid cam.sessions ≡ some session
      → session.id ≡ sid
      → Covers session cam.db
      → Covered sid
          (accept_message byte_len trunc_str threshold w role content metadata session cam).1
  unfolding accept_message audit_log message_of
  accept_message-Covered threshold w sid role content metadata session cam r held same c =
      let incoming = message_of byte_len w.in_id session.id role content metadata w.sent_at in
      elim (Option-cases (insert_coding_agent_message w.insert_fails incoming cam.db)) [
        | inl refused ↦ rw (refused, accept_message) (session, held, (same, c))
        | inr (db1, written) ↦
            let session1 = counted incoming.token_count session in
            let db2 = audit_log session1 role content incoming.token_count 0 false w.sent_at db1 in
            let more =
              insert_coding_agent_message-stored w.insert_fails session.id incoming cam.db db1
                written in
            let covers : Covers session1 db2 = ground (arith, c, more) in
            let m = maybe_compress-Covers w.compress threshold session1 db2 r covers in
            let after = maybe_compress byte_len trunc_str w.compress threshold session1 db2 in
            rw (written, accept_message)
              (reply_step-Covered threshold w sid after.0 after.1.0 after.1.1 cam (m.0 ∙ same) m.1)
      ]

  -- The count of a cached session covers its stored messages after SendMessage if it did before,
  -- whatever the answer is, as long as the query that follows a compression works.
  pub send_message-Covered :
      (threshold : ℤ → ℤ) (w : SendWorld) (sid role content metadata : String)
      (cam : CodingAgentManager)
      → w.compress.recount_fails ≡ false
      → Covered sid cam
      → Covered sid (send_message byte_len trunc_str threshold w sid role content metadata cam).1
  unfolding send_message
  send_message-Covered threshold w sid role content metadata cam r (s, held, (same, c)) =
      elim (Bool-cases (is_active s.status)) [
        | inl active ↦
            rw
              (
                get_session-cached w.load_fails sid cam s held,
                active,
                send_message,
                get_session-cached w.load_fails sid cam s held,
              )
              (accept_message-Covered threshold w sid role content metadata s cam r held same c)
        | inr archived ↦
            rw
              (
                get_session-cached w.load_fails sid cam s held,
                archived,
                send_message,
                get_session-cached w.load_fails sid cam s held,
              )
              (s, held, (same, c))
      ]

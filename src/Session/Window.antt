-- ===== src/Session/Window.antt =====
-- Which messages compressContext of hive-server-go/coding_agent.go replaces by a summary.
use ollama_local_hives_clust.Prelude.{
  ℕ, ◌+◌, ◌-◌, ◌≤◌, ◌<◌, ◌≡◌, refl, String, true, false, some, List, [], ◌∷◌, ◌++◌, str_eq, length,
  take, drop, All, inl, inr, arith, Bool-cases, leb, lt→leb_false, min, length-append,
  take-append_le, take_all,
}
use ollama_local_hives_clust.Session.{
  CodingAgentSession, CodingAgentMessage, DbStore, messages_of, get_coding_agent_messages,
  audit_log, taken_id,
}
use ollama_local_hives_clust.Session.Rows.{
  DistinctIds, messages_of-delete_all, messages_of-append, delete_all-front, taken_id-delete_all,
  messages_of-own,
}
use ollama_local_hives_clust.Session.Compress.{
  CompressWorld, is_original, split_from, split_index, delete_all, summary_message,
  compress_coding_agent_messages, compress_split, compress_context, recount, group_at,
}

-- No message but the one at the front is the original system prompt.
abbrev pub Later : CodingAgentMessage → Type 0
Later m = is_original m ≡ false

split_from-Later :
    (i keep split : ℕ) (ms : List CodingAgentMessage)
    → All Later ms
    → keep < 6
    → 6 ≤ keep + length ms
    → split_from i keep split ms ≡ i + (5 - keep)
unfolding split_from
split_from-Later i keep split [] l k h = omega arith
split_from-Later i keep split (m ∷ ms) l k h = elim (Bool-cases (leb 6 (keep + 1))) [
  | inl e ↦ rw (l.0, e, split_from) (ground arith)
  | inr e ↦
      rw (l.0, e, split_from)
        (rw (split_from-Later (i + 1) (keep + 1) split ms l.1 (ground arith) (omega arith))
          (ground arith))
]

split_index-Later :
    (m : CodingAgentMessage) (ms : List CodingAgentMessage)
    → is_original m ≡ true
    → All Later ms
    → 6 ≤ length ms
    → split_index (m ∷ ms) ≡ 6
unfolding split_index split_from
split_index-Later m ms o l h =
    rw (o, split_index, split_from, split_from-Later 1 0 1 ms l (omega arith) (omega arith)) refl

take-front :
    (h : CodingAgentMessage) (xs ys : List CodingAgentMessage)
    → length xs ≡ 5
    → drop 1 (take 6 (h ∷ xs ++ ys)) ≡ xs
take-front h xs ys l = rw (take-append_le 5 xs ys (omega arith), take_all 5 xs (omega arith)) refl

-- The session's messages after the transaction at index 6, by the messages before.
compress_coding_agent_messages-front :
    (byte_len : String → ℕ) (id sid content : String) (group now : ℕ) (s : DbStore)
    (h : CodingAgentMessage) (xs ys : List CodingAgentMessage)
    → messages_of sid s.message_rows ≡ h ∷ xs ++ ys
    → length xs ≡ 5
    → taken_id id s.message_rows ≡ false
    → compress_coding_agent_messages byte_len false id sid 6 content group now s
      ≡ some (record s {
        message_rows =
            delete_all xs s.message_rows ++ summary_message byte_len id sid content group now ∷ [];
      })
unfolding compress_coding_agent_messages
compress_coding_agent_messages-front byte_len id sid content group now s h xs ys e l t =
    let whole : min 6 (length (h ∷ xs ++ ys)) ≡ 6 = rw (length-append xs ys, l) (omega arith) in
    rw
      (
        compress_coding_agent_messages,
        e,
        whole,
        take-front h xs ys l,
        taken_id-delete_all id xs s.message_rows t,
      )
      refl

compressed-front :
    (byte_len : String → ℕ) (id sid content : String) (group now : ℕ) (h : CodingAgentMessage)
    (xs ys rows : List CodingAgentMessage)
    → messages_of sid rows ≡ h ∷ xs ++ ys
    → DistinctIds (h ∷ xs ++ ys)
    → messages_of sid (delete_all xs rows ++ summary_message byte_len id sid content group now ∷ [])
      ≡ h ∷ ys ++ summary_message byte_len id sid content group now ∷ []
unfolding summary_message
compressed-front byte_len id sid content group now h xs ys rows e d =
    rw
      (
        messages_of-append sid (delete_all xs rows)
            (summary_message byte_len id sid content group now ∷ []),
        messages_of-delete_all sid xs rows,
        e,
        delete_all-front h xs ys d,
        messages_of-own sid (summary_message byte_len id sid content group now) refl,
      )
      refl

module _ (byte_len : String → ℕ) (trunc_str : String → ℕ → String) (w : CompressWorld) where
  -- The database works, the summary is not empty, and its row's id is free.
  abbrev pub Works : String → List CodingAgentMessage → DbStore → Type 0
  Works content xs s =
      (w.query_fails ≡ false)
      × ((w.write_fails ≡ false)
          × ((w.summary xs ≡ some content)
              × ((str_eq content "" ≡ false) × (taken_id w.summary_id s.message_rows ≡ false))))

  compress_split-front :
      (session : CodingAgentSession) (s : DbStore) (content : String) (h : CodingAgentMessage)
      (xs ys : List CodingAgentMessage)
      → messages_of session.id s.message_rows ≡ h ∷ xs ++ ys
      → length xs ≡ 5
      → 3 ≤ length ys
      → Works content xs s
      → let group = group_at 5 (h ∷ xs ++ ys) + 1 in
        compress_split byte_len trunc_str w (h ∷ xs ++ ys) 6 session s ≡ (
          true,
          recount byte_len trunc_str w session content group (record s {
            message_rows =
                delete_all xs s.message_rows
                ++ summary_message byte_len w.summary_id session.id content group w.now ∷ [];
          }),
        )
  unfolding compress_split recount
  compress_split-front session s content h xs ys e l3 l works =
      let long : leb (length (h ∷ xs ++ ys)) 8 ≡ false =
        lt→leb_false 8 (length (h ∷ xs ++ ys)) (rw (length-append xs ys, l3) (omega arith)) in
      rw
        (
          compress_split,
          long,
          take-front h xs ys l3,
          works.1.1.0,
          works.1.1.1.0,
          works.1.0,
          compress_coding_agent_messages-front byte_len w.summary_id session.id content
              (group_at 5 (h ∷ xs ++ ys) + 1) w.now s h xs ys e l3 works.1.1.1.1,
        )
        refl

  compress_context-queried :
      (session : CodingAgentSession) (s : DbStore)
      → w.query_fails ≡ false
      → compress_context byte_len trunc_str w session s
        ≡ compress_split byte_len trunc_str w
            (messages_of session.id s.message_rows)
            (split_index (messages_of session.id s.message_rows))
            session
            s
  unfolding compress_context get_coding_agent_messages
  compress_context-queried session s q = ground (arith, q)

  recount-messages :
      (session : CodingAgentSession) (content : String) (group : ℕ) (s : DbStore)
      → get_coding_agent_messages session.id 0
          (recount byte_len trunc_str w session content group s).1
        ≡ messages_of session.id s.message_rows
  unfolding recount audit_log get_coding_agent_messages
  recount-messages session content group s = refl

  -- A session that starts with its system prompt, has no other prompt, and holds at least eight
  -- messages after it: compressing replaces exactly the five oldest of these by the summary, however
  -- many there are, and the summary stands last, behind the messages that are newer than what it
  -- sums up. It assumes distinct ids, a database that works, a summary that is not empty, and a
  -- free id for it.
  pub compress_context-front :
      (session : CodingAgentSession) (s : DbStore) (content : String) (h : CodingAgentMessage)
      (xs ys : List CodingAgentMessage)
      → messages_of session.id s.message_rows ≡ h ∷ xs ++ ys
      → length xs ≡ 5
      → 3 ≤ length ys
      → is_original h ≡ true
      → All Later (xs ++ ys)
      → DistinctIds (h ∷ xs ++ ys)
      → Works content xs s
      → let r = compress_context byte_len trunc_str w session s in
        (r.0 ≡ true)
        × (get_coding_agent_messages session.id 0 r.1.1
            ≡ h ∷ ys
              ++ summary_message byte_len w.summary_id session.id content
                  (group_at 5 (h ∷ xs ++ ys) + 1)
                  w.now
                ∷ [])
  compress_context-front session s content h xs ys e l3 l o later d works =
      let enough : 6 ≤ length (xs ++ ys) = rw (length-append xs ys, l3) (omega arith) in
      let split = split_index-Later h (xs ++ ys) o later enough in
      rw
        (
          compress_context-queried session s works.0,
          e,
          split,
          compress_split-front session s content h xs ys e l3 l works,
        )
        (
          refl,
          rw
              (
                recount-messages,
                compressed-front byte_len w.summary_id session.id content
                    (group_at 5 (h ∷ xs ++ ys) + 1) w.now h xs ys s.message_rows e d,
              )
              refl,
        )

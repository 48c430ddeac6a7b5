-- ===== src/Session/Compress.antt =====
-- maybeCompress and compressContext of hive-server-go/coding_agent.go, with
-- CompressCodingAgentMessages of hive-server-go/db.go.
use Prim.Native.String
use ollama_local_hives_clust.Prelude.{
  ℕ, ◌+◌, ◌-◌, String, Bool, true, false, not, Option, none, some, List, [], ◌∷◌, ◌++◌, leb,
  if◌then◌else◌, str_eq, ℤ, pos, ltb_ℤ, length, take, drop, get_elem?, min,
}
use ollama_local_hives_clust.Session.{
  CodingAgentSession, CodingAgentMessage, DbStore, estimate_tokens, messages_of, taken_id,
  get_coding_agent_messages, audit_log,
}

abbrev pub recent_message_keep : ℕ
recent_message_keep = 6

abbrev pub is_original : CodingAgentMessage → Bool
is_original m = if str_eq m.role "system" then not m.is_summary else false

-- The loop over the messages, at index i, with keepCount and splitIdx.
unfoldable pub split_from : ℕ → ℕ → ℕ → List CodingAgentMessage → ℕ
split_from i keep split [] = split
split_from i keep split (m ∷ ms) = elim (is_original m) [
  | true ↦ split_from (i + 1) keep (i + 1) ms
  | false ↦ elim (leb recent_message_keep (keep + 1)) [
    | true ↦ i
    | false ↦ split_from (i + 1) (keep + 1) split ms
  ]
]

unfoldable pub split_index : List CodingAgentMessage → ℕ
unfolding split_from
split_index ms = split_from 0 0 0 ms

-- DELETE FROM coding_agent_messages WHERE id = ?
unfoldable pub delete_id : String → List CodingAgentMessage → List CodingAgentMessage
delete_id id [] = []
delete_id id (m ∷ ms) = let rest = delete_id id ms in if str_eq m.id id then rest else m ∷ rest

-- for i := 1; i < splitIdx; i++, over msgs[1:splitIdx]
unfoldable pub delete_all :
    List CodingAgentMessage → List CodingAgentMessage → List CodingAgentMessage
unfolding delete_id
delete_all [] rows = rows
delete_all (m ∷ ms) rows = delete_all ms (delete_id m.id rows)

unfoldable pub summary_message :
    (String → ℕ) → String → String → String → ℕ → ℕ → CodingAgentMessage
unfolding estimate_tokens
summary_message byte_len id sid content group now = record {
  id = id;
  session_id = sid;
  role = "system";
  content = content;
  token_count = estimate_tokens byte_len content;
  compress_group = group;
  is_summary = true;
  metadata_json = "{\"type\":\"context_summary\"}";
  created_at = now;
}

-- The transaction: all deletions and the insertion, or no change. The error is `none`.
unfoldable pub compress_coding_agent_messages :
    (String → ℕ) → Bool → String → String → ℕ → String → ℕ → ℕ → DbStore → Option DbStore
unfolding delete_all messages_of
compress_coding_agent_messages byte_len fails id sid split content group now s =
    let msgs = messages_of sid s.message_rows in
    let stop = min split (length msgs) in
    if leb stop 1
    then some s
    else if fails
    then none
    else let left = delete_all (drop 1 (take stop msgs)) s.message_rows in
      if taken_id id left
      then none
      else some (record s {
        message_rows = left ++ summary_message byte_len id sid content group now ∷ [];
      })

abbrev pub group_at : ℕ → List CodingAgentMessage → ℕ
group_at i ms = elim (get_elem? ms i) [ none ↦ 0 | some m ↦ m.compress_group ]

abbrev pub sum_tokens : List CodingAgentMessage → ℕ
sum_tokens [] = 0
sum_tokens (m ∷ ms) = m.token_count + sum_tokens ms

-- What the world answers while a context is compressed: whether each query of the database works,
-- the summary that the model writes (`none` when the request or its decoding fails), the new row's
-- id and the time.
pub record CompressWorld : Type 0 where
  pub query_fails : Bool
  pub summary : List CodingAgentMessage → Option String
  pub write_fails : Bool
  pub recount_fails : Bool
  pub summary_id : String
  pub now : ℕ

module _ (byte_len : String → ℕ) (trunc_str : String → ℕ → String) (w : CompressWorld) where
  -- After the transaction: the audit entry and the new count.
  unfoldable pub recount : CodingAgentSession → String → ℕ → DbStore → CodingAgentSession × DbStore
  unfolding get_coding_agent_messages audit_log estimate_tokens
  recount session content group s =
      let s' =
        audit_log session "system" (String.◌++◌ "[Context compressed] " (trunc_str content 500))
          (estimate_tokens byte_len content) group true w.now s in
      (
        if w.recount_fails then session else record session {
          total_tokens = sum_tokens (get_coding_agent_messages session.id 0 s');
        },
        s',
      )

  -- With the messages and the index of the split. The first result is whether there was no error;
  -- msgs[1:splitIdx] is never empty here.
  unfoldable pub compress_split :
      List CodingAgentMessage
      → ℕ
      → CodingAgentSession
      → DbStore
      → Bool × (CodingAgentSession × DbStore)
  compress_split msgs split session s =
      if leb (length msgs) (recent_message_keep + 2)
      then (true, (session, s))
      else if leb split 1
      then (true, (session, s))
      else elim (w.summary (drop 1 (take split msgs))) [
        | none ↦ (false, (session, s))
        | some content ↦
            if str_eq content ""
            then (false, (session, s))
            else elim (compress_coding_agent_messages byte_len w.write_fails w.summary_id session.id
                split content (group_at (split - 1) msgs + 1) w.now s) [
                  | none ↦ (false, (session, s))
                  | some s' ↦ (true, recount session content (group_at (split - 1) msgs + 1) s')
                ]
      ]

  unfoldable pub compress_context :
      CodingAgentSession → DbStore → Bool × (CodingAgentSession × DbStore)
  compress_context session s =
      if w.query_fails
      then (false, (session, s))
      else let msgs = get_coding_agent_messages session.id 0 s in
        compress_split msgs (split_index msgs) session s

  -- The threshold int(float64(budget) * 0.85) is an argument. The first result is `compressed`.
  unfoldable pub maybe_compress :
      (ℤ → ℤ) → CodingAgentSession → DbStore → Bool × (CodingAgentSession × DbStore)
  unfolding compress_context
  maybe_compress threshold session s =
      if ltb_ℤ (threshold session.token_budget) (pos session.total_tokens)
      then (true, (compress_context session s).1)
      else (false, (session, s))

-- ===== src/Session/Examples.antt =====
-- The theorems about hive-server-go/coding_agent.go at a conversation of nine messages.
use ollama_local_hives_clust.Prelude.{
  ℕ, ◌+◌, ◌≡◌, refl, String, true, false, some, List, [], ◌∷◌, ◌++◌, pos, arith, lookup,
}
use ollama_local_hives_clust.Context.{new_model_context_detector}
use ollama_local_hives_clust.Session.{
  CodingAgentSession, CodingAgentMessage, DbStore, session_active, messages_of,
  get_coding_agent_messages,
}
use ollama_local_hives_clust.Session.Compress.{
  CompressWorld, compress_context, summary_message, group_at,
}
use ollama_local_hives_clust.Session.Chat.{
  CodingAgentManager, SendWorld, job_completed, get_session, err, session_is_archived,
}
use ollama_local_hives_clust.Session.Service.{archive_session, send_message}
use ollama_local_hives_clust.Session.Window.{compress_context-front}
use ollama_local_hives_clust.Session.Tokens.{Covered, send_message-Covered}
use ollama_local_hives_clust.Session.Refusal.{send_message-archive_session}

abbrev byte_len : String → ℕ
byte_len _ = 8

abbrev trunc_str : String → ℕ → String
trunc_str s _ = s

abbrev message : String → String → CodingAgentMessage
message id role = record {
  id = id;
  session_id = "ca";
  role = role;
  content = "a text";
  token_count = 2;
  compress_group = 0;
  is_summary = false;
  metadata_json = "{}";
  created_at = 1;
}

abbrev oldest : List CodingAgentMessage
oldest =
    message "1" "user"
    ∷ message "2" "assistant"
    ∷ message "3" "user"
    ∷ message "4" "assistant"
    ∷ message "5" "user"
    ∷ []

abbrev newest : List CodingAgentMessage
newest = message "6" "assistant" ∷ message "7" "user" ∷ message "8" "assistant" ∷ []

abbrev session : CodingAgentSession
session = record {
  id = "ca";
  agent_type = "codex";
  model = "llama3:8b";
  token_budget = pos 10;
  status = session_active;
  system_prompt = "a text";
  created_at = 1;
  updated_at = 1;
  total_messages = 9;
  total_tokens = 18;
  compressions = 0;
}

abbrev store : DbStore
store = record {
  session_rows = ("ca", session) ∷ [];
  message_rows = message "0" "system" ∷ oldest ++ newest;
  audit_rows = [];
}

abbrev compress_world : CompressWorld
compress_world = record {
  query_fails = false;
  summary = λ _. some "a summary";
  write_fails = false;
  recount_fails = false;
  summary_id = "s";
  now = 2;
}

abbrev send_world : SendWorld
send_world = record {
  load_fails = false;
  in_id = "9";
  out_id = "10";
  insert_fails = false;
  compress = compress_world;
  build_fails = false;
  answer = λ _. job_completed "an answer";
  insert_out_fails = false;
  update_fails = false;
  sent_at = 3;
  replied_at = 4;
}

abbrev manager : CodingAgentManager
manager = record {
  db = store;
  detector = new_model_context_detector "";
  default_model = "llama3:8b";
  sessions = ("ca", session) ∷ [];
}

store-messages : messages_of "ca" store.message_rows ≡ message "0" "system" ∷ oldest ++ newest
unfolding messages_of
store-messages = refl

compress_context-front_example :
    let r = compress_context byte_len trunc_str compress_world session store in
    (r.0 ≡ true)
    × (get_coding_agent_messages "ca" 0 r.1.1
        ≡ message "0" "system" ∷ newest
          ++ summary_message byte_len "s" "ca" "a summary"
              (group_at 5 (message "0" "system" ∷ oldest ++ newest) + 1)
              2
            ∷ [])
compress_context-front_example =
    compress_context-front byte_len trunc_str compress_world session store "a summary"
      (message "0" "system") oldest newest store-messages refl (omega arith) refl
      (refl, (refl, (refl, (refl, (refl, (refl, (refl, (refl, tt)))))))) (ground arith)
      (refl, (refl, (refl, (refl, refl))))

manager-found : lookup "ca" manager.sessions ≡ some session
unfolding lookup
manager-found = refl

manager-Covered : Covered byte_len trunc_str "ca" manager
unfolding messages_of
manager-Covered = (session, manager-found, (refl, omega arith))

send_message-Covered_example :
    Covered byte_len trunc_str "ca"
      (send_message byte_len trunc_str (λ b. b) send_world "ca" "user" "a text" "" manager).1
send_message-Covered_example =
    send_message-Covered byte_len trunc_str (λ b. b) send_world "ca" "user" "a text" "" manager refl
      manager-Covered

manager-get_session : (get_session false "ca" manager).0 ≡ some session
unfolding get_session lookup
manager-get_session = refl

send_message-archive_session_example :
    let after = (archive_session byte_len trunc_str (λ b. b) false true "ca" 5 manager).1 in
    send_message byte_len trunc_str (λ b. b) send_world "ca" "user" "a text" "" after
    ≡ (err session_is_archived, after)
send_message-archive_session_example =
    send_message-archive_session byte_len trunc_str (λ b. b) send_world false true "ca" "user"
      "a text" "" 5 manager session manager-get_session refl

-- ===== src/OpenAi/Examples.antt =====
-- The theorems about hive-server-go/openai_compat.go at small requests, registries and streams.
use ollama_local_hives_clust.Prelude.{
  ℕ, ◌≡◌, ◌⊎◌, refl, String, true, false, Option, none, some, List, [], ◌∷◌, ◌++◌, if◌then◌else◌,
  str_eq, pos,
}
use ollama_local_hives_clust.ModelRegistry.{ModelRegistry, new_model_registry, loaded}
use ollama_local_hives_clust.Jobs.{Json, Fields}
use ollama_local_hives_clust.Jobs.Workers.{OllamaQueue, new_ollama_queue}
use ollama_local_hives_clust.Mesh.{LoadOps}
use ollama_local_hives_clust.Session.{CodingAgentAuditEntry}
use ollama_local_hives_clust.OpenAi.{SelectedModel, OpenAiMessage, select_best_model}
use ollama_local_hives_clust.OpenAi.Stream.{
  OpenAiChatRequest, chat_ready, plan_chat, Upstream, content_chunk, done_marker,
  forward_openai_to_peer_streaming, StreamChunk, SseEvent, Encoding, sse_lines, answered,
  handle_openai_stream,
}
use ollama_local_hives_clust.OpenAi.Selection.{Choice, select_best_model-Choice}
use ollama_local_hives_clust.OpenAi.Prompt.{relayed, plan_chat-prompt}
use ollama_local_hives_clust.OpenAi.Ending.{OwnStream, PeerStream, handle_openai_stream-EndsOnce}
use ollama_local_hives_clust.OpenAi.Relay.{forward_openai_to_peer_streaming-sse_lines}
use ollama_local_hives_clust.OpenAi.Listing.{handle_openai_list_models}
use ollama_local_hives_clust.OpenAi.Listed.{owner_in, Distinct}
use ollama_local_hives_clust.OpenAi.Owners.{offers_of, handle_openai_list_models-owners}
use ollama_local_hives_clust.OpenAi.Replay.{
  entries_of, reply_from_session, reply_from_session-oldest,
}

abbrev as_written : String → String
as_written role = role

abbrev local_url : String
local_url = "http://localhost:11434"

-- "llama3:8b" is loaded, and "llama3:70b" is asked for.
abbrev one_model : ModelRegistry
one_model = record new_model_registry {
  local_models =
      (
        "llama3:8b",
        record {
          name = "llama3:8b";
          provider = "ollama";
          node_id = "hive-1";
          endpoint = local_url;
          state = loaded;
          loaded_at = 10;
          last_used = 10;
          ref_count = 0;
          size_bytes = pos 1000;
          context_len = pos 8192;
          family = "llama3";
          quantization = "";
        },
      )
      ∷ [];
}

select_best_model-Choice_example :
    Choice local_url one_model "llama3:70b"
      (select_best_model local_url one_model "llama3:70b" 20).0
unfolding new_model_registry
select_best_model-Choice_example = select_best_model-Choice local_url one_model "llama3:70b" 20 tt

abbrev rules : OpenAiMessage
rules = record { role = "system"; content = "Be brief." }

abbrev question : OpenAiMessage
question = record { role = "user"; content = "Why?" }

abbrev streamed : OpenAiChatRequest
streamed = record { model = "llama3:8b"; messages = rules ∷ question ∷ []; stream = true }

abbrev at_home : String → SelectedModel
at_home model = record { name = model; endpoint = local_url; used_compatible = false }

plan_chat-prompt_example :
    plan_chat as_written at_home local_url "phi3" "POST" (some (some streamed))
    ≡ chat_ready true "llama3:8b"
        (if str_eq local_url "" then local_url else local_url)
        "Be brief."
        (relayed as_written [] ++ relayed as_written (question ∷ []))
plan_chat-prompt_example =
    plan_chat-prompt as_written at_home local_url "phi3" streamed [] (question ∷ []) rules refl tt
      refl

-- Two lines: a word, and the end.
abbrev decode : String → Option StreamChunk
decode line =
    if str_eq line "a"
    then some (record { content = "so"; done = false })
    else if str_eq line "z"
    then some (record { content = ""; done = true })
    else none

abbrev short_lines : Encoding
short_lines = record {
  parse = decode;
  fits = λ l. true;
  json = λ e. "{}";
  failed_text = λ e. e;
  refused_text = λ status body. body;
}

abbrev two_lines : List String
two_lines = "a" ∷ "z" ∷ []

abbrev peer_reply : Option Upstream
peer_reply = some (answered ("data: {}" ∷ []))

handle_openai_stream-EndsOnce_example :
    OwnStream short_lines
      (answered two_lines)
      (handle_openai_stream short_lines true (answered two_lines) peer_reply)
    ⊎ PeerStream short_lines
        (answered two_lines)
        peer_reply
        (handle_openai_stream short_lines true (answered two_lines) peer_reply)
handle_openai_stream-EndsOnce_example =
    handle_openai_stream-EndsOnce short_lines (answered two_lines) peer_reply refl

abbrev two_events : List SseEvent
two_events = content_chunk "so" ∷ done_marker ∷ []

forward_openai_to_peer_streaming-sse_lines_example :
    forward_openai_to_peer_streaming short_lines (answered (sse_lines short_lines two_events))
    ≡ sse_lines short_lines two_events
unfolding sse_lines
forward_openai_to_peer_streaming-sse_lines_example =
    forward_openai_to_peer_streaming-sse_lines short_lines two_events
      (refl, (refl, (refl, (refl, tt))))

abbrev empty_queue : OllamaQueue ℕ
empty_queue = new_ollama_queue 1

abbrev shown : Json ℕ → String
shown v = "a value"

abbrev typed_prompt : String → Option String → Fields ℕ → String
typed_prompt t text payload = t

abbrev whole_loads : LoadOps ℕ
whole_loads = record {
  zero_load = 0;
  one_load = 1;
  div_load = λ a b. a;
  less_load = λ a b. false;
  same_load = λ a b. true;
  of_int = λ i. 0;
}

abbrev no_fetch : String → Option (List String)
no_fetch endpoint = none

handle_openai_list_models-owners_example :
    Distinct
      (handle_openai_list_models whole_loads (some ("llama3:8b" ∷ [])) no_fetch "phi3" 7 none).0
    × ((k : String)
        → owner_in k
            (handle_openai_list_models whole_loads
              (some ("llama3:8b" ∷ []))
              no_fetch
              "phi3"
              7
              none).0
          ≡ owner_in k (offers_of whole_loads (some ("llama3:8b" ∷ [])) no_fetch "phi3" 7 none))
handle_openai_list_models-owners_example =
    handle_openai_list_models-owners whole_loads (some ("llama3:8b" ∷ [])) no_fetch "phi3" 7 none
      (refl, tt)

abbrev entry : String → String → CodingAgentAuditEntry
entry role content = record {
  session_id = "s";
  agent_type = "custom";
  model = "phi3";
  role = role;
  content = content;
  token_count = 1;
  compress_group = 0;
  is_summary = false;
  created_at = 0;
}

-- Two questions and an answer between them are sent; each is answered in turn.
abbrev conversation : List CodingAgentAuditEntry
conversation =
    entry "user" "One?"
    ∷ entry "assistant" "First."
    ∷ entry "assistant" "One."
    ∷ entry "assistant" "Yes."
    ∷ entry "user" "Two?"
    ∷ entry "assistant" "Second."
    ∷ []

reply_from_session-oldest_example : reply_from_session "s" conversation ≡ some "First."
unfolding entries_of
reply_from_session-oldest_example =
    reply_from_session-oldest "s" conversation (entry "user" "One?" ∷ []) []
      (entry "assistant" "One."
        ∷ entry "assistant" "Yes."
        ∷ entry "user" "Two?"
        ∷ entry "assistant" "Second."
        ∷ [])
      (entry "assistant" "First.") refl refl tt refl refl

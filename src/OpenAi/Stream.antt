-- ===== src/OpenAi/Stream.antt =====
-- The streaming replies of hive-server-go/openai_compat.go. A body is the list of its lines: an SSE
-- event is written as one line and an empty one, since encoding/json writes no line break. What JSON
-- decoding makes of a line, how an event is encoded, how errors are worded, and which lines fit the
-- scanner's buffer are arguments, and so are the answers of Ollama and of a peer.
use Prim.Native.String
use ollama_local_hives_clust.Prelude.{
  ℕ, String, Bool, true, false, Option, none, some, List, [], ◌∷◌, if◌then◌else◌, str_eq, ◌==◌,
}
use ollama_local_hives_clust.OpenAi.{OpenAiMessage, SelectedModel, messages_of}

pub record OpenAiChatRequest : Type 0 where
  pub model : String
  pub messages : List OpenAiMessage
  pub stream : Bool

-- How far the handler comes: an error, or what it has at hand when it chooses between a stream and a
-- reply in one piece.
pub data ChatPlan : Type 0 where
  post_required body_unread invalid_json messages_required : ChatPlan
  chat_ready :
      (stream : Bool) (model endpoint system_prompt : String) (conversation : List OpenAiMessage)
      → ChatPlan

-- The handler up to the choice of the mode. `select` is selectBestModel; a body that cannot be read is
-- `none`, and in it one that is no JSON.
unfoldable pub plan_chat :
    (String → String)
    → (String → SelectedModel)
    → String
    → String
    → String
    → Option (Option OpenAiChatRequest)
    → ChatPlan
plan_chat to_lower select ollama_url ollama_model method read =
    if str_eq method "POST"
    then elim read [
      | none ↦ body_unread
      | some decoded ↦ elim decoded [
        | none ↦ invalid_json
        | some req ↦ elim req.messages [
          | [] ↦ messages_required
          | m ∷ ms ↦
              let s = select (if str_eq req.model "" then ollama_model else req.model) in
              let endpoint = if str_eq s.endpoint "" then ollama_url else s.endpoint in
              let x = messages_of to_lower (m ∷ ms) in
              chat_ready req.stream s.name endpoint x.system_prompt x.conversation
        ]
      ]
    ]
    else post_required

pub record StreamChunk : Type 0 where
  pub content : String
  pub done : Bool

-- The events of a stream; the last chunk before the end names a reason.
pub data SseEvent : Type 0 where
  content_chunk : String → SseEvent
  final_chunk : SseEvent
  error_chunk : String → SseEvent
  done_marker : SseEvent

-- Of client.Post and what is read after it
pub data Upstream : Type 0 where
  post_failed : String → Upstream
  refused : ℕ → String → Upstream
  answered : List String → Upstream

pub data StreamReply : Type 0 where
  streaming_not_supported : StreamReply
  sent : List String → StreamReply

pub record Encoding : Type 0 where
  pub parse : String → Option StreamChunk
  pub fits : String → Bool
  pub json : SseEvent → String
  pub failed_text : String → String
  pub refused_text : ℕ → String → String

module _ (c : Encoding) where
  abbrev pub sse_line : SseEvent → String
  sse_line done_marker = "data: [DONE]"
  sse_line e = String.◌++◌ "data: " (c.json e)

  unfoldable pub sse_lines : List SseEvent → List String
  sse_lines [] = []
  sse_lines (e ∷ es) = sse_line e ∷ "" ∷ sse_lines es

  -- scanner.Scan() until the end or a line that is too long
  unfoldable pub scanned : List String → List String
  scanned [] = []
  scanned (l ∷ ls) = let rest = scanned ls in if c.fits l then l ∷ rest else []

  -- writeSSEError
  unfoldable pub sse_error : String → List SseEvent
  sse_error message = error_chunk message ∷ done_marker ∷ []

  -- The loop over the chunks, and what follows it
  unfoldable pub stream_chunks : List String → List SseEvent
  stream_chunks [] = done_marker ∷ []
  stream_chunks (line ∷ lines) =
      let rest = stream_chunks lines in
      if str_eq line "" then rest else elim (c.parse line) as (λ _. List SseEvent) [
        | none ↦ rest
        | some chunk ↦
            if chunk.done
            then final_chunk ∷ done_marker ∷ []
            else if str_eq chunk.content ""
            then rest
            else content_chunk chunk.content ∷ rest
      ]

  -- The loop of forwardOpenAIToPeerStreaming
  unfoldable pub relay_lines : List String → List String
  relay_lines [] = []
  relay_lines (line ∷ lines) =
      let rest = relay_lines lines in if str_eq line "" then rest else line ∷ "" ∷ rest

  unfoldable pub forward_openai_to_peer_streaming : Upstream → List String
  forward_openai_to_peer_streaming (post_failed e) = sse_lines (sse_error (c.failed_text e))
  forward_openai_to_peer_streaming (refused status body) =
      sse_lines (sse_error (c.refused_text status body))
  forward_openai_to_peer_streaming (answered lines) = relay_lines (scanned lines)

  -- With what the peer answers that findPeerWithModel gives, if there is one
  unfoldable pub handle_openai_stream : Bool → Upstream → Option Upstream → StreamReply
  handle_openai_stream false upstream peer = streaming_not_supported
  handle_openai_stream true (post_failed e) peer = sent (sse_lines (sse_error (c.failed_text e)))
  handle_openai_stream true (refused status body) peer =
      let own = sse_lines (sse_error (c.refused_text status body)) in
      sent (
        if status == 404
        then elim peer as (λ _. List String) [
          | none ↦ own
          | some p ↦ forward_openai_to_peer_streaming p
        ]
        else own)
  handle_openai_stream true (answered lines) peer = sent (sse_lines (stream_chunks (scanned lines)))

-- ===== src/OpenAi/Ending.antt =====
-- What a client of a stream of hive-server-go/openai_compat.go sees: the text, and one end.
use Prim.Native.String
use text.Mathlib.TextLemmas.{nil-append}
use ollama_local_hives_clust.Prelude.{
  ◌≡◌, refl, sym, ap, ◌∙◌, String, Bool, true, false, Option, none, some, ℕ, ◌==◌, ==_iff, subst,
  ◌⊎◌, List, [], ◌∷◌, ◌++◌, if◌then◌else◌, str_eq, eq_iff, All, Bool-cases, Option-cases, inl, inr,
}
use ollama_local_hives_clust.OpenAi.Stream.{
  SseEvent, content_chunk, final_chunk, error_chunk, done_marker, Encoding, sse_lines, scanned,
  sse_error, stream_chunks, Upstream, post_failed, refused, answered, sent, handle_openai_stream,
  StreamReply, relay_lines, forward_openai_to_peer_streaming,
}
use ollama_local_hives_clust.OpenAi.Relay.{scanned-All, forward_openai_to_peer_streaming-sse_lines}

abbrev pub is_done_marker : SseEvent → Bool
is_done_marker (content_chunk _) = false
is_done_marker final_chunk = false
is_done_marker (error_chunk _) = false
is_done_marker done_marker = true

-- The events end with the marker, and have it nowhere else.
abbrev pub EndsOnce : List SseEvent → Type 0
EndsOnce events =
    (es : List SseEvent) × (events ≡ es ++ done_marker ∷ [])
    × All (λ e. is_done_marker e ≡ false) es

-- The text that a client puts together.
abbrev pub text_of : List SseEvent → String
text_of [] = ""
text_of (content_chunk t ∷ es) = String.◌++◌ t (text_of es)
text_of (final_chunk ∷ es) = text_of es
text_of (error_chunk _ ∷ es) = text_of es
text_of (done_marker ∷ es) = text_of es

one_more :
    (e : SseEvent) (events : List SseEvent)
    → is_done_marker e ≡ false
    → EndsOnce events
    → EndsOnce (e ∷ events)
one_more e events h (es, same, clear) = (e ∷ es, ap (λ r. e ∷ r) same, (h, clear))

module _ (c : Encoding) where
  -- The contents of the chunks before the first that says it is the last.
  abbrev pub generated : List String → String
  generated [] = ""
  generated (line ∷ lines) = elim (c.parse line) [
    | none ↦ generated lines
    | some chunk ↦ if chunk.done then "" else String.◌++◌ chunk.content (generated lines)
  ]

  abbrev Streams : List String → List SseEvent → Type 0
  Streams lines events = EndsOnce events × (text_of events ≡ generated lines)

  stream_chunks-Streams :
      (lines : List String) → c.parse "" ≡ none → Streams lines (stream_chunks c lines)
  unfolding stream_chunks
  stream_chunks-Streams [] blank = (([], refl, tt), refl)
  stream_chunks-Streams (line ∷ lines) blank =
      let (ends, text) = stream_chunks-Streams lines blank in
      elim (Bool-cases (str_eq line "")) [
        | inl empty ↦
            let unread : c.parse line ≡ none = ap c.parse ((eq_iff line "").0 empty) ∙ blank in
            rw (empty, unread, generated) (ends, text)
        | inr full ↦ elim (Option-cases (c.parse line)) [
          | inl unread ↦ rw (full, unread, generated) (ends, text)
          | inr (chunk, read) ↦ elim (Bool-cases chunk.done) [
            | inl last ↦
                rw (full, read, generated) (simp last ((final_chunk ∷ [], refl, (refl, tt)), refl))
            | inr more ↦ elim (Bool-cases (str_eq chunk.content "")) [
              | inl nothing ↦
                  let void : chunk.content ≡ "" = (eq_iff chunk.content "").0 nothing in
                  rw (full, read, generated)
                    (simp (more, nothing)
                      (
                        ends,
                        text
                            ∙ sym (
                                ap (λ t. String.◌++◌ t (generated lines)) void
                                ∙ nil-append (generated lines)),
                      ))
              | inr something ↦
                  rw (full, read, generated)
                    (simp (more, something)
                      (
                        one_more (content_chunk chunk.content) (stream_chunks c lines) refl ends,
                        ap (String.◌++◌ chunk.content) text,
                      ))
            ]
          ]
        ]
      ]

  -- The reply ends once; where Ollama answers with lines that fit, its text is what was generated.
  abbrev pub OwnStream : Upstream → StreamReply → Type 0
  OwnStream upstream reply =
      (events : List SseEvent) × (reply ≡ sent (sse_lines c events))
      × EndsOnce events
      × ((lines : List String)
          → upstream ≡ answered lines
          → All (λ l. c.fits l ≡ true) lines
          → text_of events ≡ generated lines)

  -- Ollama does not have the model, and a peer answers with some lines: the reply is what the loop
  -- makes of them, and if they are a stream of events, and fit, it is that stream.
  abbrev pub PeerStream : Upstream → Option Upstream → StreamReply → Type 0
  PeerStream upstream peer reply =
      (body : String) × (lines : List String) × (upstream ≡ refused 404 body)
      × (peer ≡ some (answered lines))
      × (reply ≡ sent (relay_lines c (scanned c lines)))
      × ((events : List SseEvent)
          → lines ≡ sse_lines c events
          → All (λ l. c.fits l ≡ true) lines
          → reply ≡ sent (sse_lines c events))

  error-OwnStream :
      (status : ℕ) (body message : String)
      → OwnStream (refused status body) (sent (sse_lines c (sse_error c message)))
  unfolding sse_error
  error-OwnStream status body message = (
    sse_error c message,
    refl,
    (error_chunk message ∷ [], refl, (refl, tt)),
    λ lines same fits. cc,
  )

  missing-stream :
      (body : String) (peer : Option Upstream)
      → OwnStream (refused 404 body) (handle_openai_stream c true (refused 404 body) peer)
        ⊎ PeerStream (refused 404 body) peer (handle_openai_stream c true (refused 404 body) peer)
  unfolding handle_openai_stream forward_openai_to_peer_streaming
  missing-stream body none = inl (error-OwnStream 404 body (c.refused_text 404 body))
  missing-stream body (some (post_failed e)) = inl (error-OwnStream 404 body (c.failed_text e))
  missing-stream body (some (refused s b)) = inl (error-OwnStream 404 body (c.refused_text s b))
  missing-stream body (some (answered lines)) = inr (
    body,
    lines,
    refl,
    refl,
    refl,
    λ events same fits.
        rw same (ap sent (forward_openai_to_peer_streaming-sse_lines c events (rw same at fits))),
  )

  -- Where it supports streaming, a reply ends with the end marker, which stands nowhere else in it, also
  -- on errors, unless Ollama does not have the model and a peer is found that answers: then the peer's
  -- lines are passed on, and a stream of events among them that fits the scanner's buffer comes out as
  -- it is. Where Ollama answers with lines that fit, the text of the reply is what Ollama generated
  -- up to its last chunk. It assumes that an empty line is no JSON.
  pub handle_openai_stream-EndsOnce :
      (upstream : Upstream) (peer : Option Upstream)
      → c.parse "" ≡ none
      → OwnStream upstream (handle_openai_stream c true upstream peer)
        ⊎ PeerStream upstream peer (handle_openai_stream c true upstream peer)
  unfolding handle_openai_stream sse_error
  handle_openai_stream-EndsOnce (post_failed e) peer blank =
      inl (_, refl, (error_chunk (c.failed_text e) ∷ [], refl, (refl, tt)), λ lines same fits. cc)
  handle_openai_stream-EndsOnce (refused status body) peer blank =
      elim (Bool-cases (status == 404)) [
        | inl missing ↦
            let same : status ≡ 404 = (==_iff status 404).0 missing in
            subst
              (λ s.
                OwnStream (refused s body) (handle_openai_stream c true (refused s body) peer)
                ⊎ PeerStream (refused s body) peer
                    (handle_openai_stream c true (refused s body) peer))
              (sym same) (missing-stream body peer)
        | inr other ↦ simp other (inl (error-OwnStream status body (c.refused_text status body)))
      ]
  handle_openai_stream-EndsOnce (answered ls) peer blank =
      let (ends, text) = stream_chunks-Streams (scanned c ls) blank in
      inl (
        stream_chunks c (scanned c ls),
        refl,
        ends,
        λ lines same fits.
            let own : ls ≡ lines = cc in
            text ∙ ap generated (ap (scanned c) own ∙ scanned-All c lines fits),
      )

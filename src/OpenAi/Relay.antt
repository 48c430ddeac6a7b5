-- ===== src/OpenAi/Relay.antt =====
-- That a stream passes through a server that forwards it (hive-server-go/openai_compat.go).
use Prim.Native.String
use text.Mathlib.TextLemmas.{append-eq-nil_iff}
use ollama_local_hives_clust.Prelude.{
  ◌≡◌, refl, String, true, false, List, [], ◌∷◌, arith, str_eq, eq_iff, All, ◌≢◌, Bool-cases, inl,
  inr,
}
use ollama_local_hives_clust.OpenAi.Stream.{
  SseEvent, content_chunk, final_chunk, error_chunk, done_marker, Encoding, sse_line, sse_lines,
  scanned, relay_lines, forward_openai_to_peer_streaming, answered,
}

data_text : ◌≢◌ {A = String} "data: " ""
data_text = ground (arith, eq_iff "data: " "")

module _ (c : Encoding) where
  data_line : (s : String) → str_eq (String.◌++◌ "data: " s) "" ≡ false
  data_line s = elim (Bool-cases (str_eq (String.◌++◌ "data: " s) "")) [
    | inr e ↦ e
    | inl e ↦ absurd (data_text ((append-eq-nil_iff.0 ((eq_iff _ _).0 e)).0))
  ]

  sse_line-nonempty : (e : SseEvent) → str_eq (sse_line c e) "" ≡ false
  sse_line-nonempty (content_chunk t) = data_line (c.json (content_chunk t))
  sse_line-nonempty final_chunk = data_line (c.json final_chunk)
  sse_line-nonempty (error_chunk t) = data_line (c.json (error_chunk t))
  sse_line-nonempty done_marker = refl

  relay_lines-sse_lines : (es : List SseEvent) → relay_lines c (sse_lines c es) ≡ sse_lines c es
  unfolding relay_lines sse_lines
  relay_lines-sse_lines [] = refl
  relay_lines-sse_lines (e ∷ es) = rw (sse_line-nonempty e, relay_lines-sse_lines es) refl

  pub scanned-All : (ls : List String) → All (λ l. c.fits l ≡ true) ls → scanned c ls ≡ ls
  unfolding scanned
  scanned-All [] h = refl
  scanned-All (l ∷ ls) h = rw (h.0, scanned-All ls h.1) refl

  -- A stream of events, written by one server and forwarded by another one, reaches the client of the
  -- latter line by line as it was written, where each line fits the scanner's buffer.
  pub forward_openai_to_peer_streaming-sse_lines :
      (es : List SseEvent)
      → All (λ l. c.fits l ≡ true) (sse_lines c es)
      → forward_openai_to_peer_streaming c (answered (sse_lines c es)) ≡ sse_lines c es
  unfolding forward_openai_to_peer_streaming
  forward_openai_to_peer_streaming-sse_lines es fits =
      rw (scanned-All (sse_lines c es) fits) (relay_lines-sse_lines es)

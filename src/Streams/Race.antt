-- ===== src/Streams/Race.antt =====
-- What Unsubscribe of hive-server-go/stream.go does to a Publish that has read its list already.
use ollama_local_hives_clust.Prelude.{
  ℕ, zero, suc, ◌≡◌, refl, String, true, none, some, List, [], ◌∷◌, ◌==◌, length, get_elem?, set,
  get_elem?-set_self, lookup, delete, arith, ◌<◌,
}
use ollama_local_hives_clust.Streams.{
  JobEvent, Channel, Slice, JobStream, array_at, index_of, close_channel, moved_down, unsubscribe,
  try_send, publish_read, publish_send,
}

==_same : (n : ℕ) → (n == n) ≡ true
==_same n = ground arith

array_at-some :
    (a : ℕ) (js : JobStream) (xs : List ℕ) → get_elem? js.arrays a ≡ some xs → array_at a js ≡ xs
unfolding array_at
array_at-some a js xs e = rw (e, array_at) refl

get_elem?-length :
    {A : Type 0} (xs : List A) (i : ℕ) (x : A) → get_elem? xs i ≡ some x → i < length xs
get_elem?-length [] i x e = cc
get_elem?-length (y ∷ ys) zero x e = omega arith
get_elem?-length (y ∷ ys) (suc i) x e = let rest = get_elem?-length ys i x e in omega arith

index_of-first : (ch : ℕ) (cs : List ℕ) → index_of ch (ch ∷ cs) ≡ some 0
unfolding index_of
index_of-first ch cs = rw (==_same ch) refl

close_channel-some :
    (ch : ℕ) (cs : List Channel) (c : Channel)
    → get_elem? cs ch ≡ some c
    → close_channel ch cs ≡ set cs ch (record c { closed = true })
unfolding close_channel
close_channel-some ch cs c e = rw (e, close_channel) refl

moved_down-sole : (ch : ℕ) (rest : List ℕ) → moved_down 0 1 (ch ∷ rest) ≡ ch ∷ rest
unfolding moved_down
moved_down-sole ch rest = refl

unsubscribe-sole :
    (job : String) (a ch : ℕ) (rest : List ℕ) (c : Channel) (js : JobStream)
    → lookup job js.clients ≡ some (record { array = a; len = 1 })
    → get_elem? js.arrays a ≡ some (ch ∷ rest)
    → get_elem? js.channels ch ≡ some c
    → unsubscribe job ch js ≡ record js {
      arrays = set js.arrays a (ch ∷ rest);
      channels = set js.channels ch (record c { closed = true });
      clients = delete job js.clients;
    }
unfolding unsubscribe
unsubscribe-sole job a ch rest c js held cells live =
    rw
      (
        held,
        array_at-some a js (ch ∷ rest) cells,
        unsubscribe,
        index_of-first ch [],
        array_at-some a js (ch ∷ rest) cells,
        moved_down-sole ch rest,
        close_channel-some ch js.channels c live,
      )
      refl

try_send-closed :
    (ch : ℕ) (event : JobEvent) (c : Channel) (js : JobStream)
    → get_elem? js.channels ch ≡ some c
    → c.closed ≡ true
    → try_send ch event js ≡ none
unfolding try_send
try_send-closed ch event c js e shut = rw (e, shut, try_send) refl

publish_send-closed :
    (s : Slice) (ch : ℕ) (rest : List ℕ) (event : JobEvent) (js : JobStream)
    → array_at s.array js ≡ ch ∷ rest
    → try_send ch event js ≡ none
    → publish_send s 0 1 event js ≡ none
unfolding publish_send
publish_send-closed s ch rest event js cells shut = rw (cells, publish_send, shut) refl

-- If the only subscriber of a job, of which Publish has read the list, leaves before Publish sends,
-- the send finds its channel closed, and panics.
pub publish_send-unsubscribe :
    (job : String) (event : JobEvent) (a ch : ℕ) (rest : List ℕ) (c : Channel) (js : JobStream)
    → publish_read job js ≡ some (record { array = a; len = 1 })
    → get_elem? js.arrays a ≡ some (ch ∷ rest)
    → get_elem? js.channels ch ≡ some c
    → publish_send (record { array = a; len = 1 }) 0 1 event (unsubscribe job ch js) ≡ none
unfolding publish_read
publish_send-unsubscribe job event a ch rest c js held cells live =
    let left : JobStream = record js {
      arrays = set js.arrays a (ch ∷ rest);
      channels = set js.channels ch (record c { closed = true });
      clients = delete job js.clients;
    } in
    let shut =
      try_send-closed ch event (record c { closed = true }) left
        (get_elem?-set_self js.channels ch (record c { closed = true })
          (get_elem?-length js.channels ch c live))
        refl in
    let kept = array_at-some a left (ch ∷ rest) (
      get_elem?-set_self js.arrays a (ch ∷ rest)
        (get_elem?-length js.arrays a (ch ∷ rest) cells)) in
    rw (unsubscribe-sole job a ch rest c js held cells live)
      (publish_send-closed (record { array = a; len = 1 }) ch rest event left kept shut)

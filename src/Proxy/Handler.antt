-- ===== src/Proxy/Handler.antt =====
-- The outcome of an inference request, from `handleInference` to the end of its response handler
-- (internal/proxy/proxy.go).
use ollama_local_hives_clust.Prelude.{
  ℕ, ◌<◌, ◌≡◌, refl, ap, ℤ, ltb_ℤ, List, [], ◌∷◌, ◌++◌, Bool-cases, String, Bool, true, false,
  Option, none, some, arith, length, inl, inr, ==_iff, Option-cases, lookup, lookup-delete, eq_refl,
  lt→leb_false,
}
use ollama_local_hives_clust.Queue
use ollama_local_hives_clust.Queue.{
  Heap, Ref, Request, RequestStatus, Queue, store, enqueue, pending, running, failed, complete,
  History,
}
use ollama_local_hives_clust.Queue.Contract.{enqueue-insort}
use ollama_local_hives_clust.Queue.Insertion.{insort}
use ollama_local_hives_clust.Cluster.Node.{Node, FloatOps}
use ollama_local_hives_clust.Cluster.Manager.{get_healthy_nodes}
use ollama_local_hives_clust.Balancer.{Runtime, select_node}
use ollama_local_hives_clust.Proxy.{
  Proxy, Body, Upstream, Response, admit, arrive, dispatch, finish, result, request_error,
  call_error, answered, handle_inference, finish_if_started, stream_unsupported, streamed,
  proxy_error, upstream_failed, forwarded, no_nodes, new_request,
}

-- What a node's answer means for the request; without a Flusher a streaming handler does not ask.
abbrev pub final_status : Bool → Bool → Upstream → RequestStatus → RequestStatus
final_status true false up before = before
final_status _ _ (answered _) before = complete
final_status _ _ _ before = failed

result-status :
    (stream flusher : Bool) (req : Request) (up : Upstream)
    → ((result stream req flusher up).1.status ≡ final_status stream flusher up req.status)
      × ((result stream req flusher up).1.id ≡ req.id)
result-status true true req (request_error _) = (refl, refl)
result-status true true req (call_error _) = (refl, refl)
result-status true true req (answered _) = (refl, refl)
result-status true false req up = (refl, refl)
result-status false true req (request_error _) = (refl, refl)
result-status false true req (call_error _) = (refl, refl)
result-status false true req (answered _) = (refl, refl)
result-status false false req (request_error _) = (refl, refl)
result-status false false req (call_error _) = (refl, refl)
result-status false false req (answered _) = (refl, refl)

store-same : (h : Heap) (r : Ref) (req : Request) → store h r req r ≡ req
unfolding store
store-same h r req = ground (arith, ==_iff r r)

store-other : (h : Heap) (r s : Ref) (req : Request) → ¬ (r ≡ s) → store h r req s ≡ h s
unfolding store
store-other h r s req other = ground (arith, ==_iff r s)

-- However a response handler ends, the request is no longer active under its id, has a time of
-- completion, and is in the history. It is complete if the node answered and failed if it did not,
-- except that a streaming handler whose writer is no Flusher leaves the status as it was.
pub finish_settles :
    {F : Type 0} (p : Proxy F) (r : Ref) (stream flusher : Bool) (up : Upstream) (now : ℕ)
    → let q = (finish p r stream flusher up now).1 in
      ((q.heap r).status ≡ final_status stream flusher up (p.heap r).status)
      × ((q.heap r).completed_at ≡ some now)
      × (lookup (p.heap r).id q.active ≡ none)
      × (q.history ≡ Queue.add p.history r)
unfolding finish
finish_settles p r stream flusher up now =
    let (a, b) = result-status stream flusher (p.heap r) up in
    (rw store-same a, rw store-same refl, rw (b, lookup-delete, eq_refl) refl, refl)

abbrev pub reply : Bool → Bool → Upstream → Response
reply true false up = stream_unsupported
reply true true up = streamed
reply false flusher (request_error _) = proxy_error
reply false flusher (call_error _) = upstream_failed
reply false flusher (answered code) = forwarded code

result-reply :
    (stream flusher : Bool) (req : Request) (up : Upstream)
    → (result stream req flusher up).0 ≡ reply stream flusher up
result-reply true true req (request_error _) = refl
result-reply true true req (call_error _) = refl
result-reply true true req (answered _) = refl
result-reply true false req up = refl
result-reply false flusher req (request_error _) = refl
result-reply false flusher req (call_error _) = refl
result-reply false flusher req (answered _) = refl

-- The request stands between two parts of the list that was there before.
abbrev pub Placed : Ref → List Ref → List Ref → Type 0
Placed r before after =
    (front back : List Ref) × (before ≡ front ++ back) × (after ≡ front ++ r ∷ back)

insort-Placed : (h : Heap) (c : ℤ) (r : Ref) (xs : List Ref) → Placed r xs (insort h c r xs)
unfolding insort
insort-Placed h c r [] = ([], [], refl, refl)
insort-Placed h c r (x ∷ xs) = elim (Bool-cases (ltb_ℤ (h x).priority c)) [
  | inl lower ↦ ([], x ∷ xs, refl, rw lower refl)
  | inr other ↦
      let (front, back, split, whole) = insort-Placed h c r xs in
      (x ∷ front, back, ap (λ t. x ∷ t) split, rw other (ap (λ t. x ∷ t) whole))
]

-- What became of request `r` with the given id, where `node` was selected for it.
pub record Outcome {F : Type 0} (p : Proxy F) (r : Ref) (id : String) (node : Option (Node F))
    (stream flusher : Bool) (up : Upstream) (out : Response × Proxy F) : Type 0 where
  pub answer : out.0 ≡ elim node [ none ↦ no_nodes | some n ↦ reply stream flusher up ]
  pub status :
      (out.1.heap r).status
      ≡ elim node [ none ↦ failed | some n ↦ final_status stream flusher up running ]
  pub inactive : lookup id out.1.active ≡ none
  pub recorded : out.1.history ≡ Queue.add p.history r
  pub still_queued : Placed r p.queue.items out.1.queue.items

module _ {F : Type 0} (rt : Runtime (Node F)) (ops : FloatOps F) where
  -- The handler after the request was admitted.
  serve_lem :
      (p q : Proxy F) (r : Ref) (id : String) (stream flusher : Bool) (up : Upstream) (now : ℕ)
      → (q.heap r).id ≡ id
      → lookup id q.active ≡ none
      → q.history ≡ p.history
      → Placed r p.queue.items q.queue.items
      → Outcome p r id
          (select_node rt ops q.balancer (get_healthy_nodes q.manager now) now).0
          stream
          flusher
          up
          (finish_if_started (dispatch rt ops q r stream now) r stream flusher up now)
  unfolding dispatch finish
  serve_lem p q r id stream flusher up now same fresh kept grown =
      elim (Option-cases (select_node rt ops q.balancer (get_healthy_nodes q.manager now) now).0) [
        | inl e ↦ rw e (record {
          answer = refl;
          status = rw store-same refl;
          inactive = fresh;
          recorded = rw kept refl;
          still_queued = grown;
        })
        | inr (node, e) ↦
            let req = record (q.heap r) {
              status = running;
              node_id = node.id;
              started_at = some now;
            } in
            let (a, b) = result-status stream flusher req up in
            rw e (record {
              answer = result-reply stream flusher _ up;
              status = rw (store-same q.heap r req, store-same) a;
              inactive = rw (store-same q.heap r req, b, same, lookup-delete, eq_refl) refl;
              recorded = rw kept refl;
              still_queued = grown;
            })
      ]

  -- A well-formed inference request that arrives at a queue with room, under an id that is not
  -- active, and meets no other handler, ends as the healthy nodes and the upstream decide: with no
  -- node the reply is 503 and the request has failed; else the reply and the status are those of
  -- the node's answer. It is not active and is in the history, and the queue still holds it: its
  -- requests are those of before, with this one among them.
  pub inference-Outcome :
      (p : Proxy F) (body : Body) (id : String) (flusher : Bool) (up : Upstream) (now : ℕ)
      → length p.queue.items < p.queue.max_size
      → lookup id p.active ≡ none
      → Outcome p p.next_ref id
          (select_node rt ops p.balancer (get_healthy_nodes p.manager now) now).0
          body.body_stream
          flusher
          up
          (handle_inference rt ops p body id flusher up now)
  unfolding handle_inference arrive admit
  inference-Outcome p body id flusher up now room fresh =
      let h = store p.heap p.next_ref (new_request id body) in
      let open_queue = lt→leb_false (length p.queue.items) p.queue.max_size room in
      let entry = enqueue-insort h p.queue p.next_ref now in
      rw (entry, open_queue)
        (serve_lem p _ p.next_ref id body.body_stream flusher up now
          (rw (store-same, store-same) refl) fresh refl
          (insort-Placed h (h p.next_ref).priority p.next_ref p.queue.items))

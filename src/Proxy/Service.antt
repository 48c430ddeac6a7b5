-- ===== src/Proxy/Service.antt =====
-- The handlers of internal/proxy/proxy.go as clients of the queue of internal/queue/queue.go.
use ollama_local_hives_clust.Prelude.{
  ℕ, ◌+◌, ◌<◌, ◌≡◌, refl, String, Bool, none, some, List, [], ◌∷◌, arith, length, leb, Bool-cases,
  inl, inr, All, All-mono, All-remove, ℤ, ltb_ℤ, ==_iff, Option-cases,
}
use ollama_local_hives_clust.Queue.{Heap, Ref, Request, Queue, enqueue, store, new}
use ollama_local_hives_clust.Queue.Order.{AgreeOn}
use ollama_local_hives_clust.Queue.Insertion.{insort}
use ollama_local_hives_clust.Queue.Contract
use ollama_local_hives_clust.Queue.Contract.{
  enqueue-insort, enqueues, writes, IsValid, Reach-IsValid,
}
use ollama_local_hives_clust.Queue.Cancel.{Cancelled, missed, removed, cancel_first}
use ollama_local_hives_clust.Cluster.Node.{Node, FloatOps}
use ollama_local_hives_clust.Cluster.Manager.{Manager, get_healthy_nodes}
use ollama_local_hives_clust.Balancer.{Balancer, Runtime, select_node}
use ollama_local_hives_clust.Proxy.{
  Proxy, Body, Upstream, arrive, admit, dispatch, finish, handle_cancel, Step, arrives, dispatches,
  finishes, cancels, cluster, Reach, here, next, new_request, new_proxy, result,
}
use ollama_local_hives_clust.Proxy.Saturation.{
  admit-queue, admit-heap, admit-next_ref, dispatch-queue,
}

-- The references in the queue were handed out.
abbrev Below : ℕ → List Ref → Type 0
Below n = All (λ r. r < n)

insort-Below :
    (h : Heap) (p : ℤ) (r n : ℕ) (xs : List Ref) → r < n → Below n xs → Below n (insort h p r xs)
unfolding insort
insort-Below h p r n [] lt b = (lt, tt)
insort-Below h p r n (x ∷ xs) lt b = elim (Bool-cases (ltb_ℤ (h x).priority p)) [
  | inl lower ↦ rw lower (lt, b)
  | inr not_lower ↦ rw not_lower (b.0, insort-Below h p r n xs lt b.1)
]

enqueue-Below :
    (h : Heap) (q : Queue) (r now : ℕ) → Below r q.items → Below (r + 1) (enqueue h q r now).2.items
enqueue-Below h q r now b =
    let wider : Below (r + 1) q.items = All-mono q.items (λ y lt. omega arith) b in
    rw (enqueue-insort h q r now) (elim (Bool-cases (leb q.max_size (length q.items))) [
      | inl full ↦ rw full wider
      | inr free ↦ rw free (insort-Below h (h r).priority r (r + 1) q.items (omega arith) wider)
    ])

Cancelled-Below :
    (n : ℕ) {h : Heap} {q : Queue} {id : String} {out : Bool × Heap × Queue}
    → Cancelled h q id out
    → Below n q.items
    → Below n out.2.items
Cancelled-Below n (missed _) b = b
Cancelled-Below n {h} {q} (removed before after r e _ _) b =
    All-remove (λ y. y < n) r before after (rw e at b)

store-AgreeOn :
    (h : Heap) (r : ℕ) (req : Request) (xs : List Ref) → Below r xs → AgreeOn (store h r req) h xs
unfolding store
store-AgreeOn h r req xs b = All-mono xs (λ y lt. other y lt) b
  where
    other : (y : Ref) → y < r → (store h r req y).priority ≡ (h y).priority
    other y lt = ground (arith, ==_iff r y)

store_same :
    (h : Heap) (r : ℕ) (req : Request) (xs : List Ref)
    → req.priority ≡ (h r).priority
    → AgreeOn (store h r req) h xs
unfolding store
store_same h r req [] e = tt
store_same h r req (x ∷ xs) e = (other, store_same h r req xs e)
  where
    other : (store h r req x).priority ≡ (h x).priority
    other = ground (arith, ==_iff r x)

dispatch-heap :
    {F : Type 0} (rt : Runtime (Node F)) (ops : FloatOps F) (p : Proxy F) (r : ℕ) (stream : Bool)
    (now : ℕ) (xs : List Ref)
    → AgreeOn (dispatch rt ops p r stream now).1.heap p.heap xs
unfolding dispatch
dispatch-heap rt ops p r stream now xs =
    elim (Option-cases (select_node rt ops p.balancer (get_healthy_nodes p.manager now) now).0) [
      | inl e ↦ rw e (store_same p.heap r _ xs refl)
      | inr (node, e) ↦ rw e (store_same p.heap r _ xs refl)
    ]

dispatch-next_ref :
    {F : Type 0} (rt : Runtime (Node F)) (ops : FloatOps F) (p : Proxy F) (r : ℕ) (stream : Bool)
    (now : ℕ)
    → (dispatch rt ops p r stream now).1.next_ref ≡ p.next_ref
unfolding dispatch
dispatch-next_ref rt ops p r stream now =
    elim (Option-cases (select_node rt ops p.balancer (get_healthy_nodes p.manager now) now).0) [
      | inl e ↦ rw e refl
      | inr (node, e) ↦ rw e refl
    ]

result-priority :
    (stream flusher : Bool) (req : Request) (up : Upstream)
    → (result stream req flusher up).1.priority ≡ req.priority
result-priority stream flusher req up = ground arith

finish-heap :
    {F : Type 0} (p : Proxy F) (r : ℕ) (stream flusher : Bool) (up : Upstream) (now : ℕ)
    (xs : List Ref)
    → AgreeOn (finish p r stream flusher up now).1.heap p.heap xs
unfolding finish
finish-heap p r stream flusher up now xs =
    store_same p.heap r _ xs (result-priority stream flusher (p.heap r) up)

-- What a proxy is to its queue: the queue and the heap are reached by the queue's own calls.
pub record Uses {F : Type 0} (start : Heap × Queue) (p : Proxy F) : Type 0 where
  below : Below p.next_ref p.queue.items
  reached : Contract.Reach start (p.heap, p.queue)

admit-Uses :
    {F : Type 0} {s : Heap × Queue} (p : Proxy F) (id : String) (body : Body) (now : ℕ)
    → Uses s p
    → Uses s (admit p id body now).1
admit-Uses p id body now u =
    let h = store p.heap p.next_ref (new_request id body) in
    record {
      below =
          rw (admit-queue p id body now, admit-next_ref p id body now)
            (enqueue-Below h p.queue p.next_ref now u.below);
      reached =
          rw (admit-queue p id body now, admit-heap p id body now)
            (Contract.next
              (Contract.next u.reached (
                writes
                  (store-AgreeOn p.heap p.next_ref (new_request id body) p.queue.items u.below)))
              (enqueues p.next_ref now));
    }

finish-Uses :
    {F : Type 0} {s : Heap × Queue} (p : Proxy F) (r : ℕ) (stream flusher : Bool) (up : Upstream)
    (now : ℕ)
    → Uses s p
    → Uses s (finish p r stream flusher up now).1
unfolding finish
finish-Uses p r stream flusher up now u = record {
  below = u.below;
  reached = Contract.next u.reached (writes (finish-heap p r stream flusher up now p.queue.items));
}

Step-Uses :
    {F : Type 0} {rt : Runtime (Node F)} {ops : FloatOps F} {s : Heap × Queue} {p q : Proxy F}
    → Step rt ops p q
    → Uses s p
    → Uses s q
unfolding arrive handle_cancel
Step-Uses (arrives none id now) u = u
Step-Uses (arrives (some none) id now) u = u
Step-Uses (arrives {p} (some (some body)) id now) u = admit-Uses p id body now u
Step-Uses {rt} {ops} (dispatches {p} r stream now e) u = record {
  below =
      rw (dispatch-queue rt ops p r stream now, dispatch-next_ref rt ops p r stream now) u.below;
  reached =
      rw (dispatch-queue rt ops p r stream now)
        (Contract.next u.reached (writes (dispatch-heap rt ops p r stream now p.queue.items)));
}
Step-Uses (finishes {p} r stream flusher up now e) u = finish-Uses p r stream flusher up now u
Step-Uses (cancels none) u = u
Step-Uses (cancels {p} (some id)) u = record {
  below = Cancelled-Below p.next_ref (cancel_first p.heap p.queue id) u.below;
  reached = Contract.next u.reached (Contract.cancels id);
}
Step-Uses (cluster m) u = record { below = u.below; reached = u.reached }

Reach-Uses :
    {F : Type 0} {rt : Runtime (Node F)} {ops : FloatOps F} (m : Manager F) (b : Balancer)
    (max_size max_history : ℕ) (h : Heap) {s : Proxy F}
    → Reach rt ops (new_proxy m b max_size max_history h) s
    → Uses (h, new max_size) s
unfolding new_proxy new
Reach-Uses m b max_size max_history h here = record { below = tt; reached = Contract.here }
Reach-Uses m b max_size max_history h (next t st) =
    Step-Uses st (Reach-Uses m b max_size max_history h t)

-- However the handlers are interleaved from the start of the server, the proxy's queue keeps the
-- queue's invariant: falling priorities, and at most `max_size` requests.
pub proxy_queue-IsValid :
    {F : Type 0} (rt : Runtime (Node F)) (ops : FloatOps F) (m : Manager F) (b : Balancer)
    (max_size max_history : ℕ) (h : Heap) {s : Proxy F}
    → Reach rt ops (new_proxy m b max_size max_history h) s
    → IsValid max_size s.heap s.queue
proxy_queue-IsValid rt ops m b max_size max_history h t =
    Reach-IsValid max_size h (Reach-Uses m b max_size max_history h t).reached

-- ===== src/Proxy/Saturation.antt =====
-- The handlers of internal/proxy/proxy.go never call `Dequeue`: what that does to the queue.
use ollama_local_hives_clust.Prelude.{
  ℕ, suc, ◌+◌, ◌≤◌, ◌≡◌, refl, ap, String, Bool, Option, none, some, ◌∷◌, arith, length, leb,
  le→leb, Bool-cases, inl, inr, length-append, Option-cases, ◌∙◌,
}
use ollama_local_hives_clust.Queue.{store, Heap, Queue, enqueue}
use ollama_local_hives_clust.Queue.Contract.{enqueue-insort, length-insort}
use ollama_local_hives_clust.Queue.Cancel.{Cancelled, missed, removed, cancel_first}
use ollama_local_hives_clust.Cluster.Node.{Node, FloatOps}
use ollama_local_hives_clust.Balancer.{Runtime, select_node}
use ollama_local_hives_clust.Cluster.Manager.{get_healthy_nodes}
use ollama_local_hives_clust.Proxy.{
  Proxy, Body, queue_full, arrive, admit, dispatch, finish, handle_cancel, arrives, dispatches,
  finishes, cancels, cluster, Upstream, Reach, here, next, new_request,
}

-- The size of the queue and its bound, before and after.
abbrev Grows : Queue → Queue → Type 0
Grows q q' = (length q.items ≤ length q'.items) × (q'.max_size ≡ q.max_size)

enqueue-Grows : (h : Heap) (q : Queue) (r : ℕ) (now : ℕ) → Grows q (enqueue h q r now).2
enqueue-Grows h q r now =
    rw (enqueue-insort h q r now) (elim (Bool-cases (leb q.max_size (length q.items))) [
      | inl full ↦ rw full (omega arith, refl)
      | inr free ↦ rw free (omega (arith, length-insort h (h r).priority r q.items), refl)
    ])

pub admit-queue :
    {F : Type 0} (p : Proxy F) (id : String) (body : Body) (now : ℕ)
    → (admit p id body now).1.queue
      ≡ (enqueue (store p.heap p.next_ref (new_request id body)) p.queue p.next_ref now).2
unfolding admit
admit-queue p id body now =
    let h = store p.heap p.next_ref (new_request id body) in
    elim (Bool-cases (enqueue h p.queue p.next_ref now).0) [ inl e ↦ rw e refl | inr e ↦ rw e refl ]

pub admit-heap :
    {F : Type 0} (p : Proxy F) (id : String) (body : Body) (now : ℕ)
    → (admit p id body now).1.heap
      ≡ (enqueue (store p.heap p.next_ref (new_request id body)) p.queue p.next_ref now).1
unfolding admit
admit-heap p id body now =
    let h = store p.heap p.next_ref (new_request id body) in
    elim (Bool-cases (enqueue h p.queue p.next_ref now).0) [ inl e ↦ rw e refl | inr e ↦ rw e refl ]

pub admit-next_ref :
    {F : Type 0} (p : Proxy F) (id : String) (body : Body) (now : ℕ)
    → (admit p id body now).1.next_ref ≡ p.next_ref + 1
unfolding admit
admit-next_ref p id body now =
    let h = store p.heap p.next_ref (new_request id body) in
    elim (Bool-cases (enqueue h p.queue p.next_ref now).0) [ inl e ↦ rw e refl | inr e ↦ rw e refl ]

pub dispatch-queue :
    {F : Type 0} (rt : Runtime (Node F)) (ops : FloatOps F) (p : Proxy F) (r : ℕ) (stream : Bool)
    (now : ℕ)
    → (dispatch rt ops p r stream now).1.queue ≡ p.queue
unfolding dispatch
dispatch-queue rt ops p r stream now =
    elim (Option-cases (select_node rt ops p.balancer (get_healthy_nodes p.manager now) now).0) [
      | inl e ↦ rw e refl
      | inr (node, e) ↦ rw e refl
    ]

pub finish-queue :
    {F : Type 0} (p : Proxy F) (r : ℕ) (stream flusher : Bool) (up : Upstream) (now : ℕ)
    → (finish p r stream flusher up now).1.queue ≡ p.queue
unfolding finish
finish-queue p r stream flusher up now = refl

module _ {F : Type 0} (rt : Runtime (Node F)) (ops : FloatOps F) where
  -- The calls of `HandleCancel` in a history.
  abbrev pub cancel_calls : {p s : Proxy F} → Reach rt ops p s → ℕ
  cancel_calls here = 0
  cancel_calls (next t (cancels id)) = suc (cancel_calls t)
  cancel_calls (next t _) = cancel_calls t

  arrive-Grows :
      (p : Proxy F) (body : Option (Option Body)) (id : String) (now : ℕ)
      → Grows p.queue (arrive p body id now).1.queue
  unfolding arrive
  arrive-Grows p none id now = (omega arith, refl)
  arrive-Grows p (some none) id now = (omega arith, refl)
  arrive-Grows p (some (some body)) id now =
      rw (admit-queue p id body now)
        (enqueue-Grows (store p.heap p.next_ref (new_request id body)) p.queue p.next_ref now)

  cancel-shrinks :
      {h : Heap} {q : Queue} {id : String} {out : Bool × Heap × Queue}
      → Cancelled h q id out
      → (length q.items ≤ length out.2.items + 1) × (out.2.max_size ≡ q.max_size)
  cancel-shrinks (missed _) = (omega arith, refl)
  cancel-shrinks {h} {q} (removed before after r e _ _) = (
    omega (arith, ap length e, length-append before after, length-append before (r ∷ after)),
    refl,
  )

  handle_cancel-shrinks :
      (p : Proxy F) (id : Option String)
      → (length p.queue.items ≤ length (handle_cancel p id).1.queue.items + 1)
        × ((handle_cancel p id).1.queue.max_size ≡ p.queue.max_size)
  unfolding handle_cancel
  handle_cancel-shrinks p none = (omega arith, refl)
  handle_cancel-shrinks p (some id) = cancel-shrinks (cancel_first p.heap p.queue id)

  -- Only `HandleCancel` makes the queue shorter, by one request a call.
  Reach-Grows :
      {p s : Proxy F} (t : Reach rt ops p s)
      → (length p.queue.items ≤ length s.queue.items + cancel_calls t)
        × (s.queue.max_size ≡ p.queue.max_size)
  Reach-Grows here = (omega arith, refl)
  Reach-Grows (next {q} t (arrives body id now)) =
      let (a, b) = arrive-Grows q body id now in let (c, d) = Reach-Grows t in (omega arith, b ∙ d)
  Reach-Grows (next {q} t (dispatches r stream now e)) =
      rw (dispatch-queue rt ops q r stream now) (Reach-Grows t)
  Reach-Grows (next {q} t (finishes r stream flusher up now e)) =
      rw (finish-queue q r stream flusher up now) (Reach-Grows t)
  Reach-Grows (next {q} t (cancels id)) =
      let (a, b) = handle_cancel-shrinks q id in let (c, d) = Reach-Grows t in (omega arith, b ∙ d)
  Reach-Grows (next t (cluster m)) = Reach-Grows t

  full_refuses :
      (p : Proxy F) (body : Body) (id : String) (now : ℕ)
      → p.queue.max_size ≤ length p.queue.items
      → (arrive p (some (some body)) id now).0 ≡ some queue_full
  unfolding arrive admit enqueue
  full_refuses p body id now full = rw (le→leb p.queue.max_size (length p.queue.items) full) refl

  -- Once the queue is full it stays full for as long as no client calls `HandleCancel`, whatever the
  -- other handlers do, and every well-formed request that arrives is answered "queue full".
  pub full_forever :
      {p s : Proxy F} (t : Reach rt ops p s) (body : Body) (id : String) (now : ℕ)
      → p.queue.max_size ≤ length p.queue.items
      → cancel_calls t ≡ 0
      → (arrive s (some (some body)) id now).0 ≡ some queue_full
  full_forever {s} t body id now full none_cancelled =
      let (a, b) = Reach-Grows t in full_refuses s body id now (omega arith)

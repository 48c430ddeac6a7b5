-- ===== src/Proxy/Cancellation.antt =====
-- What `HandleCancel` of internal/proxy/proxy.go does to a request, before and after a node was
-- selected for it.
use ollama_local_hives_clust.Prelude.{
  ℕ, ◌≡◌, refl, String, Bool, true, false, Option, none, some, arith, inl, inr, ==_iff,
  Option-cases,
}
use ollama_local_hives_clust.Queue.{Heap, Ref, Request, Queue, store, pending}
use ollama_local_hives_clust.Queue.Cancel.{Cancelled, missed, removed, cancel_first}
use ollama_local_hives_clust.Cluster.Node.{Node, FloatOps}
use ollama_local_hives_clust.Cluster.Manager.{get_healthy_nodes}
use ollama_local_hives_clust.Balancer.{Runtime, select_node}
use ollama_local_hives_clust.Proxy.{
  Proxy, Upstream, dispatch, finish, handle_cancel, result, request_error, call_error, answered,
}

kept :
    {h : Heap} {q : Queue} {id : String} {out : Bool × Heap × Queue} (r : Ref)
    → Cancelled h q id out
    → ¬ ((h r).status ≡ pending)
    → out.1 r ≡ h r
unfolding store
kept r (missed _) other = refl
kept {h} {id = id} r (removed before after s e _ m) other = ground (arith, ==_iff s r)

-- A request that a node was selected for is out of reach of `HandleCancel`: only a pending request's
-- state can change, whatever the id.
pub cancel-running :
    {F : Type 0} (p : Proxy F) (id : Option String) (r : Ref)
    → ¬ ((p.heap r).status ≡ pending)
    → (handle_cancel p id).1.heap r ≡ p.heap r
unfolding handle_cancel
cancel-running p none r other = refl
cancel-running p (some id) r other = kept r (cancel_first p.heap p.queue id) other

status_at : (h : Heap) (r : Ref) (req : Request) → store h r req r ≡ req
unfolding store
status_at h r req = ground (arith, ==_iff r r)

result-response :
    (stream flusher : Bool) (req req' : Request) (up : Upstream)
    → (result stream req flusher up).0 ≡ (result stream req' flusher up).0
result-response true true req req' (request_error _) = refl
result-response true true req req' (call_error _) = refl
result-response true true req req' (answered _) = refl
result-response true false req req' up = refl
result-response false flusher req req' (request_error _) = refl
result-response false flusher req req' (call_error _) = refl
result-response false flusher req req' (answered _) = refl

-- A cancellation that comes between the request's arrival and the selection of its node is not seen
-- by the request's handler: it stops or goes on as it would have, leaves the request in the same
-- status, and answers the same.
pub cancel_unseen :
    {F : Type 0} (rt : Runtime (Node F)) (ops : FloatOps F) (p : Proxy F) (id : Option String)
    (r : Ref) (stream flusher : Bool) (up : Upstream) (now later : ℕ)
    → let p' = (handle_cancel p id).1 in
      let (stop, d) = dispatch rt ops p r stream now in
      let (stop', d') = dispatch rt ops p' r stream now in
      (stop' ≡ stop)
      × ((d'.heap r).status ≡ (d.heap r).status)
      × ((finish d' r stream flusher up later).0 ≡ (finish d r stream flusher up later).0)
unfolding handle_cancel dispatch finish
cancel_unseen rt ops p none r stream flusher up now later = (refl, refl, refl)
cancel_unseen rt ops p (some id) r stream flusher up now later =
    elim (Option-cases (select_node rt ops p.balancer (get_healthy_nodes p.manager now) now).0) [
      | inl e ↦ rw (e, status_at, status_at) (refl, refl, result-response stream flusher _ _ up)
      | inr (node, e) ↦
          rw (e, status_at, status_at) (refl, refl, result-response stream flusher _ _ up)
    ]

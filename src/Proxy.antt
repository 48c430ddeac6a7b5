-- ===== src/Proxy.antt =====
-- internal/proxy/proxy.go: the handler of inference requests. Between its calls of other components
-- the handler can be interleaved with other handlers, so it is three steps: it enqueues the request
-- (`arrive`), selects a node (`dispatch`), and writes the upstream's answer (`finish`).
pub mod Saturation
pub mod Service
pub mod Handler
pub mod Cancellation
mod Examples
use ollama_local_hives_clust.Prelude.{
  ℕ, suc, ◌+◌, ◌≡◌, String, Bool, true, false, Option, none, some, List, [], ◌∷◌, if◌then◌else◌,
  Map, insert, delete, ℤ, pos, ◌==◌, map,
}
use ollama_local_hives_clust.Queue
use ollama_local_hives_clust.Queue.{
  Queue, Request, Heap, Ref, History, RequestStatus, unset, running, complete, failed, store,
}
use ollama_local_hives_clust.Cluster.Node.{Node, FloatOps}
use ollama_local_hives_clust.Cluster.Manager.{Manager, get_healthy_nodes}
use ollama_local_hives_clust.Balancer.{Balancer, Runtime, select_node}

-- The fields of the JSON body that the handler reads. `body_priority` is `int(pri)`.
pub record Body : Type 0 where
  pub body_model : String
  pub body_stream : Bool
  pub body_priority : Option ℤ
  pub raw : String

-- Where the handler of a request is; the flag is `stream`.
pub data Phase : Type 0 where
  idle : Phase
  selecting : Bool → Phase
  waiting : Bool → Phase

pub data Response : Type 0 where
  read_failed invalid_json queue_full no_nodes proxy_error upstream_failed : Response
  forwarded : ℕ → Response
  stream_unsupported streamed cancelled not_cancelled : Response

abbrev pub status_code : Response → ℕ
status_code read_failed = 400
status_code invalid_json = 400
status_code queue_full = 503
status_code no_nodes = 503
status_code proxy_error = 500
status_code upstream_failed = 502
status_code (forwarded code) = code
status_code stream_unsupported = 500
status_code streamed = 200
status_code cancelled = 200
status_code not_cancelled = 404

-- What the call of the node's Ollama comes to.
pub data Upstream : Type 0 where
  request_error : String → Upstream
  call_error : String → Upstream
  answered : ℕ → Upstream

pub record Proxy (F : Type 0) : Type 0 where
  pub manager : Manager F
  pub balancer : Balancer
  pub queue : Queue
  pub heap : Heap
  pub history : History
  pub active : Map Ref
  pub phase : Ref → Phase
  pub next_ref : ℕ

-- `NewProxy`, with the queue and the history that main.go makes.
unfoldable pub new_proxy : {F : Type 0} → Manager F → Balancer → ℕ → ℕ → Heap → Proxy F
unfolding Queue.new Queue.new_history
new_proxy m b max_size max_history h = record {
  manager = m;
  balancer = b;
  queue = Queue.new max_size;
  heap = h;
  history = Queue.new_history max_history;
  active = [];
  phase = λ r. idle;
  next_ref = 0;
}

abbrev pub priority_normal : ℤ
priority_normal = pos 1

abbrev pub new_request : String → Body → Request
new_request id body = record {
  id = id;
  model = body.body_model;
  priority = elim body.body_priority [ none ↦ priority_normal | some p ↦ p ];
  status = unset;
  node_id = "";
  created_at = 0;
  started_at = none;
  completed_at = none;
  error = "";
  metadata = body.raw;
}

abbrev pub set_phase : (Ref → Phase) → Ref → Phase → Ref → Phase
set_phase f r p s = if r == s then p else f s

abbrev pub fail : Request → String → Request
fail req msg = record req { status = failed; error = msg }

-- The rest of `handleSyncResponse`: the request's fields and the reply.
abbrev pub sync_result : Request → Upstream → Response × Request
sync_result req (request_error msg) = (proxy_error, fail req msg)
sync_result req (call_error msg) = (upstream_failed, fail req msg)
sync_result req (answered code) = (forwarded code, record req { status = complete })

-- The rest of `handleStreamResponse`, with whether the writer is a Flusher. The status 200 is
-- written before the upstream is called.
abbrev pub stream_result : Request → Bool → Upstream → Response × Request
stream_result req false up = (stream_unsupported, req)
stream_result req true (request_error msg) = (streamed, fail req msg)
stream_result req true (call_error msg) = (streamed, fail req msg)
stream_result req true (answered code) = (streamed, record req { status = complete })

abbrev pub result : Bool → Request → Bool → Upstream → Response × Request
result true req flusher up = stream_result req flusher up
result false req flusher up = sync_result req up

module _ {F : Type 0} where
  -- req := &queue.Request{…}; p.queue.Enqueue(req)
  unfoldable pub admit : Proxy F → String → Body → ℕ → Option Response × Proxy F
  admit p id body now =
      let r = p.next_ref in
      let h = store p.heap r (new_request id body) in
      let (accepted, h', q') = Queue.enqueue h p.queue r now in
      if accepted
      then (
        none,
        record p {
          heap = h';
          queue = q';
          phase = set_phase p.phase r (selecting body.body_stream);
          next_ref = r + 1;
        },
      )
      else (some queue_full, record p { heap = h'; queue = q'; next_ref = r + 1 })

  -- `handleInference` up to the call of a response handler. The arguments are the body, `none` where
  -- reading fails, and what it decodes to, `none` where it is no JSON object.
  unfoldable pub arrive : Proxy F → Option (Option Body) → String → ℕ → Option Response × Proxy F
  unfolding admit
  arrive p none id now = (some read_failed, p)
  arrive p (some none) id now = (some invalid_json, p)
  arrive p (some (some body)) id now = admit p id body now

  abbrev pub reject : Proxy F → Ref → Proxy F
  reject p r = record p {
    heap = store p.heap r (record (p.heap r) { status = failed; error = "no available nodes" });
    history = Queue.add p.history r;
    phase = set_phase p.phase r idle;
  }

  abbrev pub start : Proxy F → Ref → Bool → Node F → ℕ → Proxy F
  start p r stream node now = record p {
    heap =
        store p.heap r
          (record (p.heap r) { status = running; node_id = node.id; started_at = some now });
    active = insert (p.heap r).id r p.active;
    phase = set_phase p.phase r (waiting stream);
  }

  abbrev pub assigned : Proxy F → Ref → Bool → Option (Node F) → ℕ → Option Response × Proxy F
  assigned p r stream none now = (some no_nodes, reject p r)
  assigned p r stream (some node) now = (none, start p r stream node now)

  -- The selection of a node, the same in `handleSyncResponse` and `handleStreamResponse`.
  unfoldable pub dispatch :
      Runtime (Node F) → FloatOps F → Proxy F → Ref → Bool → ℕ → Option Response × Proxy F
  dispatch rt ops p r stream now =
      let (node, b) = select_node rt ops p.balancer (get_healthy_nodes p.manager now) now in
      assigned (record p { balancer = b }) r stream node now

  -- The end of a response handler and its deferred function.
  unfoldable pub finish : Proxy F → Ref → Bool → Bool → Upstream → ℕ → Response × Proxy F
  finish p r stream flusher up now =
      let (response, req) = result stream (p.heap r) flusher up in
      (
        response,
        record p {
          heap = store p.heap r (record req { completed_at = some now });
          active = delete req.id p.active;
          history = Queue.add p.history r;
          phase = set_phase p.phase r idle;
        },
      )

  abbrev pub finish_if_started :
      Option Response × Proxy F → Ref → Bool → Bool → Upstream → ℕ → Response × Proxy F
  finish_if_started (some response, p) r stream flusher up now = (response, p)
  finish_if_started (none, p) r stream flusher up now = finish p r stream flusher up now

  abbrev pub continue_if_admitted :
      Runtime (Node F)
      → FloatOps F
      → Option Response × Proxy F
      → Ref
      → Bool
      → Bool
      → Upstream
      → ℕ
      → Response × Proxy F
  continue_if_admitted rt ops (some response, p) r stream flusher up now = (response, p)
  continue_if_admitted rt ops (none, p) r stream flusher up now =
      finish_if_started (dispatch rt ops p r stream now) r stream flusher up now

  -- `handleInference` of a decoded body from beginning to end, with no other handler in between.
  unfoldable pub handle_inference :
      Runtime (Node F)
      → FloatOps F
      → Proxy F
      → Body
      → String
      → Bool
      → Upstream
      → ℕ
      → Response × Proxy F
  unfolding arrive dispatch finish
  handle_inference rt ops p body id flusher up now =
      continue_if_admitted rt ops (arrive p (some (some body)) id now) p.next_ref body.body_stream
        flusher up now

  -- `HandleCancel`; the argument is the decoded request id.
  unfoldable pub handle_cancel : Proxy F → Option String → Response × Proxy F
  handle_cancel p none = (invalid_json, p)
  handle_cancel p (some id) =
      let (removed, h, q) = Queue.cancel p.heap p.queue id in
      (if removed then cancelled else not_cancelled, record p { heap = h; queue = q })

  unfoldable pub get_active_requests : Proxy F → List Ref
  get_active_requests p = map (λ e. e.1) p.active

-- The steps of all handlers, in any order that the phases of the requests allow. The cluster's
-- requests and ticks may change its manager at any time.
pub data Step {F : Type 0} (rt : Runtime (Node F)) (ops : FloatOps F)
    : Proxy F → Proxy F → Type 0 where
  arrives :
      {p : Proxy F} (body : Option (Option Body)) (id : String) (now : ℕ)
      → Step rt ops p (arrive p body id now).1
  dispatches :
      {p : Proxy F} (r : Ref) (stream : Bool) (now : ℕ)
      → p.phase r ≡ selecting stream
      → Step rt ops p (dispatch rt ops p r stream now).1
  finishes :
      {p : Proxy F} (r : Ref) (stream flusher : Bool) (up : Upstream) (now : ℕ)
      → p.phase r ≡ waiting stream
      → Step rt ops p (finish p r stream flusher up now).1
  cancels : {p : Proxy F} (id : Option String) → Step rt ops p (handle_cancel p id).1
  cluster : {p : Proxy F} (m : Manager F) → Step rt ops p (record p { manager = m })

pub data Reach {F : Type 0} (rt : Runtime (Node F)) (ops : FloatOps F) (p : Proxy F)
    : Proxy F → Type 0 where
  here : Reach rt ops p p
  next : {q s : Proxy F} → Reach rt ops p q → Step rt ops q s → Reach rt ops p s

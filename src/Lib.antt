-- ===== src/Lib.antt =====
-- Verification of the hive: a cluster of machines that serve language models through Ollama.
--
-- The repository holds two servers. The cluster server (main.go, internal/) keeps a registry of nodes,
-- which agents fill by HTTP calls; a balancer selects a healthy node for a request; the proxy takes an
-- inference request, puts it into a bounded priority queue, selects a node, forwards the request, and
-- writes it to a history. The mesh server (hive-server-go/) keeps a map of peers that it learns of by
-- beacons and seeds, carries out jobs with a pool of workers, stores conversations of coding agents and
-- compresses them, and has a job queue with deadlines, circuit breakers for its peers, and a middleware
-- with a rate limit and an API key. It also answers like OpenAI's API, choosing among the models that are
-- loaded here and on the peers, and logs every request to an audit table. A manager of providers probes
-- this server and its peers for models and registers what it finds. A conversation asks the detector of
-- context windows for its budget, submits its requests as jobs and goes to the best peer when the queue
-- is full.
--
-- Files:
--   Prelude        shared names: Boolean tests, lists and slices over native numbers, Go's int
--                  as an integer of 64 bits where it may wrap, Go's maps as association lists
--   Queue          internal/queue/queue.go: Queue (enqueue, dequeue, peek, cancel) and History (add,
--                  recent for List, stats). Insertion and Order hold the lemmas on the insertion,
--                  Contract the invariant and the abstract queue, Cancel, Reversal and Recent the rest
--   Cluster        internal/cluster: Node is node.go, Manager is manager.go with its HTTP handlers;
--                  Registry, Events, Health and Offline hold what clients of the registry see
--   Balancer       internal/balancer/balancer.go: select_node and the strategies; Choice, Rotation;
--                  Sorting is a concrete sort for the parameter sort_slice
--   Proxy          internal/proxy/proxy.go: handleInference is arrive, dispatch and finish, since other
--                  handlers may run between its calls; Step interleaves them. Saturation, Service,
--                  Handler and Cancellation hold the theorems
--   Breaker        hive-server-go/circuit_breaker.go: the breaker and its manager; Machine, Registry
--   PriorityQueue  hive-server-go/priority_queue.go; Order, Accounts, Deadline
--   ModelRegistry  hive-server-go/model_registry.go; Loads
--   Logs           the ring buffer of hive-server-go/logs.go; Ring
--   Context        hive-server-go/model_context.go; Tables, and Budget and Detection for the theorems
--   Session        hive-server-go/coding_agent.go with its tables of db.go: Compress is the
--                  compression, Chat one message, Service the operations of the manager; Window,
--                  Tokens and Refusal hold the theorems, Rows and Stored the lemmas on rows
--   Mesh           hive-server-go/mesh.go and the two handlers of handlers.go that add a peer; Select
--                  reads the peers, Events are runs. Known, Fresh, Seen, Lasting and Best hold the
--                  theorems
--   Jobs           hive-server-go/queue.go: JSON values, jobs and token metrics; Calls is the request
--                  that a job becomes, Workers the channel and the workers as a step relation;
--                  Capacity, Kept and Metrics hold the theorems, Busy the count of busy workers
--   Clients        hive-server-go/handlers.go: the clients of the mesh server; Submission is
--                  submitJob over the clients, the jobs and the mesh; Room and Lost hold the theorems
--   Streams        hive-server-go/stream.go; Race
--   Audit          hive-server-go/audit.go and auditMiddleware of main.go: what is logged, Flusher the
--                  buffer and the flush loop, Detail the view of one request, Middleware; Trail and Waking
--                  hold the theorems on the loop
--   OpenAi         hive-server-go/openai_compat.go: the selection of a model and the messages; Stream,
--                  Direct, Listing and Replay are its replies. Search, Selection, Prompt, Ending, Relay,
--                  Asked, Listed and Owners hold the theorems
--   Providers      hive-server-go/provider.go: the probes; Cache is GetNodes, refresh and what reads the
--                  nodes. Offered and Kept hold the theorems
--   ResponseCache  hive-server-go/cache.go, with ristretto as an interface; Runs states what is relied
--                  on, and Provenance holds the theorem
--   Agent          cmd/agent/main.go against the cluster server; Silence
--   Auth           hive-server-go/auth.go; Window for the rate limiter, Access for the middleware
-- The Examples modules apply the theorems to concrete states.
--
-- Conventions. A mutable object that is shared (a request, a circuit breaker) lives in a heap, a
-- function from references; other state is passed along. A lock makes a method one step. Times are
-- numbers of nanoseconds (in Mesh, Jobs, Clients and Providers milliseconds, in Audit seconds), and an
-- argument of the call that reads the clock. JSON is decoded before a handler is called, and `none`
-- stands for a decoding error. float64 is a type with its operations, as parameters. A Go map is visited in the order of its list.
--
-- The loop that reverses the history runs on fuel, one round for each element; that this is enough is
-- part of the proof that it reverses. All other loops are recursion on a list.
--
-- Not modelled: sockets, HTTP transport, JSON and SQL, logging, metrics, the agent's probing of its
-- hardware and the dashboard. A table of the database is modelled as the list of its rows, ordered by
-- the time of their insertion.
pub mod Prelude
pub mod Queue
pub mod Cluster
pub mod Balancer
pub mod Proxy
pub mod Breaker
pub mod PriorityQueue
pub mod Auth
pub mod ModelRegistry
pub mod Logs
pub mod Context
pub mod Session
pub mod Mesh
pub mod Jobs
pub mod Clients
pub mod Streams
pub mod Audit
pub mod OpenAi
pub mod Agent
pub mod Providers
pub mod ResponseCache

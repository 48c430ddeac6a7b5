-- ===== src/Agent.antt =====
-- cmd/agent/main.go: the registration and the heartbeats of a node agent, against the handlers of the
-- cluster server (internal/cluster/manager.go). What the agent measures and what becomes of each HTTP
-- request are arguments.
pub mod Silence
mod Examples
use ollama_local_hives_clust.Prelude.{
  ℕ, zero, suc, String, Bool, true, false, Option, none, some, List, [], ◌∷◌, if◌then◌else◌,
}
use ollama_local_hives_clust.Cluster.Node.{Load}
use ollama_local_hives_clust.Cluster.Manager.{
  Manager, RegistrationPayload, HeartbeatPayload, Reply, method_not_allowed, bad_request,
  registered, beat_ok, deregistered, handle_register, handle_heartbeat,
}
use ollama_local_hives_clust.Cluster.Events.{Event, run}

-- A POST that does not reach the server, one that does and whose response is lost, and one that is
-- answered; with the server's two readings of its clock.
pub data Post : Type 0 where
  not_sent : Post
  unanswered answered : ℕ → ℕ → Post

-- What the agent measures for a heartbeat
pub record Measured (F : Type 0) : Type 0 where
  pub load : Load F
  pub models : Option (List String)

-- resp.StatusCode == 200
abbrev pub is_ok : Reply → Bool
is_ok method_not_allowed = false
is_ok bad_request = false
is_ok (registered _) = true
is_ok beat_ok = true
is_ok deregistered = true

module _ {F : Type 0} (idle : Load F) (reg : RegistrationPayload) where
  -- register, with whether it gives no error
  unfoldable pub register : Post → Manager F → Bool × Manager F
  register not_sent m = (false, m)
  register (unanswered now later) m = (false, (handle_register idle m true (some reg) now later).1)
  register (answered now later) m =
      let (reply, m') = handle_register idle m true (some reg) now later in (is_ok reply, m')

  abbrev pub heartbeat_of : Measured F → HeartbeatPayload F
  heartbeat_of x = record { hb_node_id = reg.reg_id; hb_load = x.load; hb_models = x.models }

  -- sendHeartbeat does not read the status of the response.
  unfoldable pub send_heartbeat : Measured F → Post → Manager F → Bool × Manager F
  send_heartbeat x not_sent m = (false, m)
  send_heartbeat x (unanswered now _) m =
      (false, (handle_heartbeat m true (some (heartbeat_of x)) now).1)
  send_heartbeat x (answered now _) m =
      (true, (handle_heartbeat m true (some (heartbeat_of x)) now).1)

  -- The attempts at the start, one for each of the requests that are given; main makes five.
  unfoldable pub register_attempts : List Post → Manager F → Bool × Manager F
  register_attempts [] m = (false, m)
  register_attempts (p ∷ ps) m =
      let (done, m') = register p m in
      let rest = register_attempts ps m' in if done then (true, m') else rest

  -- A round of the loop in main: the registration is sent only if the heartbeat gave an error.
  unfoldable pub agent_tick : Measured F → Post → Post → Manager F → Manager F
  agent_tick x beat again m =
      let (sent, m') = send_heartbeat x beat m in if sent then m' else (register again m').1

  -- Rounds, each after what else has reached the server
  pub record Round : Type 0 where
    pub others : List (Event F)
    pub measured : Measured F
    pub beat : Post
    pub again : Post

  unfoldable pub agent_run : Manager F → List Round → Manager F
  agent_run m [] = m
  agent_run m (r ∷ rs) = agent_run (agent_tick r.measured r.beat r.again (run idle m r.others)) rs

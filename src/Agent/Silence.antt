-- ===== src/Agent/Silence.antt =====
-- That a node agent (cmd/agent/main.go) whose heartbeats are answered does not bring its node back.
use ollama_local_hives_clust.Prelude.{
  ℕ, ◌+◌, ◌<◌, ◌≡◌, refl, String, Bool, true, false, none, some, List, [], ◌∷◌, All,
}
use ollama_local_hives_clust.Cluster.Node.{Node, Load, is_healthy}
use ollama_local_hives_clust.Cluster.Manager.{Manager, RegistrationPayload, get_node}
use ollama_local_hives_clust.Cluster.Events.{Event, heartbeat_call, step, run, incomplete}
use ollama_local_hives_clust.Cluster.Health.{if_healthy}
use ollama_local_hives_clust.Cluster.Offline.{
  NotOnline, registers, NotOnline-step, unhealthy, registered_is_healthy,
}
use ollama_local_hives_clust.Agent.{
  Post, not_sent, unanswered, answered, Measured, register, heartbeat_of, send_heartbeat,
  agent_tick, Round, agent_run,
}

abbrev pub is_answered : Post → Bool
is_answered not_sent = false
is_answered (unanswered _ _) = false
is_answered (answered _ _) = true

module _ {F : Type 0} (idle : Load F) where
  NotOnline-run :
      (es : List (Event F)) (m : Manager F) (k : String)
      → All (λ e. registers k e ≡ false) es
      → NotOnline (get_node m k)
      → NotOnline (get_node (run idle m es) k)
  unfolding run
  NotOnline-run [] m k all h = h
  NotOnline-run (e ∷ es) m k all h =
      NotOnline-run es (step idle m e) k all.1 (NotOnline-step idle m e k all.0 h)

module _ {F : Type 0} (idle : Load F) (reg : RegistrationPayload) where
  NotOnline-tick :
      (x : Measured F) (beat again : Post) (m : Manager F)
      → is_answered beat ≡ true
      → NotOnline (get_node m reg.reg_id)
      → NotOnline (get_node (agent_tick idle reg x beat again m) reg.reg_id)
  unfolding agent_tick send_heartbeat step
  NotOnline-tick x not_sent again m h off = cc
  NotOnline-tick x (unanswered now later) again m h off = cc
  NotOnline-tick x (answered now later) again m h off =
      NotOnline-step idle m (heartbeat_call true (some (heartbeat_of idle reg x)) now) reg.reg_id
        refl off

  -- As long as each heartbeat of an agent is answered, and no one else registers its node, a node that
  -- the server does not know or has taken offline stays out of the healthy nodes, whatever is answered
  -- and measured: the agent does not register again.
  pub agent_run-unhealthy :
      (rounds : List (Round idle reg)) (m : Manager F) (timeout now : ℕ)
      → NotOnline (get_node m reg.reg_id)
      → All
          (λ r. (is_answered r.beat ≡ true) × All (λ e. registers reg.reg_id e ≡ false) r.others)
          rounds
      → if_healthy timeout now (get_node (agent_run idle reg m rounds) reg.reg_id) ≡ none
  unfolding agent_run
  agent_run-unhealthy [] m timeout now off all = unhealthy timeout now (get_node m reg.reg_id) off
  agent_run-unhealthy (r ∷ rounds) m timeout now off all =
      agent_run-unhealthy rounds
        (agent_tick idle reg r.measured r.beat r.again (run idle m r.others)) timeout now
        (NotOnline-tick r.measured r.beat r.again (run idle m r.others) all.0.0
          (NotOnline-run idle r.others m reg.reg_id all.0.1 off))
        all.1

  -- A round whose heartbeat does not reach the server, and whose registration then does, makes the node
  -- healthy for the whole timeout, where the registration is complete.
  pub agent_tick-healthy :
      (x : Measured F) (now later t : ℕ) (m : Manager F)
      → incomplete reg ≡ false
      → t < now + m.heartbeat_timeout
      → (n : Node F) × (get_node (agent_tick idle reg x not_sent (answered now later) m) reg.reg_id
          ≡ some n)
        × (is_healthy n m.heartbeat_timeout t ≡ true)
  unfolding agent_tick send_heartbeat register step
  agent_tick-healthy x now later t m complete soon =
      registered_is_healthy idle m reg now later t complete soon

-- ===== src/Cluster/Offline.antt =====
-- How long a node that internal/cluster/manager.go has taken offline stays so.
use ollama_local_hives_clust.Prelude.{
  ℕ, ◌+◌, ◌<◌, String, ◌≡◌, refl, sym, Bool, true, false, Option, none, some, List, [], ◌∷◌, arith,
  if◌then◌else◌, str_eq, eq_iff, lookup, All, Bool-cases, inl, inr, subst,
}
use ollama_local_hives_clust.Cluster.Node.{
  Node, Load, is_online, is_healthy, update_load, set_models,
}
use ollama_local_hives_clust.Cluster.Manager.{
  Manager, mark, update_node_heartbeat, deregister_node, get_node, check_stale, with_models,
  RegistrationPayload, node_of, handle_register, handle_heartbeat, handle_deregister,
}
use ollama_local_hives_clust.Cluster.Registry.{
  registration, get-register, get-heartbeat, get-deregister, get-check_stale, get-with_models,
}
use ollama_local_hives_clust.Cluster.Events.{
  Event, register_call, heartbeat_call, deregister_call, tick, step, run, incomplete,
  register_cases,
}
use ollama_local_hives_clust.Cluster.Health.{if_healthy}

module _ {F : Type 0} where
  -- The node is gone or not online.
  abbrev pub NotOnline : Option (Node F) → Type 0
  NotOnline none = Unit
  NotOnline (some n) = is_online n.status ≡ false

  abbrev pub registers : String → Event F → Bool
  registers k (register_call true (some reg) _ _) = str_eq reg.reg_id k
  registers k _ = false

  pub unhealthy :
      (timeout now : ℕ) (o : Option (Node F)) → NotOnline o → if_healthy timeout now o ≡ none
  unfolding is_healthy
  unhealthy timeout now none h = refl
  unhealthy timeout now (some n) h = ground arith

  NotOnline-heartbeat :
      (m : Manager F) (id : String) (l : Load F) (now : ℕ) (k : String)
      → NotOnline (get_node m k)
      → NotOnline (get_node (update_node_heartbeat m id l now) k)
  unfolding update_load
  NotOnline-heartbeat m id l now k h = rw get-heartbeat (beat (get_node m k) h)
    where
      beat :
          (o : Option (Node F))
          → NotOnline o
          → NotOnline (elim o [
            | none ↦ none
            | some n ↦ some (if str_eq id k then update_load n l now else n)
          ])
      beat none h = tt
      beat (some n) h = ground arith

  NotOnline-with_models :
      (m : Manager F) (id : String) (ms : Option (List String)) (k : String)
      → NotOnline (get_node m k)
      → NotOnline (get_node (with_models m id ms) k)
  unfolding set_models
  NotOnline-with_models m id none k h = h
  NotOnline-with_models m id (some ms) k h = rw get-with_models (kept (get_node m k) h)
    where
      kept :
          (o : Option (Node F))
          → NotOnline o
          → NotOnline
              (elim o [ none ↦ none | some n ↦ some (if str_eq id k then set_models n ms else n) ])
      kept none h = tt
      kept (some n) h = ground arith

  NotOnline-check_stale :
      (m : Manager F) (now : ℕ) (k : String)
      → NotOnline (get_node m k)
      → NotOnline (get_node (check_stale m now) k)
  NotOnline-check_stale m now k h = rw get-check_stale (kept (get_node m k) h)
    where
      kept :
          (o : Option (Node F))
          → NotOnline o
          → NotOnline (elim o [ none ↦ none | some n ↦ some (mark m.heartbeat_timeout now n) ])
      kept none h = tt
      kept (some n) h = ground arith

  NotOnline-deregister :
      (m : Manager F) (id k : String)
      → NotOnline (get_node m k)
      → NotOnline (get_node (deregister_node m id) k)
  NotOnline-deregister m id k h =
      rw get-deregister (elim (Bool-cases (str_eq id k)) [ inl e ↦ rw e tt | inr e ↦ rw e h ])

module _ {F : Type 0} (idle : Load F) where
  pub NotOnline-step :
      (m : Manager F) (e : Event F) (k : String)
      → registers k e ≡ false
      → NotOnline (get_node m k)
      → NotOnline (get_node (step idle m e) k)
  unfolding step handle_heartbeat handle_deregister handle_register
  NotOnline-step m (register_call false body now later) k r h = h
  NotOnline-step m (register_call true none now later) k r h = h
  NotOnline-step m (register_call true (some reg) now later) k r h =
      elim (register_cases idle m reg now later) [
        | inl (_, e) ↦ subst (λ t. NotOnline (get_node t k)) (sym e) h
        | inr (_, e) ↦
            subst (λ t. NotOnline (get_node t k)) (sym e)
              (rw (get-register m (node_of idle reg) now later k, r) h)
      ]
  NotOnline-step m (heartbeat_call false body now) k r h = h
  NotOnline-step m (heartbeat_call true none now) k r h = h
  NotOnline-step m (heartbeat_call true (some hb) now) k r h =
      NotOnline-with_models (update_node_heartbeat m hb.hb_node_id hb.hb_load now) hb.hb_node_id
        hb.hb_models k (NotOnline-heartbeat m hb.hb_node_id hb.hb_load now k h)
  NotOnline-step m (deregister_call false body) k r h = h
  NotOnline-step m (deregister_call true none) k r h = h
  NotOnline-step m (deregister_call true (some id)) k r h = NotOnline-deregister m id k h
  NotOnline-step m (tick now) k r h = NotOnline-check_stale m now k h

  -- A node that is not online stays out of the healthy nodes through any requests and ticks that do
  -- not register it again, however many heartbeats it sends.
  pub offline_stays :
      (m : Manager F) (es : List (Event F)) (k : String) (timeout now : ℕ)
      → NotOnline (get_node m k)
      → All (λ e. registers k e ≡ false) es
      → if_healthy timeout now (get_node (run idle m es) k) ≡ none
  unfolding run
  offline_stays m [] k timeout now h all = unhealthy timeout now (get_node m k) h
  offline_stays m (e ∷ es) k timeout now h all =
      offline_stays (step idle m e) es k timeout now (NotOnline-step m e k all.0 h) all.1

  -- A registration with an id and an address makes the node healthy for the whole timeout, whatever
  -- was registered before.
  pub registered_is_healthy :
      (m : Manager F) (reg : RegistrationPayload) (now later t : ℕ)
      → incomplete reg ≡ false
      → t < now + m.heartbeat_timeout
      → (n : Node F) × (get_node (step idle m (register_call true (some reg) now later)) reg.reg_id
          ≡ some n)
        × (is_healthy n m.heartbeat_timeout t ≡ true)
  unfolding is_healthy node_of
  registered_is_healthy m reg now later t complete soon =
      elim (register_cases idle m reg now later) [
        | inl (bad, _) ↦ cc
        | inr (_, e) ↦ (
          registration (lookup reg.reg_id m.nodes) (node_of idle reg) now later,
          subst
              (λ t.
                get_node t reg.reg_id
                ≡ some (registration (lookup reg.reg_id m.nodes) (node_of idle reg) now later))
              (sym e)
              (rw (
                get-register m (node_of idle reg) now later reg.reg_id,
                (eq_iff reg.reg_id reg.reg_id).1 refl,
              )),
          fresh (lookup reg.reg_id m.nodes),
        )
      ]
    where
      fresh :
          (o : Option (Node F))
          → is_healthy (registration o (node_of idle reg) now later) m.heartbeat_timeout t ≡ true
      fresh none = ground arith
      fresh (some n) = ground arith

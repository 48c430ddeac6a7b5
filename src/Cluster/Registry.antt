-- ===== src/Cluster/Registry.antt =====
-- What a client of the registry (internal/cluster/manager.go) sees of one node after each call.
use ollama_local_hives_clust.Prelude.{
  ℕ, String, ◌≡◌, refl, Option, none, some, List, [], ◌∷◌, arith, if◌then◌else◌, str_eq, eq_iff,
  Map, lookup, insert, delete, lookup-insert, lookup-delete, Option-cases, inl, inr,
}
use ollama_local_hives_clust.Cluster.Node.{Node, Load, update_load, set_models}
use ollama_local_hives_clust.Cluster.Manager.{
  Manager, notified, merged, joined, mark, mark_all, register_node, update_node_heartbeat,
  deregister_node, get_node, check_stale, with_models,
}

module _ {F : Type 0} where
  -- What registration makes of the entry that was there.
  abbrev pub registration : Option (Node F) → Node F → ℕ → ℕ → Node F
  registration none node now later = joined node now later
  registration (some existing) node now later = merged existing node now

  pub nodes-notified : (m : Manager F) → (notified m).nodes ≡ m.nodes
  nodes-notified m = ground arith

  pub nodes-register :
      (m : Manager F) (node : Node F) (now later : ℕ)
      → (register_node m node now later).nodes
        ≡ insert node.id (registration (lookup node.id m.nodes) node now later) m.nodes
  unfolding register_node
  nodes-register m node now later = elim (Option-cases (lookup node.id m.nodes)) [
    | inl e ↦ rw (nodes-notified, e)
    | inr (n, e) ↦ rw (nodes-notified, e)
  ]

  -- After `RegisterNode` the node's entry is online and fresh: the old entry with the new
  -- address, hardware, capacity and models, or the new node itself. Other nodes are as before.
  pub get-register :
      (m : Manager F) (node : Node F) (now later : ℕ) (k : String)
      → get_node (register_node m node now later) k ≡ (
          if str_eq node.id k
          then some (registration (lookup node.id m.nodes) node now later)
          else get_node m k)
  unfolding get_node register_node
  get-register m node now later k = rw nodes-register (lookup-insert node.id k _ m.nodes)

  -- `UpdateNodeHeartbeat` sets the load and the time of a known node and nothing else.
  pub get-heartbeat :
      (m : Manager F) (id : String) (l : Load F) (now : ℕ) (k : String)
      → get_node (update_node_heartbeat m id l now) k ≡ (elim (get_node m k) [
        | none ↦ none
        | some n ↦ some (if str_eq id k then update_load n l now else n)
      ])
  unfolding get_node update_node_heartbeat
  get-heartbeat m id l now k = elim (Option-cases (lookup id m.nodes)) [
    | inl e ↦ ground (arith, eq_iff id k)
    | inr (n, e) ↦ ground (
      arith,
      eq_iff id k,
      lookup-insert id k (update_load n l now) m.nodes,
      nodes-notified (record m { nodes = insert id (update_load n l now) m.nodes }),
    )
  ]

  pub get-deregister :
      (m : Manager F) (id k : String)
      → get_node (deregister_node m id) k ≡ (if str_eq id k then none else get_node m k)
  unfolding get_node deregister_node
  get-deregister m id k = elim (Option-cases (lookup id m.nodes)) [
    | inl e ↦ ground (arith, eq_iff id k)
    | inr (n, e) ↦ ground (
      arith,
      eq_iff id k,
      lookup-delete id k m.nodes,
      nodes-notified (record m { nodes = delete id m.nodes }),
    )
  ]

  lookup-mark_all :
      (timeout now : ℕ) (nodes : Map (Node F)) (k : String)
      → lookup k (mark_all timeout now nodes)
        ≡ (elim (lookup k nodes) [ none ↦ none | some n ↦ some (mark timeout now n) ])
  unfolding lookup
  lookup-mark_all timeout now [] k = refl
  lookup-mark_all timeout now ((id, n) ∷ nodes) k =
      ground (arith, lookup-mark_all timeout now nodes k)

  pub get-check_stale :
      (m : Manager F) (now : ℕ) (k : String)
      → get_node (check_stale m now) k
        ≡ (elim (get_node m k) [ none ↦ none | some n ↦ some (mark m.heartbeat_timeout now n) ])
  unfolding get_node check_stale
  get-check_stale m now k = rw nodes-notified (lookup-mark_all m.heartbeat_timeout now m.nodes k)

  pub get-with_models :
      (m : Manager F) (id : String) (ms : List String) (k : String)
      → get_node (with_models m id (some ms)) k ≡ (elim (get_node m k) [
        | none ↦ none
        | some n ↦ some (if str_eq id k then set_models n ms else n)
      ])
  unfolding get_node
  get-with_models m id ms k = elim (Option-cases (lookup id m.nodes)) [
    | inl e ↦ ground (arith, eq_iff id k)
    | inr (n, e) ↦ ground (arith, eq_iff id k, lookup-insert id k (set_models n ms) m.nodes)
  ]

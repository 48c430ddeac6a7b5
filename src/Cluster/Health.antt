-- ===== src/Cluster/Health.antt =====
-- Which nodes of internal/cluster/manager.go count as healthy.
use ollama_local_hives_clust.Prelude.{
  ℕ, ◌+◌, ◌≤◌, ◌<◌, String, ◌≡◌, ◌↔◌, refl, Bool, true, false, Option, none, some, List, [], ◌∷◌,
  arith, if◌then◌else◌, str_eq, eq_iff, Map, lookup, Bool-cases, inl, inr,
}
use ollama_local_hives_clust.Cluster.Node.{
  Node, NodeStatus, unset, online, offline, drain, is_online, is_healthy,
}
use ollama_local_hives_clust.Cluster.Manager.{
  Manager, mark, keep_healthy, values, get_healthy_nodes, get_node, check_stale,
}
use ollama_local_hives_clust.Cluster.Registry.{get-check_stale}
use ollama_local_hives_clust.Cluster.Events.{Consistent, Fresh}

is_online-online : (s : NodeStatus) → is_online s ≡ true → s ≡ online
is_online-online online h = refl
is_online-online unset h = cc
is_online-online offline h = cc
is_online-online drain h = cc

module _ {F : Type 0} where
  -- The first node of a list with the id.
  pub find_id : String → List (Node F) → Option (Node F)
  find_id k [] = none
  find_id k (n ∷ ns) = if str_eq n.id k then some n else find_id k ns

  abbrev pub keep_if : Bool → Node F → Option (Node F)
  keep_if true n = some n
  keep_if false n = none

  abbrev pub if_healthy : ℕ → ℕ → Option (Node F) → Option (Node F)
  if_healthy timeout now none = none
  if_healthy timeout now (some n) = keep_if (is_healthy n timeout now) n

  find-Fresh :
      (k : String) (timeout now : ℕ) (m : Map (Node F))
      → Consistent m
      → Fresh k m
      → find_id k (keep_healthy timeout now (values m)) ≡ none
  unfolding find_id is_healthy
  find-Fresh k timeout now [] c f = refl
  find-Fresh k timeout now ((i, n) ∷ m) c f =
      ground (arith, find-Fresh k timeout now m c.2 f.1, eq_iff i k, eq_iff n.id k)

  find-keep_healthy :
      (k : String) (timeout now : ℕ) (m : Map (Node F))
      → Consistent m
      → find_id k (keep_healthy timeout now (values m)) ≡ if_healthy timeout now (lookup k m)
  unfolding find_id lookup is_healthy
  find-keep_healthy k timeout now [] c = refl
  find-keep_healthy k timeout now ((i, n) ∷ m) c = ground (
    arith,
    find-keep_healthy k timeout now m c.2,
    eq_iff i k,
    eq_iff n.id k,
    find-Fresh i timeout now m c.2 c.1,
  )

  -- In a consistent registry `GetHealthyNodes` gives, for each id, the registered node with that
  -- id if it is online and was heard of within the timeout, and otherwise no node with that id.
  find-get_healthy_nodes :
      (m : Manager F) (now : ℕ) (k : String)
      → Consistent m.nodes
      → find_id k (get_healthy_nodes m now) ≡ if_healthy m.heartbeat_timeout now (get_node m k)
  unfolding get_healthy_nodes get_node
  find-get_healthy_nodes m now k c = find-keep_healthy k m.heartbeat_timeout now m.nodes c

  is_healthy_iff :
      (n : Node F) (timeout now : ℕ)
      → (is_healthy n timeout now ≡ true)
        ↔ ((n.status ≡ online) × (now < n.last_heartbeat + timeout))
  unfolding is_healthy
  is_healthy_iff n timeout now = (
    λ h. (is_online-online n.status (ground (arith, h)), ground (arith, h)),
    λ (s, soon). rw s (ground (arith, soon)),
  )

  if_healthy_iff :
      (timeout now : ℕ) (o : Option (Node F)) (n : Node F)
      → (if_healthy timeout now o ≡ some n)
        ↔ ((o ≡ some n) × (n.status ≡ online) × (now < n.last_heartbeat + timeout))
  if_healthy_iff timeout now none n = (λ h. cc, λ (h, s, soon). cc)
  if_healthy_iff timeout now (some x) n = (
    λ h. elim (Bool-cases (is_healthy x timeout now)) [
      | inl well ↦
          let held : some x ≡ some n = rw well at h in
          let same : x ≡ n = cc in
          let (s, soon) = (is_healthy_iff n timeout now).0 (rw same at well) in (held, s, soon)
      | inr ill ↦ let absent : ◌≡◌ {A = Option (Node F)} none (some n) = rw ill at h in cc
    ],
    λ (held, s, soon).
        let same : x ≡ n = cc in
        let well : is_healthy n timeout now ≡ true = (is_healthy_iff n timeout now).1 (s, soon) in
        rw (same, well) refl,
  )

  -- In a consistent registry `GetHealthyNodes` gives a node as the one with an id exactly if it is
  -- registered under that id, its status is online, and its last heartbeat is less than the timeout ago.
  pub get_healthy_nodes-online :
      (m : Manager F) (now : ℕ) (k : String) (n : Node F)
      → Consistent m.nodes
      → (find_id k (get_healthy_nodes m now) ≡ some n) ↔ (
          (get_node m k ≡ some n)
          × (n.status ≡ online)
          × (now < n.last_heartbeat + m.heartbeat_timeout))
  get_healthy_nodes-online m now k n c =
      rw (find-get_healthy_nodes m now k c)
        (if_healthy_iff m.heartbeat_timeout now (get_node m k) n)

  if_healthy-mark :
      (timeout now : ℕ) (n : Node F)
      → if_healthy timeout now (some (mark timeout now n)) ≡ if_healthy timeout now (some n)
  unfolding is_healthy
  if_healthy-mark timeout now n = ground arith

  -- A tick of the checker takes offline no node that is healthy at that time: for every id the
  -- healthy node, or that there is none, is as before. And a node that is online after the tick was
  -- heard of at most the timeout ago.
  pub check_stale-healthy :
      (m : Manager F) (now : ℕ) (k : String)
      → (if_healthy m.heartbeat_timeout now (get_node (check_stale m now) k)
          ≡ if_healthy m.heartbeat_timeout now (get_node m k))
        × ((n : Node F)
            → get_node (check_stale m now) k ≡ some n
            → is_online n.status ≡ true
            → now ≤ n.last_heartbeat + m.heartbeat_timeout)
  check_stale-healthy m now k = rw get-check_stale (marked (get_node m k))
    where
      marked :
          (o : Option (Node F))
          → (if_healthy m.heartbeat_timeout now
                (elim o [ none ↦ none | some n ↦ some (mark m.heartbeat_timeout now n) ])
              ≡ if_healthy m.heartbeat_timeout now o)
            × ((n : Node F)
                → (elim o as (λ x. Option (Node F)) [
                  | none ↦ none
                  | some w ↦ some (mark m.heartbeat_timeout now w)
                ])
                  ≡ some n
                → is_online n.status ≡ true
                → now ≤ n.last_heartbeat + m.heartbeat_timeout)
      marked none = (refl, λ n e. cc)
      marked (some w) = (if_healthy-mark m.heartbeat_timeout now w, λ n e on. ground arith)

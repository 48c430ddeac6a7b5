-- ===== src/Mesh/Select.antt =====
-- GetAlivePeers, GetBestPeer, GetCachedPeerModels and MapModel of hive-server-go/mesh.go.
use ollama_local_hives_clust.Prelude.{
  ℕ, ◌+◌, String, Bool, true, ◌&&◌, ◌||◌, Option, none, some, List, [], ◌∷◌, ltb, if◌then◌else◌,
  Map, lookup, insert, str_eq, ℤ, pos, ltb_ℤ, eqb_ℤ, add64, sub64,
}
use ollama_local_hives_clust.Mesh.{LoadOps, PeerInfo, MeshDiscovery, peer_timeout, max_int, or_else}

module _ {F : Type 0} (ops : LoadOps F) where
  unfoldable pub calc_load : ℤ → ℤ → ℤ → F
  calc_load running pending max_concurrent =
      if eqb_ℤ max_concurrent (pos 0)
      then ops.one_load
      else let l = ops.div_load (ops.of_int (add64 running pending)) (ops.of_int max_concurrent) in
        if ops.less_load ops.one_load l then ops.one_load else l

  -- now() - p.LastSeen < 30
  abbrev pub is_alive : ℕ → PeerInfo F → Bool
  is_alive now p = ltb now (p.last_seen + peer_timeout)

  unfoldable pub refreshed : PeerInfo F → PeerInfo F
  refreshed p = record p {
    alive = true;
    available_cap = max_int (pos 0) (sub64 p.max_concurrent p.running_jobs);
    load = calc_load p.running_jobs p.pending_jobs p.max_concurrent;
  }

  unfoldable pub alive_among : ℕ → Map (PeerInfo F) → List (PeerInfo F)
  alive_among now [] = []
  alive_among now (e ∷ es) =
      let rest = alive_among now es in if is_alive now e.1 then refreshed e.1 ∷ rest else rest

  unfoldable pub refreshed_peers : ℕ → Map (PeerInfo F) → Map (PeerInfo F)
  refreshed_peers now [] = []
  refreshed_peers now (e ∷ es) =
      (if is_alive now e.1 then (e.0, refreshed e.1) else e) ∷ refreshed_peers now es

  -- The alive peers; their entries are changed on the way.
  unfoldable pub get_alive_peers : ℕ → MeshDiscovery F → List (PeerInfo F) × MeshDiscovery F
  get_alive_peers now m =
      (alive_among now m.peers, record m { peers = refreshed_peers now m.peers })

  -- p.Load < best.Load || p.Load == best.Load && p.AvailableCap > best.AvailableCap
  abbrev pub better : PeerInfo F → PeerInfo F → Bool
  better p best =
      ops.less_load p.load best.load
      || (ops.same_load p.load best.load && ltb_ℤ best.available_cap p.available_cap)

  unfoldable pub best_of : Option (PeerInfo F) → List (PeerInfo F) → Option (PeerInfo F)
  best_of best [] = best
  best_of best (p ∷ ps) =
      let next = elim best as (λ _. Option (PeerInfo F)) [
        | none ↦ some p
        | some b ↦ if better p b then some p else best
      ] in
      best_of (if ltb_ℤ (pos 0) p.available_cap then next else best) ps

  unfoldable pub get_best_peer : ℕ → MeshDiscovery F → Option (PeerInfo F)
  get_best_peer now m = best_of none (get_alive_peers now m).0

  -- GetCachedPeerModels, with the names that a fetch would give, empty ones included
  unfoldable pub non_empty : List String → List String
  non_empty [] = []
  non_empty (n ∷ ns) = let rest = non_empty ns in if str_eq n "" then rest else n ∷ rest

  unfoldable pub get_cached_peer_models :
      (String → Option (List String))
      → PeerInfo F
      → ℕ
      → MeshDiscovery F
      → List String × MeshDiscovery F
  get_cached_peer_models fetch p now m =
      let fetched = elim (fetch p.endpoint) as (λ _. List String) [
        | none ↦ []
        | some names ↦ non_empty names
      ] in
      let anew : List String × MeshDiscovery F = (
        fetched,
        record m {
          peer_models = insert p.server_id fetched m.peer_models;
          peer_models_time = insert p.server_id now m.peer_models_time;
        },
      ) in
      elim (lookup p.server_id m.peer_models) [
        | none ↦ anew
        | some names ↦
            if ltb now (or_else (lookup p.server_id m.peer_models_time) 0 + 30000)
            then (names, m)
            else anew
      ]

  unfoldable pub map_model : MeshDiscovery F → String → String
  map_model m model = or_else (lookup model m.model_map) model

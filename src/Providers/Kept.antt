-- ===== src/Providers/Kept.antt =====
-- What GetNodes of hive-server-go/provider.go gives between two refreshes of its cache.
use ollama_local_hives_clust.Prelude.{
  ℕ, ◌+◌, ◌≤◌, ◌≡◌, refl, ap, String, true, false, Option, List, [], ◌∷◌, map, arith,
}
use ollama_local_hives_clust.Mesh.{PeerInfo}
use ollama_local_hives_clust.ModelRegistry.{ModelRegistry}
use ollama_local_hives_clust.Providers.{
  NodeInfo, ProviderManager, Web, detect_peer_providers, detect_local_providers,
}
use ollama_local_hives_clust.Providers.Cache.{
  peer_nodes, self_node, refresh, is_old, get_nodes, get_aggregated_models,
}

abbrev pub node_ids : {F : Type 0} → List (NodeInfo F) → List String
node_ids ns = map (λ n. n.id) ns

module _ {F : Type 0} (zero_load : F) (web : Web) where
  peer_nodes-ids :
      (self : String) (peers : List (PeerInfo F)) (registry : Option ModelRegistry)
      → node_ids (peer_nodes zero_load web self peers registry).0 ≡ map (λ p. p.server_id) peers
  unfolding peer_nodes
  peer_nodes-ids self [] registry = refl
  peer_nodes-ids self (p ∷ ps) registry =
      ap (λ r. p.server_id ∷ r)
        (peer_nodes-ids self ps (detect_peer_providers web self p registry).1)

  get_nodes-old :
      (peers : List (PeerInfo F)) (now : ℕ) (pm : ProviderManager F)
      → is_old now pm ≡ true
      → get_nodes zero_load web peers now pm
        ≡ ((refresh zero_load web peers now pm).nodes_cache, refresh zero_load web peers now pm)
  unfolding get_nodes
  get_nodes-old peers now pm old = rw (old, get_nodes) refl

  get_nodes-fresh :
      (peers : List (PeerInfo F)) (now : ℕ) (pm : ProviderManager F)
      → is_old now pm ≡ false
      → get_nodes zero_load web peers now pm ≡ (pm.nodes_cache, pm)
  unfolding get_nodes
  get_nodes-fresh peers now pm fresh = rw (fresh, get_nodes) refl

  refresh-fresh :
      (peers : List (PeerInfo F)) (now later : ℕ) (pm : ProviderManager F)
      → later ≤ now + pm.interval
      → is_old later (refresh zero_load web peers now pm) ≡ false
  unfolding refresh
  refresh-fresh peers now later pm soon = ground (arith, soon)

  -- A second call within the interval.
  get_nodes-again :
      (peers others : List (PeerInfo F)) (now later : ℕ) (pm : ProviderManager F)
      → is_old now pm ≡ true
      → later ≤ now + pm.interval
      → get_nodes zero_load web others later (get_nodes zero_load web peers now pm).1
        ≡ get_nodes zero_load web peers now pm
  get_nodes-again peers others now later pm old soon = rw (get_nodes-old peers now pm old) (
      get_nodes-fresh others later (refresh zero_load web peers now pm)
        (refresh-fresh peers now later pm soon))

  get_nodes-ids :
      (peers : List (PeerInfo F)) (now : ℕ) (pm : ProviderManager F)
      → is_old now pm ≡ true
      → node_ids (get_nodes zero_load web peers now pm).0
        ≡ pm.self_id ∷ map (λ p. p.server_id) peers
  unfolding refresh self_node
  get_nodes-ids peers now pm old =
      rw (get_nodes-old peers now pm old) (
        ap (λ r. pm.self_id ∷ r)
          (peer_nodes-ids pm.self_id peers (detect_local_providers web pm).1))

  -- Where the cache is older than the interval, GetNodes gives this server and the given peers, in
  -- their order, and within the interval every later call gives the same nodes and changes nothing,
  -- whatever peers it is given. Where GetAggregatedModels is what meets the old cache instead, those
  -- later calls of GetNodes give this server alone.
  pub get_nodes-get_aggregated_models :
      (peers others : List (PeerInfo F)) (now later : ℕ) (pm : ProviderManager F)
      → is_old now pm ≡ true
      → later ≤ now + pm.interval
      → (node_ids (get_nodes zero_load web peers now pm).0
          ≡ pm.self_id ∷ map (λ p. p.server_id) peers)
        × (get_nodes zero_load web others later (get_nodes zero_load web peers now pm).1
            ≡ get_nodes zero_load web peers now pm)
        × (node_ids
              (get_nodes zero_load web others later
                (get_aggregated_models zero_load web now pm).1).0
            ≡ pm.self_id ∷ [])
  unfolding get_aggregated_models
  get_nodes-get_aggregated_models peers others now later pm old soon = (
    get_nodes-ids peers now pm old,
    get_nodes-again peers others now later pm old soon,
    rw (get_nodes-again [] others now later pm old soon) (get_nodes-ids [] now pm old),
  )

-- ===== src/Providers/Cache.antt =====
-- The cache of hive-server-go/provider.go: GetNodes, refresh, and what is read of the nodes.
use Prim.Native.String
use ollama_local_hives_clust.Prelude.{
  ℕ, ◌-◌, ◌*◌, ◌/◌, String, Bool, true, false, Option, none, some, List, [], ◌∷◌, ◌++◌, map, ltb,
  if◌then◌else◌, Map, lookup, insert, pos,
}
use ollama_local_hives_clust.Mesh.{PeerInfo}
use ollama_local_hives_clust.ModelRegistry.{ModelRegistry}
use ollama_local_hives_clust.Providers.{
  ProviderType, text_of, ModelInfo, ProviderInfo, NodeInfo, ProviderManager, Web,
  detect_local_providers, detect_peer_providers, joined,
}

-- seen[key] for the texts of the keys, and what is appended for a new one
pub record Collected : Type 0 where
  pub seen : Map Bool
  pub all : List ModelInfo

abbrev pub is_seen : String → Map Bool → Bool
is_seen key seen = elim (lookup key seen) [ none ↦ false | some b ↦ b ]

abbrev pub key_of : ModelInfo → String
key_of m = joined m.provider ":" m.name

unfoldable pub collect : ModelInfo → Collected → Collected
collect m c =
    if is_seen (key_of m) c.seen
    then c
    else record { seen = insert (key_of m) true c.seen; all = c.all ++ m ∷ [] }

unfoldable pub collect_models : List ModelInfo → Collected → Collected
collect_models [] c = c
collect_models (m ∷ ms) c = collect_models ms (collect m c)

unfoldable pub collect_providers : List ProviderInfo → Collected → Collected
collect_providers [] c = c
collect_providers (p ∷ ps) c = collect_providers ps (collect_models p.models c)

-- seen[p.Type] = true, with the type itself as the value
unfoldable pub collect_types : List ProviderInfo → Map ProviderType → Map ProviderType
collect_types [] seen = seen
collect_types (p ∷ ps) seen = collect_types ps (insert (text_of p.type) p.type seen)

module _ {F : Type 0} where
  unfoldable pub collect_node_types : List (NodeInfo F) → Map ProviderType → Map ProviderType
  collect_node_types [] seen = seen
  collect_node_types (n ∷ ns) seen = collect_node_types ns (collect_types n.providers seen)

  unfoldable pub collect_nodes : List (NodeInfo F) → Collected → Collected
  collect_nodes [] c = c
  collect_nodes (n ∷ ns) c = collect_nodes ns (collect_providers n.providers c)

  -- time.Unix(int64(p.LastSeen), 0) cuts the time to whole seconds.
  abbrev pub is_alive : ℕ → PeerInfo F → Bool
  is_alive now p = ltb (now - (p.last_seen / 1000) * 1000) 30000

  -- time.Since(pm.lastRefresh) > pm.interval
  abbrev pub is_old : ℕ → ProviderManager F → Bool
  is_old now pm = elim pm.last_refresh [ none ↦ true | some t ↦ ltb pm.interval (now - t) ]

module _ {F : Type 0} (zero_load : F) (web : Web) where
  unfoldable pub peer_nodes :
      String → List (PeerInfo F) → Option ModelRegistry → List (NodeInfo F) × Option ModelRegistry
  peer_nodes self [] registry = ([], registry)
  peer_nodes self (p ∷ ps) registry =
      let (providers, registry') = detect_peer_providers web self p registry in
      let (nodes, registry'') = peer_nodes self ps registry' in
      let node : NodeInfo F = record {
        id = p.server_id;
        endpoint = p.endpoint;
        is_self = false;
        alive = is_alive (web.asked_at p.endpoint) p;
        load = p.load;
        clients = p.clients;
        providers = providers;
      } in
      (node ∷ nodes, registry'')

  unfoldable pub self_node : ProviderManager F → NodeInfo F
  self_node pm = record {
    id = pm.self_id;
    endpoint = String.◌++◌ "http://localhost:" (web.port_text pm.self_port);
    is_self = true;
    alive = true;
    load = zero_load;
    clients = pos 0;
    providers = (detect_local_providers web pm).0;
  }

  unfoldable pub refresh : List (PeerInfo F) → ℕ → ProviderManager F → ProviderManager F
  refresh peers now pm =
      let (providers, registry) = detect_local_providers web pm in
      let (nodes, registry') = peer_nodes pm.self_id peers registry in
      record pm {
        last_refresh = some now;
        nodes_cache = self_node pm ∷ nodes;
        model_registry = registry';
      }

  -- `now` is when GetNodes is called and when the refresh begins.
  unfoldable pub get_nodes :
      List (PeerInfo F) → ℕ → ProviderManager F → List (NodeInfo F) × ProviderManager F
  get_nodes peers now pm =
      let pm' = if is_old now pm then refresh peers now pm else pm in (pm'.nodes_cache, pm')

  unfoldable pub get_aggregated_models : ℕ → ProviderManager F → List ModelInfo × ProviderManager F
  get_aggregated_models now pm =
      let (nodes, pm') = get_nodes [] now pm in
      ((collect_nodes nodes (record { seen = []; all = [] })).all, pm')

  unfoldable pub get_provider_types : ℕ → ProviderManager F → List ProviderType × ProviderManager F
  get_provider_types now pm =
      let (nodes, pm') = get_nodes [] now pm in (map (λ e. e.1) (collect_node_types nodes []), pm')

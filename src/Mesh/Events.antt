-- ===== src/Mesh/Events.antt =====
-- What can happen to the peers of hive-server-go/mesh.go, one event after the other.
use ollama_local_hives_clust.Prelude.{
  ℕ, Bool, ◌&&◌, ◌||◌, String, false, Option, some, List, [], ◌∷◌, str_eq,
}
use ollama_local_hives_clust.Mesh.{
  LoadOps, PeerInfo, MeshDiscovery, Beacon, SeedStatus, handle_beacon, probe_seed, unregister_peer,
  cleanup, health_answered, is_complete, handle_peer_introduce, handle_peer_register, PeerBody,
}
use ollama_local_hives_clust.Mesh.Select.{get_alive_peers}

-- What happens to the mesh: a beacon, a seed's answers, an introduction, a registration through the
-- API, a removal, a tick of the clean-up, an answered health check, a look at the alive peers.
pub data MeshEvent (F : Type 0) : Type 0 where
  beacon_came : Beacon → ℕ → MeshEvent F
  seed_probed : String → Option SeedStatus → Option (List (PeerInfo F)) → ℕ → MeshEvent F
  peer_introduced : Option PeerBody → ℕ → MeshEvent F
  peer_posted : Option PeerBody → ℕ → MeshEvent F
  peer_removed : String → MeshEvent F
  cleaned_up : ℕ → MeshEvent F
  health_checked : String → ℕ → MeshEvent F
  peers_listed : ℕ → MeshEvent F

module _ {F : Type 0} (ops : LoadOps F) where
  abbrev pub mesh_step : MeshEvent F → MeshDiscovery F → MeshDiscovery F
  mesh_step (beacon_came b now) m = handle_beacon ops b now m
  mesh_step (seed_probed url status listed now) m = (probe_seed ops url status listed now m).1
  mesh_step (peer_introduced body now) m = (handle_peer_introduce ops body now m).1
  mesh_step (peer_posted body now) m = (handle_peer_register ops body now m).1
  mesh_step (peer_removed id) m = unregister_peer ops id m
  mesh_step (cleaned_up now) m = cleanup ops now m
  mesh_step (health_checked id now) m = health_answered ops id now m
  mesh_step (peers_listed now) m = (get_alive_peers ops now m).1

  abbrev pub mesh_run : List (MeshEvent F) → MeshDiscovery F → MeshDiscovery F
  mesh_run [] m = m
  mesh_run (e ∷ es) m = mesh_run es (mesh_step e m)

  -- The event is a registration through the API under the server's own id.
  abbrev pub names_self : MeshEvent F → MeshDiscovery F → Bool
  names_self (peer_posted (some b) now) m = is_complete b && str_eq b.server_id m.server_id
  names_self _ m = false

  -- One of the events is, at its time.
  abbrev pub self_named : List (MeshEvent F) → MeshDiscovery F → Bool
  self_named [] m = false
  self_named (e ∷ es) m = names_self e m || self_named es (mesh_step e m)

-- ===== src/Mesh/Lasting.antt =====
-- How long a beacon keeps a peer among the alive peers of hive-server-go/mesh.go.
use ollama_local_hives_clust.Prelude.{
  ℕ, ◌+◌, ◌<◌, ◌≤◌, ◌≡◌, refl, String, true, false, List, [], ◌∷◌, lookup, lookup-insert, subst,
  str_eq, eq_iff, arith, ◌∙◌, lookup-delete, All,
}
use ollama_local_hives_clust.Mesh.{
  LoadOps, MeshDiscovery, Beacon, unregister_peer, handle_beacon, is_foreign, beacon_peer, or_else,
  peer_timeout, cleanup,
}
use ollama_local_hives_clust.Mesh.Known.{Known, beacon_peer-id}
use ollama_local_hives_clust.Mesh.Events.{
  MeshEvent, beacon_came, seed_probed, peer_introduced, peer_posted, peer_removed, cleaned_up,
  health_checked, peers_listed, mesh_step, mesh_run,
}
use ollama_local_hives_clust.Mesh.Select.{get_alive_peers, alive_among}
use ollama_local_hives_clust.Mesh.Fresh.{
  beacon_peer-seen, listed, lookup-without_timed_out, lookup-listed,
}
use ollama_local_hives_clust.Mesh.Seen.{
  Seen, handle_beacon-Seen, probe_seed-Seen, handle_peer_introduce-Seen, handle_peer_register-Seen,
  health_answered-Seen, lookup-refreshed_peers,
}

module _ {F : Type 0} (ops : LoadOps F) where
  -- The event is from one time to another one, and does not remove the peer.
  abbrev pub Between : ℕ → ℕ → String → MeshEvent F → Type 0
  Between t now id (beacon_came b s) = (t ≤ s) × (s ≤ now)
  Between t now id (seed_probed url st ps s) = (t ≤ s) × (s ≤ now)
  Between t now id (peer_introduced body s) = (t ≤ s) × (s ≤ now)
  Between t now id (peer_posted body s) = (t ≤ s) × (s ≤ now)
  Between t now id (peer_removed k) = str_eq k id ≡ false
  Between t now id (cleaned_up s) = (t ≤ s) × (s ≤ now)
  Between t now id (health_checked k s) = (t ≤ s) × (s ≤ now)
  Between t now id (peers_listed s) = (t ≤ s) × (s ≤ now)

  mesh_step-Seen :
      (t now : ℕ) (id : String) (e : MeshEvent F) (m : MeshDiscovery F)
      → now < t + peer_timeout
      → Between t now id e
      → Seen ops t id m
      → Seen ops t id (mesh_step ops e m)
  unfolding unregister_peer cleanup get_alive_peers
  mesh_step-Seen t now id (beacon_came b s) m soon w seen =
      handle_beacon-Seen ops t id b s m w.0 seen
  mesh_step-Seen t now id (seed_probed url st ps s) m soon w seen =
      probe_seed-Seen ops t id url st ps s m w.0 seen
  mesh_step-Seen t now id (peer_introduced body s) m soon w seen =
      handle_peer_introduce-Seen ops t id body s m w.0 seen
  mesh_step-Seen t now id (peer_posted body s) m soon w seen =
      handle_peer_register-Seen ops t id body s m w.0 seen
  mesh_step-Seen t now id (peer_removed k) m soon w (p, held, same, late) =
      (p, rw (lookup-delete k id m.peers, w) held, same, late)
  mesh_step-Seen t now id (cleaned_up s) m soon w (p, held, same, late) = (
    p,
    lookup-without_timed_out ops s id p m.peers held (ground (arith, w.1, soon, late)),
    same,
    late,
  )
  mesh_step-Seen t now id (health_checked k s) m soon w seen =
      health_answered-Seen ops t id k s m w.0 seen
  mesh_step-Seen t now id (peers_listed s) m soon w (p, held, same, late) =
      let (q, found, a, b) = lookup-refreshed_peers ops s id p m.peers held in
      (q, found, a ∙ same, rw b late)

  mesh_run-Seen :
      (t now : ℕ) (id : String) (es : List (MeshEvent F)) (m : MeshDiscovery F)
      → now < t + peer_timeout
      → All (Between t now id) es
      → Seen ops t id m
      → Seen ops t id (mesh_run ops es m)
  mesh_run-Seen t now id [] m soon w seen = seen
  mesh_run-Seen t now id (e ∷ es) m soon w seen =
      mesh_run-Seen t now id es (mesh_step ops e m) soon w.1
        (mesh_step-Seen t now id e m soon w.0 seen)

  handle_beacon-heard :
      (b : Beacon) (t : ℕ) (m : MeshDiscovery F)
      → is_foreign ops (or_else b.server_id "") m ≡ true
      → Known true m
      → Seen ops t (or_else b.server_id "") (handle_beacon ops b t m)
  unfolding handle_beacon
  handle_beacon-heard b t m f k =
      let id = or_else b.server_id "" in
      let p = beacon_peer ops b id t (lookup id m.peers) in
      let seen = beacon_peer-seen ops b id t (lookup id m.peers) in
      simp f (
        p,
        rw (lookup-insert id id p m.peers, (eq_iff id id).1 refl) refl,
        beacon_peer-id ops true b id t m k,
        rw seen (omega arith),
      )

  -- The sender of a beacon, if it has an id that is not the server's own, is among the alive peers for
  -- 30 seconds after it, whatever beacons, seeds, introductions, registrations, clean-ups, health
  -- checks, listings and removals of other peers there are in between, in any order. It assumes that
  -- the known peers stand under their own ids.
  pub handle_beacon-listed :
      (b : Beacon) (t now : ℕ) (es : List (MeshEvent F)) (m : MeshDiscovery F)
      → is_foreign ops (or_else b.server_id "") m ≡ true
      → Known true m
      → All (Between t now (or_else b.server_id "")) es
      → now < t + peer_timeout
      → listed ops
          (or_else b.server_id "")
          (get_alive_peers ops now (mesh_run ops es (handle_beacon ops b t m))).0
        ≡ true
  unfolding get_alive_peers
  handle_beacon-listed b t now es m f k w soon =
      let id = or_else b.server_id "" in
      let m' = mesh_run ops es (handle_beacon ops b t m) in
      let (p, held, same, late) =
        mesh_run-Seen t now id es (handle_beacon ops b t m) soon w
          (handle_beacon-heard b t m f k) in
      subst (λ x. listed ops x (alive_among ops now m'.peers) ≡ true) same
        (lookup-listed ops now id p m'.peers held (ground (arith, late, soon)))

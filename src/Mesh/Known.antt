-- ===== src/Mesh/Known.antt =====
-- Which peers hive-server-go/mesh.go can know, whatever comes over the network.
use ollama_local_hives_clust.Prelude.{
  ℕ, ◌≡◌, refl, ◌⊎◌, subst, Bool, if◌then◌else◌, eqb_ℤ, String, true, false, Option, none, some,
  List, [], ◌∷◌, Map, lookup, insert, delete, str_eq, eq_iff, All, inl, inr, Bool-cases,
  Option-cases, arith, sym, ap, ◌∙◌, pos,
}
use ollama_local_hives_clust.Mesh.{
  LoadOps, PeerInfo, MeshDiscovery, Beacon, SeedStatus, new_mesh_discovery, handle_beacon,
  probe_seed, learn_peers, seen_seed, unregister_peer, without_timed_out, cleanup, health_answered,
  is_foreign, beacon_peer, fresh_peer, is_complete, handle_peer_introduce, handle_peer_register,
  PeerBody, register_peer, or_else, timed_out,
}
use ollama_local_hives_clust.Mesh.Select.{get_alive_peers, refreshed_peers, refreshed, is_alive}
use ollama_local_hives_clust.Mesh.Events.{
  MeshEvent, beacon_came, seed_probed, peer_introduced, peer_posted, peer_removed, cleaned_up,
  health_checked, peers_listed, mesh_step, mesh_run, names_self, self_named,
}

-- The id is not the server's own one, unless that one may be known.
abbrev pub Apart : Bool → String → String → Type 0
Apart named own k = (named ≡ true) ⊎ (str_eq k own ≡ false)

-- An entry stands under its own id, and apart from the server.
abbrev pub KnownEntry : {F : Type 0} → Bool → String → String × PeerInfo F → Type 0
KnownEntry named own e = (e.1.server_id ≡ e.0) × Apart named own e.0

abbrev pub Known : {F : Type 0} → Bool → MeshDiscovery F → Type 0
Known named m = All (KnownEntry named m.server_id) m.peers

module _ {F : Type 0} where
  lookup-Known :
      (named : Bool) (own k : String) (p : PeerInfo F) (m : Map (PeerInfo F))
      → All (KnownEntry named own) m
      → lookup k m ≡ some p
      → (p.server_id ≡ k) × Apart named own k
  unfolding lookup
  lookup-Known named own k p [] a e = cc
  lookup-Known named own k p (x ∷ xs) a e = elim (Bool-cases (str_eq x.0 k)) [
    | inl same ↦
        let key : x.0 ≡ k = (eq_iff x.0 k).0 same in
        let held : x.1 ≡ p = ground (arith, e, same) in
        (ap (λ t. t.server_id) (sym held) ∙ a.0.0 ∙ key, subst (Apart named own) key a.0.1)
    | inr apart ↦ lookup-Known named own k p xs a.1 (rw (apart, lookup) at e)
  ]

  insert-All :
      (P : String × PeerInfo F → Type 0) (k : String) (p : PeerInfo F) (m : Map (PeerInfo F))
      → P (k, p)
      → All P m
      → All P (insert k p m)
  unfolding insert
  insert-All P k p [] h a = (h, tt)
  insert-All P k p (x ∷ xs) h a = elim (Bool-cases (str_eq x.0 k)) [
    | inl e ↦ rw e (h, a.1)
    | inr e ↦ rw e (a.0, insert-All P k p xs h a.1)
  ]

  delete-All :
      (P : String × PeerInfo F → Type 0) (k : String) (m : Map (PeerInfo F))
      → All P m
      → All P (delete k m)
  unfolding delete
  delete-All P k [] a = tt
  delete-All P k (x ∷ xs) a = elim (Bool-cases (str_eq x.0 k)) [
    | inl e ↦ rw e (delete-All P k xs a.1)
    | inr e ↦ rw e (a.0, delete-All P k xs a.1)
  ]

  without_timed_out-All :
      (P : String × PeerInfo F → Type 0) (ops : LoadOps F) (now : ℕ) (m : Map (PeerInfo F))
      → All P m
      → All P (without_timed_out ops now m)
  unfolding without_timed_out
  without_timed_out-All P ops now [] a = tt
  without_timed_out-All P ops now (x ∷ xs) a = elim (Bool-cases (timed_out ops now x.1)) [
    | inl e ↦ rw e (without_timed_out-All P ops now xs a.1)
    | inr e ↦ rw e (a.0, without_timed_out-All P ops now xs a.1)
  ]

  refreshed_peers-Known :
      (ops : LoadOps F) (named : Bool) (own : String) (now : ℕ) (m : Map (PeerInfo F))
      → All (KnownEntry named own) m
      → All (KnownEntry named own) (refreshed_peers ops now m)
  unfolding refreshed_peers refreshed
  refreshed_peers-Known ops named own now [] a = tt
  refreshed_peers-Known ops named own now (x ∷ xs) a = elim (Bool-cases (is_alive ops now x.1)) [
    | inl e ↦ rw e (a.0, refreshed_peers-Known ops named own now xs a.1)
    | inr e ↦ rw e (a.0, refreshed_peers-Known ops named own now xs a.1)
  ]

module _ {F : Type 0} (ops : LoadOps F) (named : Bool) where
  put-Known :
      (id : String) (p : PeerInfo F) (m : MeshDiscovery F)
      → p.server_id ≡ id
      → Apart named m.server_id id
      → Known named m
      → Known named (record m { peers = insert id p m.peers })
  put-Known id p m same apart k =
      insert-All (KnownEntry named m.server_id) id p m.peers (same, apart) k

  foreign-apart :
      (id : String) (m : MeshDiscovery F)
      → is_foreign ops id m ≡ true
      → str_eq id m.server_id ≡ false
  foreign-apart id m f = ground arith

  pub beacon_peer-id :
      (b : Beacon) (id : String) (now : ℕ) (m : MeshDiscovery F)
      → Known named m
      → (beacon_peer ops b id now (lookup id m.peers)).server_id ≡ id
  beacon_peer-id b id now m k = elim (Option-cases (lookup id m.peers)) [
    | inl e ↦ rw e refl
    | inr (p, e) ↦ rw e (lookup-Known named m.server_id id p m.peers k e).0
  ]

  handle_beacon-Known :
      (b : Beacon) (now : ℕ) (m : MeshDiscovery F)
      → Known named m
      → Known named (handle_beacon ops b now m)
  unfolding handle_beacon
  handle_beacon-Known b now m k =
      let id = or_else b.server_id "" in
      elim (Bool-cases (is_foreign ops id m)) [
        | inr e ↦ simp e k
        | inl e ↦ simp e (
            put-Known id (beacon_peer ops b id now (lookup id m.peers)) m
              (beacon_peer-id b id now m k) (inr (foreign-apart id m e)) k)
      ]

  learn_peers-Known :
      (ps : List (PeerInfo F)) (now : ℕ) (m : MeshDiscovery F)
      → Known named m
      → Known named (learn_peers ops ps now m)
  unfolding learn_peers
  learn_peers-Known [] now m k = k
  learn_peers-Known (p ∷ ps) now m k = elim (Bool-cases (str_eq p.server_id m.server_id)) [
    | inl own ↦ simp own (learn_peers-Known ps now m k)
    | inr other ↦ elim (Option-cases (lookup p.server_id m.peers)) [
      | inr (q, e) ↦ simp (other, e) (learn_peers-Known ps now m k)
      | inl e ↦
          simp (other, e)
            (learn_peers-Known ps now
              (record m { peers = insert p.server_id (record p { last_seen = now }) m.peers })
              (put-Known p.server_id (record p { last_seen = now }) m refl (inr other) k))
    ]
  ]

  probe_seed-Known :
      (url : String) (status : Option SeedStatus) (listed : Option (List (PeerInfo F))) (now : ℕ)
      (m : MeshDiscovery F)
      → Known named m
      → Known named (probe_seed ops url status listed now m).1
  unfolding probe_seed
  probe_seed-Known url none listed now m k = k
  probe_seed-Known url (some st) listed now m k =
      let id = or_else st.server_id "" in
      elim (Bool-cases (is_foreign ops id m)) [
        | inr e ↦ simp e k
        | inl e ↦
            let seen : Known named (seen_seed ops st url id now m) =
              put-Known id
                (fresh_peer ops id url (or_else st.max_concurrent (pos 0))
                  (or_else st.ollama_model "") now)
                m refl (inr (foreign-apart id m e)) k in
            elim (Option-cases listed) [
              | inl none_listed ↦ simp (e, none_listed) seen
              | inr (ps, some_listed) ↦
                  simp (e, some_listed)
                    (learn_peers-Known ps now (seen_seed ops st url id now m) seen)
            ]
      ]

  handle_peer_introduce-Known :
      (body : Option PeerBody) (now : ℕ) (m : MeshDiscovery F)
      → Known named m
      → Known named (handle_peer_introduce ops body now m).1
  unfolding handle_peer_introduce register_peer
  handle_peer_introduce-Known none now m k = k
  handle_peer_introduce-Known (some b) now m k = elim (Bool-cases (is_complete b)) [
    | inr e ↦ simp e k
    | inl e ↦ elim (Bool-cases (str_eq b.server_id m.server_id)) [
      | inl own ↦ simp (e, own) k
      | inr other ↦
          simp (e, other)
            (put-Known b.server_id
              (fresh_peer ops b.server_id b.endpoint b.max_concurrent b.ollama_model now) m refl
              (inr other) k)
    ]
  ]

  health_answered-Known :
      (id : String) (now : ℕ) (m : MeshDiscovery F)
      → Known named m
      → Known named (health_answered ops id now m)
  unfolding health_answered
  health_answered-Known id now m k = elim (Option-cases (lookup id m.peers)) [
    | inl e ↦ rw (e, health_answered) k
    | inr (p, e) ↦
        let l = lookup-Known named m.server_id id p m.peers k e in
        rw (e, health_answered) (put-Known id (record p { last_seen = now }) m l.0 l.1 k)
  ]

  handle_peer_register-Known :
      (body : Option PeerBody) (now : ℕ) (m : MeshDiscovery F)
      → (names_self ops (peer_posted body now) m ≡ true → named ≡ true)
      → Known named m
      → Known named (handle_peer_register ops body now m).1
  unfolding handle_peer_register register_peer
  handle_peer_register-Known none now m self k = k
  handle_peer_register-Known (some b) now m self k = elim (Bool-cases (is_complete b)) [
    | inr e ↦ simp e k
    | inl e ↦
        let apart : Apart named m.server_id b.server_id =
          elim (Bool-cases (str_eq b.server_id m.server_id)) [
            | inl own ↦ inl (self (ground (arith, e, own)))
            | inr other ↦ inr other
          ] in
        let max = if eqb_ℤ b.max_concurrent (pos 0) then pos 2 else b.max_concurrent in
        simp e (
          put-Known b.server_id (fresh_peer ops b.server_id b.endpoint max b.ollama_model now) m
            refl apart k)
  ]

  mesh_step-Known :
      (e : MeshEvent F) (m : MeshDiscovery F)
      → (names_self ops e m ≡ true → named ≡ true)
      → Known named m
      → Known named (mesh_step ops e m)
  unfolding unregister_peer cleanup get_alive_peers
  mesh_step-Known (beacon_came b now) m self k = handle_beacon-Known b now m k
  mesh_step-Known (seed_probed url st ps now) m self k = probe_seed-Known url st ps now m k
  mesh_step-Known (peer_introduced body now) m self k = handle_peer_introduce-Known body now m k
  mesh_step-Known (peer_posted body now) m self k = handle_peer_register-Known body now m self k
  mesh_step-Known (peer_removed id) m self k =
      delete-All (KnownEntry named m.server_id) id m.peers k
  mesh_step-Known (cleaned_up now) m self k =
      without_timed_out-All (KnownEntry named m.server_id) ops now m.peers k
  mesh_step-Known (health_checked id now) m self k = health_answered-Known id now m k
  mesh_step-Known (peers_listed now) m self k =
      refreshed_peers-Known ops named m.server_id now m.peers k

  mesh_run_from-Known :
      (es : List (MeshEvent F)) (m : MeshDiscovery F)
      → (self_named ops es m ≡ true → named ≡ true)
      → Known named m
      → Known named (mesh_run ops es m)
  mesh_run_from-Known [] m self k = k
  mesh_run_from-Known (e ∷ es) m self k =
      mesh_run_from-Known es (mesh_step ops e m) (λ h. self (ground (arith, h)))
        (mesh_step-Known e m (λ h. self (ground (arith, h))) k)

module _ {F : Type 0} (ops : LoadOps F) where
  -- Whatever beacons, seeds, introductions, registrations, removals, clean-ups, health checks and
  -- listings follow the start, each known peer stands under its own id, and none under the id of the
  -- server itself, unless a registration through the API has named that id.
  pub mesh_run-Known :
      (es : List (MeshEvent F)) (id : String) (mapping : Map String)
      → Known
          (self_named ops es (new_mesh_discovery ops id mapping))
          (mesh_run ops es (new_mesh_discovery ops id mapping))
  unfolding new_mesh_discovery
  mesh_run-Known es id mapping =
      let m = new_mesh_discovery ops id mapping in
      mesh_run_from-Known ops (self_named ops es m) es m (λ h. h) tt

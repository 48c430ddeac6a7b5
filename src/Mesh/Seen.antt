-- ===== src/Mesh/Seen.antt =====
-- Which steps of hive-server-go/mesh.go keep a peer that was heard of, each by itself.
use ollama_local_hives_clust.Prelude.{
  ℕ, ◌≤◌, ◌≡◌, refl, String, true, Option, none, some, List, [], ◌∷◌, Map, lookup, lookup-insert,
  insert, str_eq, eq_iff, inl, inr, Bool-cases, arith, ap, sym, ◌∙◌, if◌then◌else◌, pos, eqb_ℤ,
  Option-cases,
}
use ollama_local_hives_clust.Mesh.{
  LoadOps, PeerInfo, MeshDiscovery, Beacon, SeedStatus, PeerBody, learn_peers, probe_seed,
  seen_seed, fresh_peer, is_complete, handle_peer_introduce, handle_peer_register, register_peer,
  health_answered, handle_beacon, is_foreign, beacon_peer, or_else,
}
use ollama_local_hives_clust.Mesh.Select.{refreshed, refreshed_peers, is_alive}
use ollama_local_hives_clust.Mesh.Fresh.{beacon_peer-seen}

module _ {F : Type 0} (ops : LoadOps F) where
  -- The known peer of the id was seen at the time or later.
  abbrev pub Seen : ℕ → String → MeshDiscovery F → Type 0
  Seen t id m =
      (p : PeerInfo F) × (lookup id m.peers ≡ some p) × (p.server_id ≡ id) × (t ≤ p.last_seen)

  pub insert-Seen :
      (t : ℕ) (k id : String) (q : PeerInfo F) (m : MeshDiscovery F)
      → (str_eq k id ≡ true → (q.server_id ≡ id) × (t ≤ q.last_seen))
      → Seen t id m
      → Seen t id (record m { peers = insert k q m.peers })
  insert-Seen t k id q m own (p, held, same, late) = elim (Bool-cases (str_eq k id)) [
    | inl e ↦ let (a, b) = own e in (q, rw (lookup-insert k id q m.peers, e) refl, a, b)
    | inr e ↦ (p, rw (lookup-insert k id q m.peers, e) held, same, late)
  ]

  -- The new entry of a peer that is written under its id.
  pub written-Seen :
      (t : ℕ) (id : String) (q : PeerInfo F) (m : MeshDiscovery F)
      → t ≤ q.last_seen
      → Seen t id m
      → Seen t id (record m { peers = insert q.server_id q m.peers })
  written-Seen t id q m late seen =
      insert-Seen t q.server_id id q m (λ e. ((eq_iff q.server_id id).0 e, late)) seen

  pub handle_beacon-Seen :
      (t : ℕ) (id : String) (b : Beacon) (s : ℕ) (m : MeshDiscovery F)
      → t ≤ s
      → Seen t id m
      → Seen t id (handle_beacon ops b s m)
  unfolding handle_beacon
  handle_beacon-Seen t id b s m order seen =
      let k = or_else b.server_id "" in
      elim (Bool-cases (is_foreign ops k m)) [
        | inr e ↦ simp e seen
        | inl e ↦
            let q = beacon_peer ops b k s (lookup k m.peers) in
            let late : t ≤ q.last_seen = rw (beacon_peer-seen ops b k s (lookup k m.peers)) order in
            simp e (
              insert-Seen t k id q m
                (λ own.
                  let (p, held, same, old) = seen in
                  let there : lookup k m.peers ≡ some p =
                    ap (λ x. lookup x m.peers) ((eq_iff k id).0 own) ∙ held in
                  (rw there same, late))
                seen)
      ]

  pub learn_peers-Seen :
      (t : ℕ) (id : String) (ps : List (PeerInfo F)) (s : ℕ) (m : MeshDiscovery F)
      → t ≤ s
      → Seen t id m
      → Seen t id (learn_peers ops ps s m)
  unfolding learn_peers
  learn_peers-Seen t id [] s m order seen = seen
  learn_peers-Seen t id (p ∷ ps) s m order seen =
      elim (Bool-cases (str_eq p.server_id m.server_id)) [
        | inl own ↦ simp own (learn_peers-Seen t id ps s m order seen)
        | inr other ↦ elim (Option-cases (lookup p.server_id m.peers)) [
          | inr (q, e) ↦ simp (other, e) (learn_peers-Seen t id ps s m order seen)
          | inl e ↦
              let m' = record m {
                peers = insert p.server_id (record p { last_seen = s }) m.peers;
              } in
              simp (other, e)
                (learn_peers-Seen t id ps s m' order
                  (written-Seen t id (record p { last_seen = s }) m order seen))
        ]
      ]

  pub probe_seed-Seen :
      (t : ℕ) (id url : String) (status : Option SeedStatus) (given : Option (List (PeerInfo F)))
      (s : ℕ) (m : MeshDiscovery F)
      → t ≤ s
      → Seen t id m
      → Seen t id (probe_seed ops url status given s m).1
  unfolding probe_seed
  probe_seed-Seen t id url none given s m order seen = seen
  probe_seed-Seen t id url (some st) given s m order seen =
      let k = or_else st.server_id "" in
      elim (Bool-cases (is_foreign ops k m)) [
        | inr e ↦ simp e seen
        | inl e ↦
            let probed : Seen t id (seen_seed ops st url k s m) =
              written-Seen t id
                (fresh_peer ops k url (or_else st.max_concurrent (pos 0))
                  (or_else st.ollama_model "") s)
                m order seen in
            elim (Option-cases given) [
              | inl f ↦ simp (e, f) probed
              | inr (ps, f) ↦
                  simp (e, f) (learn_peers-Seen t id ps s (seen_seed ops st url k s m) order probed)
            ]
      ]

  pub handle_peer_introduce-Seen :
      (t : ℕ) (id : String) (body : Option PeerBody) (s : ℕ) (m : MeshDiscovery F)
      → t ≤ s
      → Seen t id m
      → Seen t id (handle_peer_introduce ops body s m).1
  unfolding handle_peer_introduce register_peer
  handle_peer_introduce-Seen t id none s m order seen = seen
  handle_peer_introduce-Seen t id (some b) s m order seen = elim (Bool-cases (is_complete b)) [
    | inr e ↦ simp e seen
    | inl e ↦ elim (Bool-cases (str_eq b.server_id m.server_id)) [
      | inl own ↦ simp (e, own) seen
      | inr other ↦
          simp (e, other)
            (written-Seen t id
              (fresh_peer ops b.server_id b.endpoint b.max_concurrent b.ollama_model s) m order
              seen)
    ]
  ]

  pub handle_peer_register-Seen :
      (t : ℕ) (id : String) (body : Option PeerBody) (s : ℕ) (m : MeshDiscovery F)
      → t ≤ s
      → Seen t id m
      → Seen t id (handle_peer_register ops body s m).1
  unfolding handle_peer_register register_peer
  handle_peer_register-Seen t id none s m order seen = seen
  handle_peer_register-Seen t id (some b) s m order seen = elim (Bool-cases (is_complete b)) [
    | inr e ↦ simp e seen
    | inl e ↦
        let max = if eqb_ℤ b.max_concurrent (pos 0) then pos 2 else b.max_concurrent in
        simp e (
          written-Seen t id (fresh_peer ops b.server_id b.endpoint max b.ollama_model s) m order
            seen)
  ]

  pub health_answered-Seen :
      (t : ℕ) (id k : String) (s : ℕ) (m : MeshDiscovery F)
      → t ≤ s
      → Seen t id m
      → Seen t id (health_answered ops k s m)
  unfolding health_answered
  health_answered-Seen t id k s m order seen = elim (Option-cases (lookup k m.peers)) [
    | inl e ↦ rw (e, health_answered) seen
    | inr (q, e) ↦
        rw (e, health_answered)
          (insert-Seen t k id (record q { last_seen = s }) m
            (λ own.
              let (p, held, same, old) = seen in
              let there : lookup k m.peers ≡ some p =
                ap (λ x. lookup x m.peers) ((eq_iff k id).0 own) ∙ held in
              let both : q ≡ p = ground (arith, sym e ∙ there) in
              (ap (λ x. x.server_id) both ∙ same, order))
            seen)
  ]

  pub lookup-refreshed_peers :
      (now : ℕ) (k : String) (p : PeerInfo F) (m : Map (PeerInfo F))
      → lookup k m ≡ some p
      → (q : PeerInfo F) × (lookup k (refreshed_peers ops now m) ≡ some q)
        × (q.server_id ≡ p.server_id)
        × (q.last_seen ≡ p.last_seen)
  unfolding lookup refreshed_peers refreshed
  lookup-refreshed_peers now k p [] e = cc
  lookup-refreshed_peers now k p (x ∷ xs) e = elim (Bool-cases (str_eq x.0 k)) [
    | inr other ↦
        let (q, found, a, b) = lookup-refreshed_peers now k p xs (rw (other, lookup) at e) in
        elim (Bool-cases (is_alive ops now x.1)) [
          | inl fresh ↦ (q, rw (fresh, lookup, other) found, a, b)
          | inr stale ↦ (q, rw (stale, lookup, other) found, a, b)
        ]
    | inl own ↦
        let held : some x.1 ≡ some p = rw (own, lookup) at e in
        let same : x.1 ≡ p = cc in
        elim (Bool-cases (is_alive ops now x.1)) [
          | inl fresh ↦ (
            refreshed ops x.1,
            rw (fresh, lookup, own) refl,
            ap (λ y. y.server_id) same,
            ap (λ y. y.last_seen) same,
          )
          | inr stale ↦ (
            x.1,
            rw (stale, lookup, own) refl,
            ap (λ y. y.server_id) same,
            ap (λ y. y.last_seen) same,
          )
        ]
  ]

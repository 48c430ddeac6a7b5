-- ===== src/Mesh/Fresh.antt =====
-- What of a beacon counts for the alive peers of hive-server-go/mesh.go, and which of them are shown.
use ollama_local_hives_clust.Prelude.{
  ℕ, ◌+◌, ◌≡◌, refl, String, Bool, true, false, Option, none, some, List, [], ◌∷◌, Map, lookup,
  insert, str_eq, eq_iff, ltb, inl, inr, Bool-cases, arith, ap, sym, ◌∙◌, if◌then◌else◌, ℤ,
}
use ollama_local_hives_clust.Mesh.{
  LoadOps, PeerInfo, MeshDiscovery, Beacon, handle_beacon, is_foreign, beacon_peer, or_else,
  peer_timeout, without_timed_out, timed_out,
}
use ollama_local_hives_clust.Mesh.Select.{get_alive_peers, alive_among, refreshed, is_alive}

module _ {F : Type 0} (ops : LoadOps F) where
  -- Two entries that the alive peers show alike.
  alive_among-insert :
      (now : ℕ) (k : String) (p q : PeerInfo F) (m : Map (PeerInfo F))
      → is_alive ops now p ≡ is_alive ops now q
      → refreshed ops p ≡ refreshed ops q
      → alive_among ops now (insert k p m) ≡ alive_among ops now (insert k q m)
  unfolding alive_among insert
  alive_among-insert now k p q [] a r = rw (a, r) refl
  alive_among-insert now k p q (x ∷ xs) a r = elim (Bool-cases (str_eq x.0 k)) [
    | inl e ↦ rw (e, a, r) refl
    | inr e ↦ rw (e, alive_among-insert now k p q xs a r) refl
  ]

  beacon_peer-capacity :
      (b : Beacon) (id : String) (c : Option ℤ) (t : ℕ) (o : Option (PeerInfo F))
      → refreshed ops (beacon_peer ops b id t o)
        ≡ refreshed ops (beacon_peer ops (record b { available_capacity = c }) id t o)
  unfolding refreshed
  beacon_peer-capacity b id c t none = refl
  beacon_peer-capacity b id c t (some p) = refl

  pub beacon_peer-seen :
      (b : Beacon) (id : String) (t : ℕ) (o : Option (PeerInfo F))
      → (beacon_peer ops b id t o).last_seen ≡ t
  beacon_peer-seen b id t none = refl
  beacon_peer-seen b id t (some p) = refl

  -- The capacity that a beacon reports is not read: with another one in its place, the alive peers are
  -- the same at every time, loads and capacities included.
  pub get_alive_peers-handle_beacon :
      (b : Beacon) (c : Option ℤ) (t now : ℕ) (m : MeshDiscovery F)
      → (get_alive_peers ops now (handle_beacon ops b t m)).0
        ≡ (get_alive_peers ops now (handle_beacon ops (record b { available_capacity = c }) t m)).0
  unfolding get_alive_peers handle_beacon
  get_alive_peers-handle_beacon b c t now m =
      let id = or_else b.server_id "" in
      elim (Bool-cases (is_foreign ops id m)) [
        | inr e ↦ simp e refl
        | inl e ↦ simp e (
            alive_among-insert now id (beacon_peer ops b id t (lookup id m.peers))
              (beacon_peer ops (record b { available_capacity = c }) id t (lookup id m.peers))
              m.peers
              (ap (λ s. ltb now (s + peer_timeout))
                (beacon_peer-seen b id t (lookup id m.peers)
                  ∙ sym (
                      beacon_peer-seen (record b { available_capacity = c }) id t
                        (lookup id m.peers))))
              (beacon_peer-capacity b id c t (lookup id m.peers)))
      ]

  abbrev pub listed : String → List (PeerInfo F) → Bool
  listed id [] = false
  listed id (p ∷ ps) = if str_eq p.server_id id then true else listed id ps

  pub lookup-without_timed_out :
      (now : ℕ) (k : String) (p : PeerInfo F) (m : Map (PeerInfo F))
      → lookup k m ≡ some p
      → timed_out ops now p ≡ false
      → lookup k (without_timed_out ops now m) ≡ some p
  unfolding lookup without_timed_out
  lookup-without_timed_out now k p [] e h = cc
  lookup-without_timed_out now k p (x ∷ xs) e h = elim (Bool-cases (str_eq x.0 k)) [
    | inl own ↦
        let held : some x.1 ≡ some p = rw (own, lookup) at e in
        let stays : timed_out ops now x.1 ≡ false = ground (arith, held, h) in
        rw (stays, lookup, own) held
    | inr other ↦
        let rest = lookup-without_timed_out now k p xs (rw (other, lookup) at e) h in
        elim (Bool-cases (timed_out ops now x.1)) [
          | inl gone ↦ rw gone rest
          | inr stays ↦ rw (stays, lookup, other) rest
        ]
  ]

  pub lookup-listed :
      (now : ℕ) (k : String) (p : PeerInfo F) (m : Map (PeerInfo F))
      → lookup k m ≡ some p
      → is_alive ops now p ≡ true
      → listed p.server_id (alive_among ops now m) ≡ true
  unfolding lookup alive_among refreshed
  lookup-listed now k p [] e h = cc
  lookup-listed now k p (x ∷ xs) e h = elim (Bool-cases (str_eq x.0 k)) [
    | inl own ↦
        let held : x.1 ≡ p = ground (arith, e, own) in
        rw (held, h, (eq_iff p.server_id p.server_id).1 refl) refl
    | inr other ↦
        let rest = lookup-listed now k p xs (rw (other, lookup) at e) h in
        elim (Bool-cases (is_alive ops now x.1)) [
          | inl here ↦ rw here (ground (arith, rest))
          | inr gone ↦ rw gone rest
        ]
  ]

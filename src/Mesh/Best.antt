-- ===== src/Mesh/Best.antt =====
-- What GetBestPeer of hive-server-go/mesh.go promises.
use ollama_local_hives_clust.Prelude.{
  ℕ, ◌≡◌, refl, Bool, true, false, not, ◌&&◌, Option, none, some, List, [], ◌∷◌, inl, inr,
  Bool-cases, arith, false≢true, sym, subst, ◌∙◌, pos, ltb_ℤ, All, Map, Option-cases,
}
use ollama_local_hives_clust.Balancer.{IsStrictWeak}
use ollama_local_hives_clust.Mesh.{LoadOps, PeerInfo, MeshDiscovery}
use ollama_local_hives_clust.Mesh.Select.{
  better, best_of, get_best_peer, get_alive_peers, alive_among, refreshed, is_alive,
}

-- What the comparisons of float64 do on loads that are numbers: < is a strict weak order, and two loads
-- are the same exactly if neither is less.
pub record IsLoadOrder {F : Type 0} (ops : LoadOps F) : Type 0 where
  pub order : IsStrictWeak ops.less_load
  pub same : (a b : F) → ops.same_load a b ≡ (not (ops.less_load a b) && not (ops.less_load b a))

module _ {F : Type 0} (ops : LoadOps F) (laws : IsLoadOrder ops) where
  better_order : IsStrictWeak (better ops)
  better_order = record {
    irrefl = λ x. ground (arith, laws.order.irrefl x.load);
    trans = λ x y z a b. ground (
      arith,
      a,
      b,
      laws.same x.load y.load,
      laws.same y.load z.load,
      laws.same x.load z.load,
      laws.order.trans x.load y.load z.load,
      laws.order.split x.load z.load y.load,
      laws.order.split z.load x.load y.load,
      laws.order.split z.load y.load x.load,
      laws.order.split y.load x.load z.load,
    );
    split = λ x y z a. ground (
      arith,
      a,
      laws.same x.load y.load,
      laws.same y.load z.load,
      laws.same x.load z.load,
      laws.order.trans x.load y.load z.load,
      laws.order.split x.load y.load z.load,
      laws.order.trans y.load z.load x.load,
      laws.order.split x.load z.load y.load,
      laws.order.split z.load x.load y.load,
      laws.order.split y.load x.load z.load,
      laws.order.split z.load y.load x.load,
      laws.order.split y.load z.load x.load,
    );
  }

  not_better_trans :
      (b p r : PeerInfo F) → better ops p b ≡ true → better ops p r ≡ false → better ops b r ≡ false
  not_better_trans b p r w l = elim (Bool-cases (better ops b r)) [
    | inl beats ↦ absurd (false≢true (sym l ∙ better_order.trans p b r w beats))
    | inr e ↦ e
  ]

  not_better_split :
      (p b r : PeerInfo F)
      → better ops p b ≡ false
      → better ops b r ≡ false
      → better ops p r ≡ false
  not_better_split p b r l m = elim (Bool-cases (better ops p r)) [
    | inr e ↦ e
    | inl beats ↦ elim (better_order.split p b r beats) [
      | inl x ↦ absurd (false≢true (sym l ∙ x))
      | inr y ↦ absurd (false≢true (sym m ∙ y))
    ]
  ]

  -- No usable peer of the list is better.
  abbrev pub Unbeaten : PeerInfo F → List (PeerInfo F) → Type 0
  Unbeaten best ps = All (λ p. ltb_ℤ (pos 0) p.available_cap ≡ true → better ops p best ≡ false) ps

  abbrev Candidate : Option (PeerInfo F) → PeerInfo F → Type 0
  Candidate none best = Unit
  Candidate (some b) best = better ops b best ≡ false

  best_of-Unbeaten :
      (acc : Option (PeerInfo F)) (ps : List (PeerInfo F)) (best : PeerInfo F)
      → best_of ops acc ps ≡ some best
      → Candidate acc best × Unbeaten best ps
  unfolding best_of
  best_of-Unbeaten none [] best e = cc
  best_of-Unbeaten (some b) [] best e =
      let same : b ≡ best = cc in
      (subst (λ t. better ops b t ≡ false) same (better_order.irrefl b), tt)
  best_of-Unbeaten none (p ∷ ps) best e = elim (Bool-cases (ltb_ℤ (pos 0) p.available_cap)) [
    | inl usable ↦
        let rest = best_of-Unbeaten (some p) ps best (rw (usable, best_of) at e) in
        (tt, (λ _. rest.0, rest.1))
    | inr full ↦
        let rest = best_of-Unbeaten none ps best (rw (full, best_of) at e) in
        (tt, (λ u. absurd (false≢true (sym full ∙ u)), rest.1))
  ]
  best_of-Unbeaten (some b) (p ∷ ps) best e = elim (Bool-cases (ltb_ℤ (pos 0) p.available_cap)) [
    | inr full ↦
        let rest = best_of-Unbeaten (some b) ps best (rw (full, best_of) at e) in
        (rest.0, (λ u. absurd (false≢true (sym full ∙ u)), rest.1))
    | inl usable ↦ elim (Bool-cases (better ops p b)) [
      | inl wins ↦
          let rest = best_of-Unbeaten (some p) ps best (rw (usable, wins, best_of) at e) in
          (not_better_trans b p best wins rest.0, (λ _. rest.0, rest.1))
      | inr loses ↦
          let rest = best_of-Unbeaten (some b) ps best (rw (usable, loses, best_of) at e) in
          (rest.0, (λ _. not_better_split p b best loses rest.0, rest.1))
    ]
  ]

  abbrev pub usable : PeerInfo F → Bool
  usable p = ltb_ℤ (pos 0) p.available_cap

  best_of-kept :
      (P : PeerInfo F → Type 0) (acc : Option (PeerInfo F)) (ps : List (PeerInfo F))
      (best : PeerInfo F)
      → ((b : PeerInfo F) → acc ≡ some b → P b)
      → All (λ p. usable p ≡ true → P p) ps
      → best_of ops acc ps ≡ some best
      → P best
  unfolding best_of
  best_of-kept P acc [] best h a e = h best e
  best_of-kept P none (p ∷ ps) best h a e = elim (Bool-cases (usable p)) [
    | inl u ↦
        best_of-kept P (some p) ps best (λ b f. subst P (cc) (a.0 u)) a.1 (rw (u, best_of) at e)
    | inr u ↦ best_of-kept P none ps best h a.1 (rw (u, best_of) at e)
  ]
  best_of-kept P (some b) (p ∷ ps) best h a e = elim (Bool-cases (usable p)) [
    | inr u ↦ best_of-kept P (some b) ps best h a.1 (rw (u, best_of) at e)
    | inl u ↦ elim (Bool-cases (better ops p b)) [
      | inl w ↦
          best_of-kept P (some p) ps best (λ b f. subst P (cc) (a.0 u)) a.1
            (rw (u, w, best_of) at e)
      | inr l ↦ best_of-kept P (some b) ps best h a.1 (rw (u, l, best_of) at e)
    ]
  ]

  best_of-some :
      (b : PeerInfo F) (ps : List (PeerInfo F))
      → (best : PeerInfo F) × (best_of ops (some b) ps ≡ some best)
  unfolding best_of
  best_of-some b [] = (b, refl)
  best_of-some b (p ∷ ps) = elim (Bool-cases (usable p)) [
    | inr u ↦ rw (u, best_of) (best_of-some b ps)
    | inl u ↦ elim (Bool-cases (better ops p b)) [
      | inl w ↦ rw (u, w, best_of) (best_of-some p ps)
      | inr l ↦ rw (u, l, best_of) (best_of-some b ps)
    ]
  ]

  best_of-none :
      (ps : List (PeerInfo F)) → best_of ops none ps ≡ none → All (λ p. usable p ≡ false) ps
  unfolding best_of
  best_of-none [] e = tt
  best_of-none (p ∷ ps) e = elim (Bool-cases (usable p)) [
    | inr u ↦ (u, best_of-none ps (rw (u, best_of) at e))
    | inl u ↦
        let f = best_of-some p ps in
        let there : best_of ops (some p) ps ≡ none = rw (u, best_of) at e in
        let clash : none ≡ some f.0 = sym there ∙ f.1 in cc
  ]

  alive_among-fresh :
      (now : ℕ) (m : Map (PeerInfo F))
      → All
          (λ p. usable p ≡ true → (is_alive ops now p ≡ true) × (usable p ≡ true))
          (alive_among ops now m)
  unfolding alive_among refreshed
  alive_among-fresh now [] = tt
  alive_among-fresh now (x ∷ xs) = elim (Bool-cases (is_alive ops now x.1)) [
    | inl e ↦ rw (e, alive_among) ((λ u. (e, u)), alive_among-fresh now xs)
    | inr e ↦ rw (e, alive_among) (alive_among-fresh now xs)
  ]

  -- What a choice among the alive peers is to be.
  abbrev pub Chosen : ℕ → List (PeerInfo F) → Option (PeerInfo F) → Type 0
  Chosen now ps none = All (λ p. usable p ≡ false) ps
  Chosen now ps (some best) =
      (is_alive ops now best ≡ true) × ((usable best ≡ true) × Unbeaten best ps)

  -- GetBestPeer gives a peer that was seen in the last 30 seconds and has capacity left, and no alive
  -- peer with capacity left has a lower load, or the same load and more capacity. It gives none only
  -- if no alive peer has capacity left. It assumes that loads compare like numbers.
  pub get_best_peer-Chosen :
      (now : ℕ) (m : MeshDiscovery F)
      → Chosen now (get_alive_peers ops now m).0 (get_best_peer ops now m)
  unfolding get_best_peer get_alive_peers
  get_best_peer-Chosen now m =
      elim (Option-cases (best_of ops none (alive_among ops now m.peers))) [
        | inl e ↦ rw (e) (best_of-none (alive_among ops now m.peers) e)
        | inr (best, e) ↦
            let kept =
              best_of-kept (λ p. (is_alive ops now p ≡ true) × (usable p ≡ true)) none
                (alive_among ops now m.peers) best (λ b f. cc) (alive_among-fresh now m.peers) e in
            rw (e)
              (kept.0, (kept.1, (best_of-Unbeaten none (alive_among ops now m.peers) best e).1))
      ]

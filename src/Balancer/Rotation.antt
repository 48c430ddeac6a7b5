-- ===== src/Balancer/Rotation.antt =====
-- Round robin (internal/balancer/balancer.go) over a list of candidates that does not change.
use ollama_local_hives_clust.Prelude.{
  ℕ, zero, suc, ◌+◌, ◌-◌, ◌%◌, ◌≤◌, ◌<◌, ◌≡◌, refl, sym, ap, ◌∙◌, Option, some, List, [], ◌∷◌, ◌++◌,
  arith, length, get_elem?, take, drop, map, length-drop,
}
use mathlib.Core.List.{map-append}
use native.Mathlib.Nat.{mod-add-mod, mod_self}
use ollama_local_hives_clust.Prelude.{take_all}
use ollama_local_hives_clust.Cluster.Node.{Node, FloatOps}
use ollama_local_hives_clust.Balancer.{Runtime, Balancer, round_robin}

mod-suc : (i n r : ℕ) → i % n ≡ r → r + 1 < n → (i + 1) % n ≡ suc r
mod-suc i n r e h = grind arith

mod_restart : (i n : ℕ) → 0 < n → (i + (n - i % n)) % n ≡ 0
mod_restart i n h =
    let small : i % n < n = omega arith in
    let whole : i % n + (n - i % n) ≡ n = omega arith in
    sym (mod-add-mod i n (n - i % n)) ∙ ap (λ t. t % n) whole ∙ mod_self n

module _ {A : Type 0} where
  -- The elements at the indices i, i + 1, … modulo the length, `k` of them.
  cycle : List A → ℕ → ℕ → List (Option A)
  cycle xs i zero = []
  cycle xs i (suc k) = get_elem? xs (i % length xs) ∷ cycle xs (i + 1) k

  cycle-add : (xs : List A) (i k l : ℕ) → cycle xs i (k + l) ≡ cycle xs i k ++ cycle xs (i + k) l
  unfolding cycle
  cycle-add xs i zero l =
      let e : i + 0 ≡ i = omega arith in let z : 0 + l ≡ l = omega arith in rw (e, z)
  cycle-add xs i (suc k) l =
      let e : i + suc k ≡ i + 1 + k = omega arith in
      let z : suc k + l ≡ suc (k + l) = omega arith in
      rw (e, z) (ap (◌∷◌ (get_elem? xs (i % length xs))) (cycle-add xs (i + 1) k l))

  drop-step :
      (xs : List A) (r : ℕ)
      → r < length xs
      → (x : A) × (get_elem? xs r ≡ some x) × (drop r xs ≡ x ∷ drop (suc r) xs)
  drop-step [] r h = elim h [ ]
  drop-step (x ∷ xs) zero h = (x, refl, refl)
  drop-step (x ∷ xs) (suc r) h = drop-step xs r (omega arith)

  -- Without passing the end, the picks are a stretch of the list.
  cycle-stretch :
      (xs : List A) (i r k : ℕ)
      → i % length xs ≡ r
      → r + k ≤ length xs
      → cycle xs i k ≡ map some (take k (drop r xs))
  unfolding cycle
  cycle-stretch xs i r zero e h = refl
  cycle-stretch xs i r (suc zero) e h = let (x, g, d) = drop-step xs r (omega arith) in rw (e, g, d)
  cycle-stretch xs i r (suc (suc k)) e h =
      let (x, g, d) = drop-step xs r (omega arith) in
      rw (e, g, d)
        (ap (◌∷◌ (some x)) (
          cycle-stretch xs (i + 1) (suc r) (suc k) (mod-suc i (length xs) r e (omega arith))
            (omega arith)))

  cycle-rotation :
      (xs : List A) (i : ℕ)
      → 0 < length xs
      → cycle xs i (length xs) ≡ map some (drop (i % length xs) xs ++ take (i % length xs) xs)
  cycle-rotation xs i h =
      let n : ℕ = length xs in
      let r : ℕ = i % n in
      let lt : r < n = omega arith in
      let parts : n ≡ n - r + r = omega arith in
      let first = cycle-stretch xs i r (n - r) refl (omega arith) in
      let again = cycle-stretch xs (i + (n - r)) 0 r (mod_restart i n h) (omega arith) in
      ap (cycle xs i) parts
      ∙ cycle-add xs i (n - r) r
      ∙ rw
          (first, again, take_all (n - r) (drop r xs) (omega (arith, length-drop r xs)), map-append)

module _ {F : Type 0} (rt : Runtime (Node F)) (ops : FloatOps F) where
  -- The results of `k` calls of `roundRobin` one after another.
  pub picks : Balancer → List (Node F) → ℕ → List (Option (Node F))
  picks b nodes zero = []
  picks b nodes (suc k) =
      (round_robin rt ops b nodes).0 ∷ picks (round_robin rt ops b nodes).1 nodes k

  picks-cycle :
      (b : Balancer) (nodes : List (Node F)) (k : ℕ) → picks b nodes k ≡ cycle nodes b.rr_index k
  unfolding picks cycle round_robin
  picks-cycle b nodes zero = refl
  picks-cycle b nodes (suc k) = rw (picks-cycle (record b { rr_index = b.rr_index + 1 }) nodes k)

  -- As many calls of `roundRobin` as there are candidates, on a list that stays as it is, pick each
  -- candidate exactly once: they give the list, from the position of the index on.
  pub round_robin-rotation :
      (b : Balancer) (nodes : List (Node F))
      → 0 < length nodes
      → picks b nodes (length nodes)
        ≡ map some
            (drop (b.rr_index % length nodes) nodes ++ take (b.rr_index % length nodes) nodes)
  round_robin-rotation b nodes h =
      picks-cycle b nodes (length nodes) ∙ cycle-rotation nodes b.rr_index h

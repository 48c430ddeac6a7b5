-- ===== src/Prelude/Slices.antt =====
-- Laws of Go's slice expressions, over `take`, `drop` and `set`.
use Prim.Native.Nat.{ℕ, zero, suc, ◌+◌, min, ◌≤◌, ◌<◌}
use mathlib.Core.Path.{◌≡◌, refl, sym, ap, ◌∙◌}
use mathlib.Core.List.{List, [], ◌∷◌, ◌++◌}
use native.Mathlib.Omega.{arith}
use ollama_local_hives_clust.Prelude.Lists.{length, take, drop, set}

module _ {ℓ} {A : Type ℓ} where
  pub take-append_le : (i : ℕ) (xs ys : List A) → i ≤ length xs → take i (xs ++ ys) ≡ take i xs
  take-append_le zero xs ys h = refl
  take-append_le (suc i) [] ys h = absurd (omega arith)
  take-append_le (suc i) (x ∷ xs) ys h = ap (◌∷◌ x) (take-append_le i xs ys (omega arith))

  pub drop-append_le :
      (i : ℕ) (xs ys : List A) → i ≤ length xs → drop i (xs ++ ys) ≡ drop i xs ++ ys
  drop-append_le zero xs ys h = refl
  drop-append_le (suc i) [] ys h = absurd (omega arith)
  drop-append_le (suc i) (x ∷ xs) ys h = drop-append_le i xs ys (omega arith)

  pub drop_all : (n : ℕ) (xs : List A) → length xs ≤ n → drop n xs ≡ []
  drop_all zero [] h = refl
  drop_all zero (x ∷ xs) h = absurd (omega arith)
  drop_all (suc n) [] h = refl
  drop_all (suc n) (x ∷ xs) h = drop_all n xs (omega arith)

  pub take_all : (n : ℕ) (xs : List A) → length xs ≤ n → take n xs ≡ xs
  take_all zero [] h = refl
  take_all zero (x ∷ xs) h = absurd (omega arith)
  take_all (suc n) [] h = refl
  take_all (suc n) (x ∷ xs) h = ap (◌∷◌ x) (take_all n xs (omega arith))

  pub set-take-suc :
      (i : ℕ) (xs zs : List A) (v : A)
      → i < length xs
      → set (take (suc i) xs ++ zs) i v ≡ take i xs ++ v ∷ zs
  set-take-suc i [] zs v h = absurd (omega arith)
  set-take-suc zero (x ∷ xs) zs v h = refl
  set-take-suc (suc i) (x ∷ xs) zs v h = ap (◌∷◌ x) (set-take-suc i xs zs v (omega arith))

  pub drop-drop : (m n : ℕ) (xs : List A) → drop m (drop n xs) ≡ drop (n + m) xs
  drop-drop m zero xs = ap (λ t. drop t xs) (omega arith)
  drop-drop m (suc n) [] = drop_all m [] (omega arith) ∙ sym (drop_all (suc n + m) [] (omega arith))
  drop-drop m (suc n) (x ∷ xs) =
      drop-drop m n xs ∙ ap (λ t. drop t (x ∷ xs)) {x = suc (n + m)} (omega arith)

  pub take-take : (m n : ℕ) (xs : List A) → take m (take n xs) ≡ take (min m n) xs
  take-take zero n xs = ap (λ t. take t xs) {x = 0} (omega arith)
  take-take (suc m) zero xs = ap (λ t. take t xs) {x = 0} (omega arith)
  take-take (suc m) (suc n) [] = sym (take_all (min (suc m) (suc n)) [] (omega arith))
  take-take (suc m) (suc n) (x ∷ xs) =
      let e : min (suc m) (suc n) ≡ suc (min m n) = omega arith in
      rw e (ap (◌∷◌ x) (take-take m n xs))

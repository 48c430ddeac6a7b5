-- ===== src/Balancer/Sorting.antt =====
-- A runtime for internal/balancer/balancer.go: insertion sort for `sort.Slice`, and a `rand.Intn`
-- that is always 0.
use mathlib.Core.List.{Perm}
use mathlib.Core.List.Perm as Perms
use ollama_local_hives_clust.Prelude.{
  ◌≡◌, inl, inr, Bool, true, false, List, [], ◌∷◌, if◌then◌else◌, All, All-mono, Bool-cases,
}
use ollama_local_hives_clust.Balancer.{IsStrictWeak, Sorted, Runtime}

module _ {A : Type 0} (less : A → A → Bool) where
  unfoldable pub insert_sorted : A → List A → List A
  insert_sorted x [] = x ∷ []
  insert_sorted x (y ∷ ys) =
      let rest = insert_sorted x ys in if less y x then y ∷ rest else x ∷ y ∷ ys

  unfoldable pub sort : List A → List A
  unfolding insert_sorted
  sort [] = []
  sort (x ∷ xs) = insert_sorted x (sort xs)

  insert-Perm : (x : A) (ys : List A) → Perm (insert_sorted x ys) (x ∷ ys)
  unfolding insert_sorted
  insert-Perm x [] = Perms.refl (x ∷ [])
  insert-Perm x (y ∷ ys) = elim (Bool-cases (less y x)) [
    | inl e ↦ rw e (Perms.trans (Perms.cons y (insert-Perm x ys)) (Perms.swap x y ys))
    | inr e ↦ rw e (Perms.refl (x ∷ y ∷ ys))
  ]

  insert-All : (P : A → Type 0) (x : A) (ys : List A) → P x → All P ys → All P (insert_sorted x ys)
  unfolding insert_sorted
  insert-All P x [] p a = (p, tt)
  insert-All P x (y ∷ ys) p a = elim (Bool-cases (less y x)) [
    | inl e ↦ rw e (a.0, insert-All P x ys p a.1)
    | inr e ↦ rw e (p, a)
  ]

  insert-Sorted :
      (x : A) (ys : List A) → IsStrictWeak less → Sorted less ys → Sorted less (insert_sorted x ys)
  unfolding insert_sorted
  insert-Sorted x [] w s = (tt, tt)
  insert-Sorted x (y ∷ ys) w s = elim (Bool-cases (less y x)) [
    | inl e ↦
        rw e (insert-All (λ z. less z y ≡ false) x ys (asymmetric e) s.0, insert-Sorted x ys w s.1)
    | inr e ↦ rw e ((e, All-mono ys (λ z low. above z e low) s.0), s)
  ]
    where
      asymmetric : less y x ≡ true → less x y ≡ false
      asymmetric e = elim (Bool-cases (less x y)) [
        | inr f ↦ f
        | inl f ↦ elim (Bool-cases (less x x)) [
          | inl g ↦ cc (g, w.irrefl x)
          | inr g ↦ cc (w.trans x y x f e, g)
        ]
      ]

      above : (z : A) → less y x ≡ false → less z y ≡ false → less z x ≡ false
      above z e low = elim (Bool-cases (less z x)) [
        | inr f ↦ f
        | inl f ↦ elim (w.split z y x f) [ inl g ↦ cc | inr g ↦ cc ]
      ]

  pub sort-Perm : (xs : List A) → Perm (sort xs) xs
  unfolding sort
  sort-Perm [] = Perms.refl []
  sort-Perm (x ∷ xs) = Perms.trans (insert-Perm x (sort xs)) (Perms.cons x (sort-Perm xs))

  pub sort-Sorted : (xs : List A) → IsStrictWeak less → Sorted less (sort xs)
  unfolding sort
  sort-Sorted [] w = tt
  sort-Sorted (x ∷ xs) w = insert-Sorted x (sort xs) w (sort-Sorted xs w)

abbrev pub insertion_runtime : (A : Type 0) → Runtime A
insertion_runtime A = record {
  sort_slice = sort;
  sort_perm = sort-Perm;
  sort_sorted = sort-Sorted;
  intn = λ calls n. 0;
  intn_lt = λ calls n positive. positive;
}

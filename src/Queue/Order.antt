-- ===== src/Queue/Order.antt =====
-- Lists of requests with falling priorities (internal/queue/queue.go), and the requests of one
-- priority in their order of arrival.
use ollama_local_hives_clust.Prelude.{
  ◌≡◌, refl, List, [], ◌∷◌, ◌++◌, arith, if◌then◌else◌, ℤ, ltb_ℤ, ltb_ℤ→lt, ltb_ℤ→le, eqb_ℤ,
  eqb_ℤ→parts, append-nil, ◌≤ℤ◌, ◌<ℤ◌, Bool-cases, inl, inr, All, All-mono, All-remove,
}
use ollama_local_hives_clust.Queue.{Heap, Ref}
use ollama_local_hives_clust.Queue.Insertion.{insort}

abbrev pub NoHigher : Heap → ℤ → List Ref → Type 0
NoHigher h p = All (λ y. (h y).priority ≤ℤ p)

-- No request stands before one of a higher priority.
abbrev pub Falls : Heap → List Ref → Type 0
Falls h [] = Unit
Falls h (x ∷ xs) = NoHigher h (h x).priority xs × Falls h xs

abbrev pub SamePriorities : Heap → Heap → Type 0
SamePriorities g h = (s : Ref) → (g s).priority ≡ (h s).priority

NoHigher-mono : (h : Heap) (p q : ℤ) (xs : List Ref) → p ≤ℤ q → NoHigher h p xs → NoHigher h q xs
NoHigher-mono h p q xs le = All-mono xs (λ y below. omega arith)

pub Falls-same : (g h : Heap) (xs : List Ref) → SamePriorities g h → Falls h xs → Falls g xs
Falls-same g h [] same f = tt
Falls-same g h (x ∷ xs) same f =
    (All-mono xs (λ y below. rw (same y, same x) below) f.0, Falls-same g h xs same f.1)

-- The two heaps agree on the priorities of the listed requests.
abbrev pub AgreeOn : Heap → Heap → List Ref → Type 0
AgreeOn g h = All (λ s. (g s).priority ≡ (h s).priority)

NoHigher-agree :
    (g h : Heap) (p q : ℤ) (xs : List Ref)
    → p ≡ q
    → AgreeOn g h xs
    → NoHigher h q xs
    → NoHigher g p xs
NoHigher-agree g h p q [] e a f = tt
NoHigher-agree g h p q (x ∷ xs) e a f = (rw (a.0, e) f.0, NoHigher-agree g h p q xs e a.1 f.1)

pub Falls-agree : (g h : Heap) (xs : List Ref) → AgreeOn g h xs → Falls h xs → Falls g xs
Falls-agree g h [] a f = tt
Falls-agree g h (x ∷ xs) a f =
    (NoHigher-agree g h (g x).priority (h x).priority xs a.0 a.1 f.0, Falls-agree g h xs a.1 f.1)

insort-NoHigher :
    (h : Heap) (p q : ℤ) (r : Ref) (xs : List Ref)
    → (h r).priority ≤ℤ q
    → NoHigher h q xs
    → NoHigher h q (insort h p r xs)
unfolding insort
insort-NoHigher h p q r [] le f = (le, tt)
insort-NoHigher h p q r (x ∷ xs) le f = elim (Bool-cases (ltb_ℤ (h x).priority p)) [
  | inl lower ↦ rw lower (le, f)
  | inr not_lower ↦ rw not_lower (f.0, insort-NoHigher h p q r xs le f.1)
]

-- Insertion keeps the priorities falling.
pub insort-Falls :
    (h : Heap) (r : Ref) (xs : List Ref) → Falls h xs → Falls h (insort h (h r).priority r xs)
unfolding insort
insort-Falls h r [] f = (tt, tt)
insort-Falls h r (x ∷ xs) f = elim (Bool-cases (ltb_ℤ (h x).priority (h r).priority)) [
  | inl lower ↦
      let lt = ltb_ℤ→lt (h x).priority (h r).priority lower in
      rw lower
        ((omega arith, NoHigher-mono h (h x).priority (h r).priority xs (omega arith) f.0), f)
  | inr not_lower ↦ rw not_lower (
    insort-NoHigher h (h r).priority (h x).priority r xs
        (ltb_ℤ→le (h x).priority (h r).priority not_lower) f.0,
    insort-Falls h r xs f.1,
  )
]

pub Falls-remove :
    (h : Heap) (r : Ref) (xs ys : List Ref) → Falls h (xs ++ r ∷ ys) → Falls h (xs ++ ys)
Falls-remove h r [] ys f = f.1
Falls-remove h r (x ∷ xs) ys f =
    (All-remove (λ y. (h y).priority ≤ℤ (h x).priority) r xs ys f.0, Falls-remove h r xs ys f.1)

-- The requests of one priority, in their order.
unfoldable pub of_class : Heap → ℤ → List Ref → List Ref
of_class h c [] = []
of_class h c (x ∷ xs) =
    let rest = of_class h c xs in if eqb_ℤ (h x).priority c then x ∷ rest else rest

of_class_above :
    (h : Heap) (p c : ℤ) (xs : List Ref) → p <ℤ c → NoHigher h p xs → of_class h c xs ≡ []
unfolding of_class
of_class_above h p c [] lt f = refl
of_class_above h p c (x ∷ xs) lt f = ground (arith, of_class_above h p c xs lt f.1)

pub of_class-same :
    (g h : Heap) (c : ℤ) (xs : List Ref) → SamePriorities g h → of_class g c xs ≡ of_class h c xs
unfolding of_class
of_class-same g h c [] same = refl
of_class-same g h c (x ∷ xs) same = rw (same x, of_class-same g h c xs same)

-- Insertion into falling priorities appends to the request's own class and to no other.
pub of_class-insort :
    (h : Heap) (r : Ref) (c : ℤ) (xs : List Ref)
    → Falls h xs
    → of_class h c (insort h (h r).priority r xs)
      ≡ of_class h c xs ++ (if eqb_ℤ (h r).priority c then r ∷ [] else [])
unfolding of_class insort
of_class-insort h r c [] f = ground arith
of_class-insort h r c (x ∷ xs) f = elim (Bool-cases (ltb_ℤ (h x).priority (h r).priority)) [
  | inl lower ↦ elim (Bool-cases (eqb_ℤ (h r).priority c)) [
    | inl own ↦
        let below : of_class h c (x ∷ xs) ≡ [] =
          of_class_above h (h x).priority c (x ∷ xs)
            (omega (
              arith,
              ltb_ℤ→lt (h x).priority (h r).priority lower,
              eqb_ℤ→parts (h r).priority c own,
            ))
            (omega arith, f.0) in
        ground (arith, below)
    | inr other ↦ rw (lower, other) (ground (arith, append-nil (of_class h c (x ∷ xs))))
  ]
  | inr not_lower ↦ rw not_lower (ground (arith, of_class-insort h r c xs f.1))
]

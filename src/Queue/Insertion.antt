-- ===== src/Queue/Insertion.antt =====
-- The insertion of `Enqueue` (internal/queue/queue.go): the index loop, the append, the overlapping
-- copy and the write amount to one pass that puts the request before the first lower priority.
use ollama_local_hives_clust.Prelude.{
  ℕ, suc, ◌+◌, ◌-◌, ◌≤◌, min, ◌≡◌, refl, none, some, List, [], ◌∷◌, ◌++◌, arith, if◌then◌else◌,
  length, take, drop, length-append, length-drop, ℤ, ltb_ℤ, append-nil, Bool-cases, Option-cases,
  inl, inr,
}
use native.Mathlib.Numerals.{add-one}
use ollama_local_hives_clust.Queue.{Heap, Ref, first_lower, insert_idx, copy_within, place, nil_ref}
use ollama_local_hives_clust.Prelude.{
  take-append_le, drop-append_le, drop_all, take_all, set-take-suc,
}

-- The reference definition: stable insertion into a list of falling priorities.
unfoldable pub insort : Heap → ℤ → Ref → List Ref → List Ref
insort h p r [] = r ∷ []
insort h p r (x ∷ xs) = if ltb_ℤ (h x).priority p then r ∷ x ∷ xs else x ∷ insort h p r xs

-- The copy moves the tail one place to the right and drops the slot that `append` made.
copy_within_lem :
    (items : List Ref) (i : ℕ)
    → i ≤ length items
    → copy_within (items ++ nil_ref ∷ []) (i + 1) i
      ≡ take (i + 1) (items ++ nil_ref ∷ []) ++ drop i items
unfolding copy_within
copy_within_lem items i h =
    let grown : List Ref = items ++ nil_ref ∷ [] in
    let n_grown : length grown ≡ length items + 1 =
      omega (arith, length-append items (nil_ref ∷ [])) in
    let k : min (length grown - (i + 1)) (length grown - i) ≡ length items - i = omega arith in
    rw (
      k,
      drop-append_le i items (nil_ref ∷ []) h,
      take-append_le (length items - i) (drop i items) (nil_ref ∷ [])
          (omega (arith, length-drop i items)),
      take_all (length items - i) (drop i items) (omega (arith, length-drop i items)),
      drop_all (i + 1 + (length items - i)) grown (omega arith),
      append-nil,
    )

place_lem :
    (items : List Ref) (i : ℕ) (r : Ref)
    → i ≤ length items
    → place items i r ≡ take i items ++ r ∷ drop i items
unfolding place
place_lem items i r h = rw (
  copy_within_lem items i h,
  add-one,
  set-take-suc i (items ++ nil_ref ∷ []) (drop i items) r
      (omega (arith, length-append items (nil_ref ∷ []))),
  take-append_le i items (nil_ref ∷ []) h,
)

insort-none :
    (h : Heap) (p : ℤ) (r : Ref) (xs : List Ref) (i : ℕ)
    → first_lower h p xs i ≡ none
    → insort h p r xs ≡ xs ++ r ∷ []
unfolding insort first_lower
insort-none h p r [] i e = refl
insort-none h p r (x ∷ xs) i e = ground (arith, insort-none h p r xs (i + 1))

insort-some :
    (h : Heap) (p : ℤ) (r : Ref) (xs : List Ref) (i k : ℕ)
    → first_lower h p xs i ≡ some k
    → (i ≤ k) × (k - i ≤ length xs) × (insort h p r xs ≡ take (k - i) xs ++ r ∷ drop (k - i) xs)
unfolding insort first_lower
insort-some h p r [] i k e = cc
insort-some h p r (x ∷ xs) i k e = elim (Bool-cases (ltb_ℤ (h x).priority p)) [
  | inl lower ↦
      let here : k - i ≡ 0 = ground arith in (ground arith, rw here (omega arith), rw (here, lower))
  | inr not_lower ↦
      let (a, b, c) = insort-some h p r xs (i + 1) k (ground arith) in
      let there : k - i ≡ suc (k - (i + 1)) = omega arith in
      (omega arith, rw there (omega arith), rw (there, not_lower, c))
]

-- The whole insertion of `Enqueue` is the reference insertion.
pub place-insort :
    (h : Heap) (p : ℤ) (r : Ref) (items : List Ref)
    → place items (insert_idx h p items) r ≡ insort h p r items
unfolding insert_idx
place-insort h p r items = elim (Option-cases (first_lower h p items 0)) [
  | inl e ↦ rw (
    e,
    insert_idx,
    place_lem items (length items) r (omega arith),
    insort-none h p r items 0 e,
    take_all (length items) items (omega arith),
    drop_all (length items) items (omega arith),
  )
  | inr (k, e) ↦
      let (a, b, c) = insort-some h p r items 0 k e in
      let start : k - 0 ≡ k = omega arith in
      rw (e, insert_idx, place_lem items k r (omega arith), c, start)
]

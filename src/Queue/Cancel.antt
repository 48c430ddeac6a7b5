-- ===== src/Queue/Cancel.antt =====
-- `Cancel` (internal/queue/queue.go) against the first pending request with the id.
use ollama_local_hives_clust.Prelude.{
  ℕ, suc, ◌+◌, ◌-◌, ◌≤◌, ◌≡◌, ap, String, Bool, true, false, ◌&&◌, none, some, List, [], ◌∷◌, ◌++◌,
  arith, take, drop, All, Bool-cases, Option-cases, inl, inr, str_eq,
}
use native.Mathlib.Numerals.{add-one}
use ollama_local_hives_clust.Queue.{
  Heap, Ref, Queue, failed, is_pending, store, find_pending, cancel,
}

-- The request can be cancelled under the id.
abbrev pub matches : Heap → String → Ref → Bool
matches h id x = str_eq (h x).id id && is_pending (h x).status

find_none :
    (h : Heap) (id : String) (xs : List Ref) (i : ℕ)
    → find_pending h id xs i ≡ none
    → All (λ x. matches h id x ≡ false) xs
unfolding find_pending
find_none h id [] i e = tt
find_none h id (x ∷ xs) i e = elim (Bool-cases (matches h id x)) [
  | inl hit ↦ ground arith
  | inr miss ↦ (miss, find_none h id xs (i + 1) (ground arith))
]

find_some :
    (h : Heap) (id : String) (xs : List Ref) (i k : ℕ) (r : Ref)
    → find_pending h id xs i ≡ some (k, r)
    → (i ≤ k)
      × (xs ≡ take (k - i) xs ++ r ∷ drop (suc (k - i)) xs)
      × All (λ x. matches h id x ≡ false) (take (k - i) xs)
      × (matches h id r ≡ true)
unfolding find_pending
find_some h id [] i k r e = cc
find_some h id (x ∷ xs) i k r e = elim (Bool-cases (matches h id x)) [
  | inl hit ↦
      let here : k - i ≡ 0 = ground arith in
      let this : x ≡ r = ground arith in (ground arith, rw (here, this), rw here tt, rw this at hit)
  | inr miss ↦
      let (a, b, c, d) = find_some h id xs (i + 1) k r (ground arith) in
      let there : k - i ≡ suc (k - (i + 1)) = omega arith in
      (omega arith, rw there (ap (◌∷◌ x) b), rw there (miss, c), d)
]

-- What `Cancel` returns and leaves: nothing matched and nothing changed, or the first match left
-- the queue, which keeps the others in order, and is marked failed.
pub data Cancelled (h : Heap) (q : Queue) (id : String) : Bool × Heap × Queue → Type 0 where
  missed : All (λ x. matches h id x ≡ false) q.items → Cancelled h q id (false, h, q)
  removed :
      (before after : List Ref) (r : Ref)
      → q.items ≡ before ++ r ∷ after
      → All (λ x. matches h id x ≡ false) before
      → matches h id r ≡ true
      → Cancelled h q id
          (true, store h r (record (h r) { status = failed }), record q { items = before ++ after })

-- `Cancel` takes out the first pending request with the id and marks it failed, and reports true;
-- where no request in the queue is pending under the id it reports false and changes nothing.
pub cancel_first : (h : Heap) (q : Queue) (id : String) → Cancelled h q id (cancel h q id)
unfolding cancel
cancel_first h q id = elim (Option-cases (find_pending h id q.items 0)) [
  | inl e ↦ rw (e, cancel) (missed (find_none h id q.items 0 e))
  | inr ((k, r), e) ↦
      let (a, b, c, d) = find_some h id q.items 0 k r e in
      let start : k - 0 ≡ k = omega arith in
      rw (e, cancel, add-one)
        (removed (take k q.items) (drop (suc k) q.items) r (rw start at b) (rw start at c) d)
]

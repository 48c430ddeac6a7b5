-- ===== src/Queue/Reversal.antt =====
-- The in-place reversal at the end of `History.List` (internal/queue/queue.go).
use ollama_local_hives_clust.Prelude.{
  ℕ, zero, suc, ◌+◌, ◌-◌, ◌≤◌, ◌<◌, ◌≡◌, refl, ap, sym, ◌∙◌, some, List, [], ◌∷◌, ◌++◌, arith,
  length, set, get_elem?, reverse, append-nil, append_assoc, length-append, lt→ltb, take, drop,
  dec_lt,
}
use ollama_local_hives_clust.Queue.{Ref, swap, reverse_loop}
use ollama_local_hives_clust.Prelude.{take-append_le, take_all}
use mathlib.Core.List.{reverse-cons, reverse-append}

-- In the middle of `ps ++ xs ++ ss`, the loop from the first to the last index of `xs` reverses `xs`.
get_at : (ps zs : List Ref) (x : Ref) (i : ℕ) → i ≡ length ps → get_elem? (ps ++ x ∷ zs) i ≡ some x
get_at [] zs x i e = rw e
get_at (p ∷ ps) zs x zero e = absurd (omega arith)
get_at (p ∷ ps) zs x (suc i) e = get_at ps zs x i (omega arith)

set_at :
    (ps zs : List Ref) (x v : Ref) (i : ℕ) → i ≡ length ps → set (ps ++ x ∷ zs) i v ≡ ps ++ v ∷ zs
set_at [] zs x v i e = rw e
set_at (p ∷ ps) zs x v zero e = absurd (omega arith)
set_at (p ∷ ps) zs x v (suc i) e = ap (◌∷◌ p) (set_at ps zs x v i (omega arith))

swap-some :
    (xs : List Ref) (x y : Ref) (i j : ℕ)
    → get_elem? xs i ≡ some x
    → get_elem? xs j ≡ some y
    → swap xs i j ≡ set (set xs i y) j x
unfolding swap
swap-some xs x y i j ex ey = rw (ex, swap, ey)

swap_ends :
    (ps mid ss : List Ref) (x y : Ref) (i j : ℕ)
    → i ≡ length ps
    → j ≡ length ps + length mid + 1
    → swap (ps ++ x ∷ (mid ++ y ∷ ss)) i j ≡ ps ++ y ∷ (mid ++ x ∷ ss)
swap_ends ps mid ss x y i j ei ej =
    let regroup : (a b : Ref) → ps ++ a ∷ (mid ++ b ∷ ss) ≡ (ps ++ a ∷ mid) ++ b ∷ ss =
      λ a b. sym (append_assoc ps (a ∷ mid) (b ∷ ss)) in
    let at_j : (a : Ref) → j ≡ length (ps ++ a ∷ mid) =
      λ a. omega (arith, length-append ps (a ∷ mid)) in
    swap-some (ps ++ x ∷ (mid ++ y ∷ ss)) x y i j (get_at ps (mid ++ y ∷ ss) x i ei)
      (rw (regroup x y) (get_at (ps ++ x ∷ mid) ss y j (at_j x)))
    ∙ rw (set_at ps (mid ++ y ∷ ss) x y i ei, regroup y y, set_at (ps ++ y ∷ mid) ss y x j (at_j y))
        (sym (regroup y x))

-- A list of two elements or more, by its ends.
data Ends : List Ref → Type 0 where
  none_left : Ends []
  one_left : (x : Ref) → Ends (x ∷ [])
  two_ends : (x y : Ref) (mid : List Ref) → Ends (x ∷ (mid ++ y ∷ []))

Ends-cons : (x : Ref) {xs : List Ref} → Ends xs → Ends (x ∷ xs)
Ends-cons x none_left = one_left x
Ends-cons x (one_left y) = two_ends x y []
Ends-cons x (two_ends a y mid) = two_ends x y (a ∷ mid)

ends : (xs : List Ref) → Ends xs
ends [] = none_left
ends (x ∷ xs) = Ends-cons x (ends xs)

reverse-ends :
    (x y : Ref) (mid : List Ref) → reverse (x ∷ (mid ++ y ∷ [])) ≡ y ∷ (reverse mid ++ x ∷ [])
reverse-ends x y mid =
    reverse-cons x (mid ++ y ∷ []) ∙ ap (λ t. t ++ x ∷ []) (reverse-append mid (y ∷ []))

-- With `fuel` rounds the loop reverses any segment of at most that length in place.
abbrev Reverses : ℕ → Type 0
Reverses fuel =
    (ps xs ss : List Ref) (i j : ℕ)
    → length xs ≤ fuel
    → i ≡ length ps
    → j ≡ length ps + length xs - 1
    → reverse_loop fuel (ps ++ (xs ++ ss)) i j ≡ ps ++ (reverse xs ++ ss)

round :
    (fuel : ℕ) (ps mid ss : List Ref) (x y : Ref) (i j : ℕ)
    → i < j
    → reverse_loop (suc fuel) (ps ++ ((x ∷ (mid ++ y ∷ [])) ++ ss)) i j
      ≡ reverse_loop fuel (swap (ps ++ x ∷ (mid ++ y ∷ ss)) i j) (i + 1) (j - 1)
unfolding reverse_loop
round fuel ps mid ss x y i j lt = rw (lt→ltb i j lt, append_assoc mid (y ∷ []) ss)

segment :
    (ps mid ss : List Ref) (x y : Ref)
    → (ps ++ y ∷ []) ++ (reverse mid ++ x ∷ ss) ≡ ps ++ (reverse (x ∷ (mid ++ y ∷ [])) ++ ss)
segment ps mid ss x y = rw (
  reverse-ends x y mid,
  append_assoc ps (y ∷ []) (reverse mid ++ x ∷ ss),
  append_assoc (reverse mid) (x ∷ []) ss,
)

reverse-Ends_step :
    (fuel : ℕ) (ps ss : List Ref) {xs : List Ref} (i j : ℕ)
    → Ends xs
    → Reverses fuel
    → length xs ≤ suc fuel
    → i ≡ length ps
    → j ≡ length ps + length xs - 1
    → reverse_loop (suc fuel) (ps ++ (xs ++ ss)) i j ≡ ps ++ (reverse xs ++ ss)
unfolding reverse_loop
reverse-Ends_step fuel ps ss i j none_left ih h ei ej = ground arith
reverse-Ends_step fuel ps ss i j (one_left x) ih h ei ej = ground arith
reverse-Ends_step fuel ps ss i j (two_ends x y mid) ih h ei ej =
    let n : length (mid ++ y ∷ []) ≡ length mid + 1 = length-append mid (y ∷ []) in
    round fuel ps mid ss x y i j (omega arith)
    ∙ rw (swap_ends ps mid ss x y i j ei (omega arith), ← append_assoc ps (y ∷ []) (mid ++ x ∷ ss))
        (ih (ps ++ y ∷ []) mid (x ∷ ss) (i + 1) (j - 1) (omega arith)
            (omega (arith, length-append ps (y ∷ []))) (omega (arith, length-append ps (y ∷ [])))
          ∙ segment ps mid ss x y)

reverse_loop_lem : (fuel : ℕ) → Reverses fuel
unfolding reverse_loop
reverse_loop_lem zero ps [] ss i j h ei ej = refl
reverse_loop_lem zero ps (x ∷ xs) ss i j h ei ej = absurd (omega arith)
reverse_loop_lem (suc fuel) ps xs ss i j h ei ej =
    reverse-Ends_step fuel ps ss i j (ends xs) (reverse_loop_lem fuel) h ei ej

-- The loop over a whole list, with one round for each of its elements, is the list reversed.
pub reverse_loop-reverse :
    (xs : List Ref) → reverse_loop (length xs) xs 0 (length xs - 1) ≡ reverse xs
reverse_loop-reverse xs =
    sym (ap (λ t. reverse_loop (length xs) t 0 (length xs - 1)) (append-nil xs))
    ∙ reverse_loop_lem (length xs) [] xs [] 0 (length xs - 1) (omega arith) refl (omega arith)
    ∙ append-nil (reverse xs)

length-reverse : (rs : List Ref) → length (reverse rs) ≡ length rs
length-reverse [] = refl
length-reverse (r ∷ rs) =
    let rest = length-reverse rs in
    let grown = length-append (reverse rs) (r ∷ []) in
    omega (arith, rest, grown, ap length (reverse-cons r rs))

-- The last `k` elements backwards are the first `k` of the reversed list.
pub reverse-drop : (k : ℕ) (xs : List Ref) → reverse (drop (length xs - k) xs) ≡ take k (reverse xs)
reverse-drop k [] = let z : 0 - k ≡ 0 = omega arith in rw (z, take_all {A = Ref} k [] (omega arith))
reverse-drop k (x ∷ xs) = elim (dec_lt (length xs) k) [
  | yes more ↦
      let z : length (x ∷ xs) - k ≡ 0 = omega arith in
      rw (z, take_all k (reverse (x ∷ xs)) (omega (arith, length-reverse (x ∷ xs))))
  | no less ↦
      let z : length (x ∷ xs) - k ≡ suc (length xs - k) = omega arith in
      rw
        (
          z,
          reverse-cons x xs,
          take-append_le k (reverse xs) (x ∷ []) (omega (arith, length-reverse xs)),
        )
        (reverse-drop k xs)
]

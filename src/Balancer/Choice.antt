-- ===== src/Balancer/Choice.antt =====
-- What `SelectNode` (internal/balancer/balancer.go) promises under each strategy.
use mathlib.Core.Bool.{Bool-set}
use mathlib.Core.List.{Mem, Perm, mem-cons, mem-cons_self, mem-cons_of_mem, not-mem-nil, Mem-prop}
use mathlib.Core.HLevel.{×_prop}
use mathlib.Core.List.Perm
use mathlib.Core.Logic.Or
use ollama_local_hives_clust.Prelude.{
  ℕ, zero, suc, ◌%◌, ◌<◌, ◌≡◌, inl, inr, refl, sym, ap, ◌∙◌, subst, not, ◌||◌, String, Bool, true,
  false, Option, none, some, List, [], ◌∷◌, arith, if◌then◌else◌, str_eq, length, get_elem?, All,
  Bool-cases, ◌≤ℤ◌, ltb_ℤ→le,
}
use ollama_local_hives_clust.Cluster.Node.{Node, FloatOps, load_score, available_slots}
use ollama_local_hives_clust.Balancer.{
  Runtime, IsStrictWeak, Sorted, Balancer, strategy_least_load, strategy_round_robin,
  strategy_random, strategy_capacity, lighter, roomier, least_load, best_capacity, round_robin,
  random, is_candidate, candidates, by_strategy, select_among, select_node,
}

-- An element that an index finds is in the list.
get_elem?-Mem : {A : Type 0} (xs : List A) (i : ℕ) (x : A) → get_elem? xs i ≡ some x → Mem x xs
get_elem?-Mem [] i x e = cc
get_elem?-Mem (y ∷ ys) zero x e = subst (λ t. Mem t (y ∷ ys)) (cc) mem-cons_self
get_elem?-Mem (y ∷ ys) (suc i) x e = mem-cons_of_mem y (get_elem?-Mem ys i x e)

get_elem?-total :
    {A : Type 0} (xs : List A) (i : ℕ) → i < length xs → (x : A) × (get_elem? xs i ≡ some x)
get_elem?-total [] i h = elim h [ ]
get_elem?-total (x ∷ xs) zero h = (x, refl)
get_elem?-total (x ∷ xs) (suc i) h = get_elem?-total xs i (omega arith)

All-mem :
    {A : Type 0} (less : A → A → Bool) (z y : A) (ys : List A)
    → All (λ t. less t z ≡ false) ys
    → Mem y ys
    → less y z ≡ false
All-mem less z y [] a m = absurd (not-mem-nil m)
All-mem less z y (t ∷ ys) a m =
    Or.elim (Bool-set (less y z) false) (mem-cons.0 m) (λ e. rw e a.0) (All-mem less z y ys a.1)

-- Of the first of a sorted list no element is less.
Sorted-first :
    {A : Type 0} (less : A → A → Bool) (xs : List A) (x y : A)
    → IsStrictWeak less
    → Sorted less xs
    → get_elem? xs 0 ≡ some x
    → Mem y xs
    → less y x ≡ false
Sorted-first less [] x y w s e m = cc
Sorted-first less (z ∷ zs) x y w s e m =
    let here : z ≡ x = cc in
    subst (λ t. less y t ≡ false) here
      (Or.elim (Bool-set (less y z) false) (mem-cons.0 m) (λ same. rw same (w.irrefl z))
        (All-mem less z y zs s.0))

-- The first of a rearranged list that is not empty.
first-Mem :
    {A : Type 0} (x : A) (xs ys : List A)
    → Perm ys (x ∷ xs)
    → (n : A) × (get_elem? ys 0 ≡ some n) × Mem n (x ∷ xs)
first-Mem x xs [] p = absurd (not-mem-nil ((Perm.mem_iff p).1 mem-cons_self))
first-Mem x xs (y ∷ ys) p = (y, refl, (Perm.mem_iff p).0 mem-cons_self)

indexed-Mem :
    {A : Type 0} (xs : List A) (i : ℕ)
    → i < length xs
    → (n : A) × (get_elem? xs i ≡ some n) × Mem n xs
indexed-Mem xs i h = let (n, e) = get_elem?-total xs i h in (n, e, get_elem?-Mem xs i n e)

if_both : {A : Type 0} (P : A → Type 0) (t : Bool) (a b : A) → P a → P b → P (if t then a else b)
if_both P true a b pa pb = pa
if_both P false a b pa pb = pb

module _ {F : Type 0} (rt : Runtime (Node F)) (ops : FloatOps F) where
  -- The candidates are the healthy nodes with a free slot.
  mem-candidates :
      (now : ℕ) (n : Node F) (nodes : List (Node F))
      → Mem n nodes
      → is_candidate rt ops now n ≡ true
      → Mem n (candidates rt ops now nodes)
  mem-candidates now n [] m c = m
  mem-candidates now n (x ∷ nodes) m c =
      Or.elim Mem-prop (mem-cons.0 m) (λ e. rw (← e, c) mem-cons_self)
        (λ later. elim (Bool-cases (is_candidate rt ops now x)) [
          | inl t ↦ rw t (mem-cons_of_mem x (mem-candidates now n nodes later c))
          | inr f ↦ rw f (mem-candidates now n nodes later c)
        ])

  abbrev pub IsCandidate : ℕ → List (Node F) → Node F → Type 0
  IsCandidate now nodes n = Mem n nodes × (is_candidate rt ops now n ≡ true)

  IsCandidate-prop :
      (now : ℕ) (nodes : List (Node F)) (n : Node F) → IsProp (IsCandidate now nodes n)
  IsCandidate-prop now nodes n = ×_prop Mem-prop (Bool-set (is_candidate rt ops now n) true)

  candidates-mem :
      (now : ℕ) (n : Node F) (nodes : List (Node F))
      → Mem n (candidates rt ops now nodes)
      → IsCandidate now nodes n
  candidates-mem now n [] m = absurd (not-mem-nil m)
  candidates-mem now n (x ∷ nodes) m = elim (Bool-cases (is_candidate rt ops now x)) [
    | inl t ↦
        Or.elim (IsCandidate-prop now (x ∷ nodes) n) (mem-cons.0 (rw t at m))
          (λ e. (rw e mem-cons_self, rw e t))
          (λ later. let (a, c) = candidates-mem now n nodes later in (mem-cons_of_mem x a, c))
    | inr f ↦ let (a, c) = candidates-mem now n nodes (rw f at m) in (mem-cons_of_mem x a, c)
  ]

  abbrev Picks : List (Node F) → Option (Node F) × Balancer → Type 0
  Picks xs r = (n : Node F) × (r.0 ≡ some n) × Mem n xs

  -- Each strategy picks a node of a list that is not empty.
  by_strategy-Picks :
      (b : Balancer) (x : Node F) (xs : List (Node F))
      → Picks (x ∷ xs) (by_strategy rt ops b (x ∷ xs))
  unfolding by_strategy
  by_strategy-Picks b x xs =
      let light : Picks (x ∷ xs) (least_load rt ops (x ∷ xs), b) =
        first-Mem x xs (rt.sort_slice (lighter rt ops) (x ∷ xs))
          (rt.sort_perm (lighter rt ops) (x ∷ xs)) in
      let roomy : Picks (x ∷ xs) (best_capacity rt ops (x ∷ xs), b) =
        first-Mem x xs (rt.sort_slice (roomier rt ops) (x ∷ xs))
          (rt.sort_perm (roomier rt ops) (x ∷ xs)) in
      let turn : Picks (x ∷ xs) (round_robin rt ops b (x ∷ xs)) =
        indexed-Mem (x ∷ xs) (b.rr_index % length (x ∷ xs)) (omega arith) in
      let drawn : Picks (x ∷ xs) (random rt ops b (x ∷ xs)) =
        indexed-Mem (x ∷ xs) (rt.intn b.rand_calls (length (x ∷ xs)))
          (rt.intn_lt b.rand_calls (length (x ∷ xs)) (omega arith)) in
      if_both (Picks (x ∷ xs)) (str_eq b.strategy strategy_least_load) _ _ light (
        if_both (Picks (x ∷ xs)) (str_eq b.strategy strategy_round_robin) _ _ turn (
          if_both (Picks (x ∷ xs)) (str_eq b.strategy strategy_random) _ _ drawn
            (if_both (Picks (x ∷ xs)) (str_eq b.strategy strategy_capacity) _ _ roomy light)))

  -- What `SelectNode` gives back.
  pub data Selected (nodes : List (Node F)) (now : ℕ) : Option (Node F) × Balancer → Type 0 where
    nobody :
        (b : Balancer)
        → ((n : Node F) → Mem n nodes → is_candidate rt ops now n ≡ false)
        → Selected nodes now (none, b)
    somebody :
        (b : Balancer) (n : Node F) → IsCandidate now nodes n → Selected nodes now (some n, b)

  -- Under every strategy, known or not, `SelectNode` gives one of the cluster's nodes that is online,
  -- was heard of within ten seconds and has a free slot; it gives none only if there is no such node.
  pub select_node-Selected :
      (b : Balancer) (nodes : List (Node F)) (now : ℕ)
      → Selected nodes now (select_node rt ops b nodes now)
  unfolding select_node
  select_node-Selected b nodes now = chosen (candidates rt ops now nodes) refl
    where
      chosen :
          (cs : List (Node F))
          → candidates rt ops now nodes ≡ cs
          → Selected nodes now (select_among rt ops b cs)
      chosen [] e = nobody b λ n m. elim (Bool-cases (is_candidate rt ops now n)) [
        | inl c ↦ absurd (not-mem-nil (subst (Mem n) e (mem-candidates now n nodes m c)))
        | inr f ↦ f
      ]
      chosen (c ∷ cs) e =
          let (n, r, m) = by_strategy-Picks b c cs in
          subst (λ t. Selected nodes now (t, (by_strategy rt ops b (c ∷ cs)).1)) (sym r)
            (somebody (by_strategy rt ops b (c ∷ cs)).1 n (candidates-mem now n nodes (rw e m)))

  -- The strategies that mean the least load: its own name, and any that is not known.
  abbrev pub means_least_load : String → Bool
  means_least_load s =
      str_eq s strategy_least_load
      || not
          (str_eq s strategy_round_robin || str_eq s strategy_random || str_eq s strategy_capacity)

  by_least_load :
      (b : Balancer) (xs : List (Node F))
      → means_least_load b.strategy ≡ true
      → by_strategy rt ops b xs ≡ (least_load rt ops xs, b)
  unfolding by_strategy
  by_least_load b xs h = ground arith

  least_load-first :
      (xs : List (Node F)) (n y : Node F)
      → IsStrictWeak (lighter rt ops)
      → least_load rt ops xs ≡ some n
      → Mem y xs
      → lighter rt ops y n ≡ false
  unfolding least_load
  least_load-first xs n y w e m =
      Sorted-first (lighter rt ops) (rt.sort_slice (lighter rt ops) xs) n y w
        (rt.sort_sorted (lighter rt ops) xs w) e
        ((Perm.mem_iff (rt.sort_perm (lighter rt ops) xs)).1 m)

  -- Where the load scores are ordered, no healthy node with a free slot has a lower load score than
  -- the node that the least-load strategy, or a strategy that is not known, selects.
  pub least_load-best :
      (b : Balancer) (nodes : List (Node F)) (now : ℕ) (n y : Node F)
      → IsStrictWeak (lighter rt ops)
      → means_least_load b.strategy ≡ true
      → (select_node rt ops b nodes now).0 ≡ some n
      → IsCandidate now nodes y
      → ops.less (load_score ops y) (load_score ops n) ≡ false
  unfolding select_node
  least_load-best b nodes now n y w h e c =
      best (candidates rt ops now nodes) e (mem-candidates now y nodes c.0 c.1)
    where
      best :
          (cs : List (Node F))
          → (select_among rt ops b cs).0 ≡ some n
          → Mem y cs
          → ops.less (load_score ops y) (load_score ops n) ≡ false
      best [] r m = absurd (not-mem-nil m)
      best (x ∷ xs) r m =
          least_load-first (x ∷ xs) n y w (sym (ap (λ t. t.0) (by_least_load b (x ∷ xs) h)) ∙ r) m

  roomier-IsStrictWeak : IsStrictWeak (roomier rt ops)
  roomier-IsStrictWeak = record {
    irrefl = λ x. ground arith;
    trans = λ x y z p q. ground arith;
    split = λ x y z p. ground arith;
  }

  by_capacity :
      (b : Balancer) (xs : List (Node F))
      → b.strategy ≡ strategy_capacity
      → (by_strategy rt ops b xs).0 ≡ best_capacity rt ops xs
  unfolding by_strategy
  by_capacity b xs h = rw (h, by_strategy)

  best_capacity-first :
      (xs : List (Node F)) (n y : Node F)
      → best_capacity rt ops xs ≡ some n
      → Mem y xs
      → roomier rt ops y n ≡ false
  unfolding best_capacity
  best_capacity-first xs n y e m =
      Sorted-first (roomier rt ops) (rt.sort_slice (roomier rt ops) xs) n y roomier-IsStrictWeak
        (rt.sort_sorted (roomier rt ops) xs roomier-IsStrictWeak) e
        ((Perm.mem_iff (rt.sort_perm (roomier rt ops) xs)).1 m)

  -- No healthy node with a free slot has more free slots than the node that the capacity strategy
  -- selects.
  pub capacity-best :
      (b : Balancer) (nodes : List (Node F)) (now : ℕ) (n y : Node F)
      → b.strategy ≡ strategy_capacity
      → (select_node rt ops b nodes now).0 ≡ some n
      → IsCandidate now nodes y
      → available_slots y ≤ℤ available_slots n
  unfolding select_node
  capacity-best b nodes now n y h e c =
      best (candidates rt ops now nodes) e (mem-candidates now y nodes c.0 c.1)
    where
      best :
          (cs : List (Node F))
          → (select_among rt ops b cs).0 ≡ some n
          → Mem y cs
          → available_slots y ≤ℤ available_slots n
      best [] r m = absurd (not-mem-nil m)
      best (x ∷ xs) r m =
          ltb_ℤ→le (available_slots n) (available_slots y)
            (best_capacity-first (x ∷ xs) n y (sym (by_capacity b (x ∷ xs) h) ∙ r) m)

-- ===== src/Balancer.antt =====
-- internal/balancer/balancer.go: the choice of a node for a request. What `b.nodes()` returned is
-- an argument; Go's `sort.Slice` and `rand.Intn` are parameters with their documented laws.
pub mod Choice
pub mod Rotation
pub mod Sorting
pub mod Examples
use mathlib.Core.List.{Perm}
use ollama_local_hives_clust.Prelude.{
  ℕ, suc, ◌+◌, ◌*◌, ◌^◌, ◌%◌, ◌<◌, ◌≡◌, ◌⊎◌, String, Bool, true, false, ◌&&◌, Option, none, some,
  List, [], ◌∷◌, ltb, if◌then◌else◌, str_eq, length, get_elem?, ℤ, pos, ltb_ℤ, All,
}
use ollama_local_hives_clust.Cluster.Node.{Node, FloatOps, load_score, available_slots, is_healthy}

-- An order that `sort.Slice` may be given: a strict weak order.
pub record IsStrictWeak {A : Type 0} (less : A → A → Bool) : Type 0 where
  pub irrefl : (x : A) → less x x ≡ false
  pub trans : (x y z : A) → less x y ≡ true → less y z ≡ true → less x z ≡ true
  pub split : (x y z : A) → less x z ≡ true → (less x y ≡ true) ⊎ (less y z ≡ true)

-- No element stands before one that is less.
abbrev pub Sorted : {A : Type 0} → (A → A → Bool) → List A → Type 0
Sorted less [] = Unit
Sorted less (x ∷ xs) = All (λ y. less y x ≡ false) xs × Sorted less xs

-- `sort.Slice` and `rand.Intn`.
pub record Runtime (A : Type 0) : Type 0 where
  pub sort_slice : (A → A → Bool) → List A → List A
  pub sort_perm : (less : A → A → Bool) (xs : List A) → Perm (sort_slice less xs) xs
  pub sort_sorted :
      (less : A → A → Bool) (xs : List A) → IsStrictWeak less → Sorted less (sort_slice less xs)
  -- the number of calls so far, and the bound
  pub intn : ℕ → ℕ → ℕ
  pub intn_lt : (calls n : ℕ) → 0 < n → intn calls n < n

abbrev pub strategy_least_load : String
strategy_least_load = "least_load"

abbrev pub strategy_round_robin : String
strategy_round_robin = "round_robin"

abbrev pub strategy_random : String
strategy_random = "random"

abbrev pub strategy_capacity : String
strategy_capacity = "capacity"

pub record Balancer : Type 0 where
  pub strategy : String
  pub rr_index : ℕ
  pub rand_calls : ℕ

unfoldable pub new_balancer : String → Balancer
new_balancer strategy = record {
  strategy = if str_eq strategy "" then strategy_least_load else strategy;
  rr_index = 0;
  rand_calls = 0;
}

unfoldable pub set_strategy : Balancer → String → Balancer
set_strategy b s = record b { strategy = s }

-- 10 * time.Second
abbrev pub health_timeout : ℕ
health_timeout = 10 * 10 ^ 9

module _ {F : Type 0} (rt : Runtime (Node F)) (ops : FloatOps F) where
  abbrev pub lighter : Node F → Node F → Bool
  lighter a b = ops.less (load_score ops a) (load_score ops b)

  abbrev pub roomier : Node F → Node F → Bool
  roomier a b = ltb_ℤ (available_slots b) (available_slots a)

  unfoldable pub least_load : List (Node F) → Option (Node F)
  least_load nodes = get_elem? (rt.sort_slice lighter nodes) 0

  unfoldable pub best_capacity : List (Node F) → Option (Node F)
  best_capacity nodes = get_elem? (rt.sort_slice roomier nodes) 0

  unfoldable pub round_robin : Balancer → List (Node F) → Option (Node F) × Balancer
  round_robin b nodes =
      (get_elem? nodes (b.rr_index % length nodes), record b { rr_index = b.rr_index + 1 })

  unfoldable pub random : Balancer → List (Node F) → Option (Node F) × Balancer
  random b nodes = (
    get_elem? nodes (rt.intn b.rand_calls (length nodes)),
    record b { rand_calls = b.rand_calls + 1 },
  )

  -- n.IsHealthy(10*time.Second) && n.AvailableSlots() > 0
  abbrev pub is_candidate : ℕ → Node F → Bool
  is_candidate now n = is_healthy n health_timeout now && ltb_ℤ (pos 0) (available_slots n)

  abbrev pub candidates : ℕ → List (Node F) → List (Node F)
  candidates now [] = []
  candidates now (n ∷ ns) =
      let rest = candidates now ns in if is_candidate now n then n ∷ rest else rest

  unfoldable pub by_strategy : Balancer → List (Node F) → Option (Node F) × Balancer
  unfolding least_load best_capacity round_robin random
  by_strategy b healthy =
      if str_eq b.strategy strategy_least_load
      then (least_load healthy, b)
      else if str_eq b.strategy strategy_round_robin
      then round_robin b healthy
      else if str_eq b.strategy strategy_random
      then random b healthy
      else if str_eq b.strategy strategy_capacity
      then (best_capacity healthy, b)
      else (least_load healthy, b)

  abbrev pub select_among : Balancer → List (Node F) → Option (Node F) × Balancer
  select_among b [] = (none, b)
  select_among b (n ∷ ns) = by_strategy b (n ∷ ns)

  -- The early return on an empty list is the one on an empty list of candidates.
  unfoldable pub select_node : Balancer → List (Node F) → ℕ → Option (Node F) × Balancer
  select_node b nodes now = select_among b (candidates now nodes)

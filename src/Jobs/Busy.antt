-- ===== src/Jobs/Busy.antt =====
-- Which workers of hive-server-go/queue.go are busy, and the ids that they have.
use ollama_local_hives_clust.Prelude.{
  ℕ, zero, suc, ◌≤◌, ◌≡◌, refl, ap, ◌⊎◌, inl, inr, String, Bool, true, false, false≢true, some,
  List, [], ◌∷◌, length, get_elem?, set, Map, lookup, delete, lookup-delete, str_eq, eq_refl,
  Bool-cases, Option-cases, arith, if◌then◌else◌,
}
use ollama_local_hives_clust.ModelRegistry.Loads.{
  Keyed, length-delete, delete_missing, delete-Keyed,
}
use ollama_local_hives_clust.Jobs.Workers.{WorkerState, waiting, received, registered, executed}

-- The keys of the map, but for one.
pub length-delete_le :
    (k : String) (m : Map ℕ) (n : ℕ) → Keyed m → length (delete k m) ≤ n → length m ≤ suc n
length-delete_le k m n keyed h = elim (Option-cases (lookup k m)) [
  | inl e ↦ let same = delete_missing k m e in omega (arith, h, ap length same)
  | inr (i, e) ↦ omega (arith, h, length-delete k i m keyed e)
]

module _ {N : Type 0} where
  -- The worker carries out a job of this id.
  abbrev pub is_busy : String → WorkerState N → Bool
  is_busy k waiting = false
  is_busy k (received job) = false
  is_busy k (registered job) = str_eq job.id k
  is_busy k (executed job) = str_eq job.id k

  abbrev pub any_that : (WorkerState N → Bool) → List (WorkerState N) → Bool
  any_that p [] = false
  any_that p (w ∷ ws) = if p w then true else any_that p ws

  pub any_that-set_self :
      (p : WorkerState N → Bool) (ws : List (WorkerState N)) (i : ℕ) (w v : WorkerState N)
      → get_elem? ws i ≡ some w
      → p v ≡ true
      → any_that p (set ws i v) ≡ true
  any_that-set_self p [] i w v e b = cc
  any_that-set_self p (x ∷ xs) zero w v e b = rw b refl
  any_that-set_self p (x ∷ xs) (suc i) w v e b = ground (arith, any_that-set_self p xs i w v e b)

  pub any_that-set_keep :
      (p : WorkerState N → Bool) (ws : List (WorkerState N)) (i : ℕ) (w v : WorkerState N)
      → get_elem? ws i ≡ some w
      → (p w ≡ false) ⊎ (p v ≡ true)
      → any_that p ws ≡ true
      → any_that p (set ws i v) ≡ true
  any_that-set_keep p [] i w v e b a = cc
  any_that-set_keep p (x ∷ xs) zero w v e b a =
      let same : x ≡ w = cc in
      elim b [
        | inl idle ↦ let rest : any_that p xs ≡ true = rw (same, idle) at a in ground (arith, rest)
        | inr busy ↦ rw busy refl
      ]
  any_that-set_keep p (x ∷ xs) (suc i) w v e b a = elim (Bool-cases (p x)) [
    | inl here ↦ rw here refl
    | inr there ↦ rw there (any_that-set_keep p xs i w v e b (rw there at a))
  ]

  abbrev pub any_busy : String → List (WorkerState N) → Bool
  any_busy k ws = any_that (is_busy k) ws

  -- Every key is `y` or an id of a busy worker.
  pub owned-delete :
      (y : String) (ws : List (WorkerState N)) (m : Map ℕ)
      → ((k : String) (i : ℕ)
          → lookup k m ≡ some i
          → (if str_eq y k then true else any_busy k ws) ≡ true)
      → (k : String) (i : ℕ) → lookup k (delete y m) ≡ some i
      → any_busy k ws ≡ true
  owned-delete y ws m owned k i e = elim (Bool-cases (str_eq y k)) [
    | inl same ↦ ground (arith, lookup-delete y k m, same, e)
    | inr other ↦
        let held : lookup k m ≡ some i = ground (arith, lookup-delete y k m, other, e) in
        let at_k = owned k i held in rw other at at_k
  ]

  -- A map whose keys are all ids of busy workers has at most as many entries as there are workers.
  pub length-any_busy :
      (ws : List (WorkerState N)) (m : Map ℕ)
      → Keyed m
      → ((k : String) (i : ℕ) → lookup k m ≡ some i → any_busy k ws ≡ true)
      → length m ≤ length ws
  unfolding lookup
  length-any_busy [] [] keyed owned = omega arith
  length-any_busy [] (e ∷ m) keyed owned =
      absurd (false≢true (owned e.0 e.1 (rw (eq_refl e.0) refl)))
  length-any_busy (waiting ∷ ws) m keyed owned = omega (arith, length-any_busy ws m keyed owned)
  length-any_busy (received job ∷ ws) m keyed owned =
      omega (arith, length-any_busy ws m keyed owned)
  length-any_busy (registered job ∷ ws) m keyed owned =
      length-delete_le job.id m (length ws) keyed (
        length-any_busy ws (delete job.id m) (delete-Keyed job.id m keyed)
          (owned-delete job.id ws m owned))
  length-any_busy (executed job ∷ ws) m keyed owned = length-delete_le job.id m (length ws) keyed (
      length-any_busy ws (delete job.id m) (delete-Keyed job.id m keyed)
        (owned-delete job.id ws m owned))

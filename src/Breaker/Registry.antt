-- ===== src/Breaker/Registry.antt =====
-- The manager of circuit breakers (hive-server-go/circuit_breaker.go): `Execute` and the sharing of
-- breakers by name.
use ollama_local_hives_clust.Prelude.{
  ℕ, ◌<◌, ◌≡◌, inl, inr, refl, ◌∙◌, String, Option, none, some, arith, Bool-cases, Option-cases,
  lookup, lookup-insert, ==_iff, eq_iff, eq_refl,
}
use ollama_local_hives_clust.Breaker.{
  CircuitBreaker, CircuitBreakerConfig, CircuitBreakerManager, BreakerRef, write_cell,
  get_with_config, get, execute, allow, default_config,
}

-- The references of the map were handed out, and two names never share a breaker.
pub record Separate (m : CircuitBreakerManager) : Type 0 where
  pub known : (n : String) (r : BreakerRef) → lookup n m.breakers ≡ some r → r < m.next_cell
  pub apart :
      (n k : String) (r : BreakerRef)
      → lookup n m.breakers ≡ some r
      → lookup k m.breakers ≡ some r
      → n ≡ k

pub get-Separate :
    (m : CircuitBreakerManager) (name : String) (config : Option CircuitBreakerConfig) (now : ℕ)
    → Separate m
    → Separate (get_with_config m name config now).1
unfolding get_with_config write_cell
get-Separate m name config now s = elim (Option-cases (lookup name m.breakers)) [
  | inr (r, e) ↦ rw (e, get_with_config) s
  | inl e ↦
      rw (e, get_with_config)
        (record {
          known =
              λ n r found. ground (arith, lookup-insert name n m.next_cell m.breakers, s.known n r);
          apart = λ n k r a b. ground (
            arith,
            eq_iff name n,
            eq_iff name k,
            lookup-insert name n m.next_cell m.breakers,
            lookup-insert name k m.next_cell m.breakers,
            s.known n r,
            s.known k r,
            s.apart n k r,
          );
        })
]

-- The breaker that the manager holds under a name.
abbrev pub held : CircuitBreakerManager → String → Option CircuitBreaker
held m n = elim (lookup n m.breakers) [ none ↦ none | some r ↦ some (m.cells r) ]

get-held :
    (m : CircuitBreakerManager) (name other : String) (config : Option CircuitBreakerConfig)
    (now : ℕ)
    → Separate m
    → ¬ (name ≡ other)
    → held (get_with_config m name config now).1 other ≡ held m other
unfolding get_with_config write_cell
get-held m name other config now s apart = elim (Option-cases (lookup name m.breakers)) [
  | inr (r, e) ↦ rw (e, get_with_config) refl
  | inl e ↦
      rw (e, get_with_config)
        (elim (Option-cases (lookup other m.breakers)) [
          | inl none_held ↦
              ground (arith, eq_iff name other, lookup-insert name other m.next_cell m.breakers)
          | inr (r, found) ↦ ground (
            arith,
            eq_iff name other,
            lookup-insert name other m.next_cell m.breakers,
            s.known other r found,
            ==_iff m.next_cell r,
          )
        ])
]

get-lookup :
    (m : CircuitBreakerManager) (name : String) (config : Option CircuitBreakerConfig) (now : ℕ)
    → let (r, m') = get_with_config m name config now in lookup name m'.breakers ≡ some r
unfolding get_with_config write_cell
get-lookup m name config now = elim (Option-cases (lookup name m.breakers)) [
  | inr (r, e) ↦ rw (e, get_with_config) e
  | inl e ↦ rw (e, get_with_config, lookup-insert, eq_refl) refl
]

write-held :
    (m : CircuitBreakerManager) (r : BreakerRef) (cb : CircuitBreaker) (other : String)
    → ¬ (lookup other m.breakers ≡ some r)
    → held (write_cell m r cb) other ≡ held m other
unfolding write_cell
write-held m r cb other apart = elim (Option-cases (lookup other m.breakers)) [
  | inl e ↦ ground arith
  | inr (k, e) ↦ ground (arith, ==_iff r k)
]

-- Where no two names share a breaker, `Execute` under one name leaves the breaker under any other
-- name, or that there is none, as it was, whether the function is called or not.
pub execute_isolated :
    (m : CircuitBreakerManager) (name other : String) (err : Option String) (now later : ℕ)
    → Separate m
    → ¬ (name ≡ other)
    → held (execute m name err now later).1 other ≡ held m other
unfolding execute get get_with_config write_cell
execute_isolated m name other err now later s distinct =
    let (r, m') = get_with_config m name (some default_config) now in
    let same = get-held m name other (some default_config) now s distinct in
    let separate : ¬ (lookup other m'.breakers ≡ some r) = λ shared. distinct (
      (get-Separate m name (some default_config) now s).apart name other r
        (get-lookup m name (some default_config) now) shared) in
    elim (Bool-cases (allow (m'.cells r) now).0) [
      | inl passed ↦ rw passed (write-held m' r _ other separate ∙ same)
      | inr blocked ↦ rw blocked (write-held m' r _ other separate ∙ same)
    ]

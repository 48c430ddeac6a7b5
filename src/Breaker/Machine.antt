-- ===== src/Breaker/Machine.antt =====
-- The state machine of one circuit breaker (hive-server-go/circuit_breaker.go) over sequences of
-- calls.
use ollama_local_hives_clust.Prelude.{
  ℕ, ◌+◌, ◌≤◌, ◌<◌, ◌≡◌, ◌⊎◌, map, String, inl, inr, refl, Bool, Option, none, some, List, [], ◌∷◌,
  arith, if◌then◌else◌, length, leb, All, Bool-cases, lt→leb_false,
}
use ollama_local_hives_clust.Breaker.{
  circuit_closed, circuit_open, circuit_half_open, CircuitBreaker, CircuitBreakerConfig, allow,
  record_success, record_failure, reset, new_breaker,
}

-- A call at a time.
pub data Call : Type 0 where
  allows succeeds fails resets : ℕ → Call

-- The breaker after a call, and what `Allow` answered.
unfoldable pub call : CircuitBreaker → Call → Option Bool × CircuitBreaker
call cb (allows now) = let (answer, cb') = allow cb now in (some answer, cb')
call cb (succeeds now) = (none, record_success cb now)
call cb (fails now) = (none, record_failure cb now)
call cb (resets now) = (none, reset cb now)

unfoldable pub calls : CircuitBreaker → List Call → CircuitBreaker
calls cb [] = cb
calls cb (c ∷ cs) = calls (call cb c).1 cs

-- A closed breaker is short of its failures, and a half-open one of its successes, except for
-- thresholds of zero.
abbrev pub WithinThresholds : CircuitBreaker → Type 0
WithinThresholds cb = elim cb.state [
  | circuit_closed ↦
      ((cb.failures < cb.config.failure_threshold) ⊎ (cb.failures ≡ 0)) × (cb.successes ≡ 0)
  | circuit_open ↦ Unit
  | circuit_half_open ↦ (cb.successes < cb.config.success_threshold) ⊎ (cb.successes ≡ 0)
]

call-Within :
    (cb : CircuitBreaker) (c : Call) → WithinThresholds cb → WithinThresholds (call cb c).1
unfolding call allow record_success record_failure reset
call-Within cb (allows now) v = ground arith
call-Within cb (succeeds now) v = ground arith
call-Within cb (fails now) v = ground arith
call-Within cb (resets now) v = ground arith

calls-Within :
    (cb : CircuitBreaker) (cs : List Call) → WithinThresholds cb → WithinThresholds (calls cb cs)
unfolding calls
calls-Within cb [] v = v
calls-Within cb (c ∷ cs) v = calls-Within (call cb c).1 cs (call-Within cb c v)

-- After any calls, in any order and at any times, a closed breaker has fewer failures than its
-- threshold (or none) and a half-open one fewer successes than its own (or none).
pub new-WithinThresholds :
    (name : String) (config : Option CircuitBreakerConfig) (now : ℕ) (cs : List Call)
    → WithinThresholds (calls (new_breaker name config now) cs)
unfolding new_breaker
new-WithinThresholds name config now cs = calls-Within _ cs (inr refl, refl)

abbrev pub all_fail : List ℕ → List Call
all_fail ts = map fails ts

abbrev pub all_succeed : List ℕ → List Call
all_succeed ts = map succeeds ts

open_fails :
    (cb : CircuitBreaker) (ts : List ℕ)
    → cb.state ≡ circuit_open
    → (calls cb (all_fail ts)).state ≡ circuit_open
unfolding calls call record_failure
open_fails cb [] e = e
open_fails cb (t ∷ ts) e = open_fails (record_failure cb t) ts (ground arith)

-- Failures in a row open a closed breaker that is short of its threshold exactly when, with those
-- it has counted, they come to the threshold; further failures leave it open.
pub failures_trip :
    (cb : CircuitBreaker) (ts : List ℕ)
    → cb.state ≡ circuit_closed
    → cb.failures < cb.config.failure_threshold
    → (calls cb (all_fail ts)).state ≡ (
        if leb cb.config.failure_threshold (cb.failures + length ts)
        then circuit_open
        else circuit_closed)
unfolding calls call record_failure
failures_trip cb [] e lt = ground arith
failures_trip cb (t ∷ ts) e lt =
    elim (Bool-cases (leb cb.config.failure_threshold (cb.failures + 1))) [
      | inl trips ↦
          let after = open_fails (record_failure cb t) ts (ground arith) in
          rw (after) (ground arith)
      | inr holds ↦ ground (
        arith,
        failures_trip (record cb { failures = cb.failures + 1; last_failure = t }) ts e
            (ground arith),
      )
    ]

closed_succeeds :
    (cb : CircuitBreaker) (ts : List ℕ)
    → cb.state ≡ circuit_closed
    → (calls cb (all_succeed ts)).state ≡ circuit_closed
unfolding calls call record_success
closed_succeeds cb [] e = e
closed_succeeds cb (t ∷ ts) e = closed_succeeds (record_success cb t) ts (ground arith)

-- Successes in a row close a half-open breaker that is short of its threshold exactly when, with
-- those it has counted, they come to the threshold; further successes leave it closed.
pub successes_recover :
    (cb : CircuitBreaker) (ts : List ℕ)
    → cb.state ≡ circuit_half_open
    → cb.successes < cb.config.success_threshold
    → (calls cb (all_succeed ts)).state ≡ (
        if leb cb.config.success_threshold (cb.successes + length ts)
        then circuit_closed
        else circuit_half_open)
unfolding calls call record_success
successes_recover cb [] e lt = ground arith
successes_recover cb (t ∷ ts) e lt =
    elim (Bool-cases (leb cb.config.success_threshold (cb.successes + 1))) [
      | inl closes ↦
          let after = closed_succeeds (record_success cb t) ts (ground arith) in
          rw (after) (ground arith)
      | inr holds ↦ ground (
        arith,
        successes_recover (record cb { successes = cb.successes + 1 }) ts e (ground arith),
      )
    ]

-- How many requests the calls of `Allow` let through.
unfoldable pub granted : CircuitBreaker → List Call → ℕ
granted cb [] = 0
granted cb (c ∷ cs) =
    let rest = granted (call cb c).1 cs in
    elim (call cb c).0 [ none ↦ rest | some b ↦ if b then rest + 1 else rest ]

-- No reset, and a time from `a` to `b`.
abbrev pub During : ℕ → ℕ → Call → Type 0
During a b (allows now) = (a ≤ now) × (now ≤ b)
During a b (succeeds now) = (a ≤ now) × (now ≤ b)
During a b (fails now) = (a ≤ now) × (now ≤ b)
During a b (resets now) = ⊥

-- Through any calls but resets, at times from `a` to `b`, an open breaker stays open and lets
-- nothing through, where its last failure is no earlier than `a` and `b` is within the timeout
-- after `a`.
pub open_blocks :
    (a b : ℕ) (cb : CircuitBreaker) (cs : List Call)
    → cb.state ≡ circuit_open
    → a ≤ cb.last_failure
    → b ≤ a + cb.config.timeout
    → All (During a b) cs
    → (granted cb cs ≡ 0) × ((calls cb cs).state ≡ circuit_open)
unfolding calls granted call allow record_success record_failure
open_blocks a b cb [] e la lb d = (refl, e)
open_blocks a b cb (allows now ∷ cs) e la lb d =
    let (x, y) = open_blocks a b cb cs e la lb d.1 in ground arith
open_blocks a b cb (succeeds now ∷ cs) e la lb d =
    let (x, y) = open_blocks a b cb cs e la lb d.1 in ground arith
open_blocks a b cb (fails now ∷ cs) e la lb d =
    let failed = record cb { failures = cb.failures + 1; last_failure = now } in
    let (x, y) = open_blocks a b failed cs e d.0.0 lb d.1 in ground arith
open_blocks a b cb (resets now ∷ cs) e la lb d = elim d.0 [ ]

-- The successes among the calls, and whether there are only successes and requests.
abbrev pub success_count : List Call → ℕ
success_count [] = 0
success_count (succeeds _ ∷ cs) = success_count cs + 1
success_count (_ ∷ cs) = success_count cs

abbrev pub NoFailure : Call → Type 0
NoFailure (fails _) = ⊥
NoFailure (resets _) = ⊥
NoFailure _ = Unit

abbrev pub request_count : List Call → ℕ
request_count [] = 0
request_count (allows _ ∷ cs) = request_count cs + 1
request_count (_ ∷ cs) = request_count cs

-- A half-open breaker lets every request through, without a limit, until a failure or enough
-- successes come in.
pub half_open_unlimited :
    (cb : CircuitBreaker) (cs : List Call)
    → cb.state ≡ circuit_half_open
    → cb.successes + success_count cs < cb.config.success_threshold
    → All NoFailure cs
    → (granted cb cs ≡ request_count cs) × ((calls cb cs).state ≡ circuit_half_open)
unfolding calls granted call allow record_success record_failure
half_open_unlimited cb [] e lt n = (refl, e)
half_open_unlimited cb (allows now ∷ cs) e lt n =
    let (x, y) = half_open_unlimited cb cs e lt n.1 in ground arith
half_open_unlimited cb (succeeds now ∷ cs) e lt n =
    let (x, y) =
      half_open_unlimited (record cb { successes = cb.successes + 1 }) cs e (omega arith) n.1 in
    let short = lt→leb_false (cb.successes + 1) cb.config.success_threshold (omega arith) in
    ground arith
half_open_unlimited cb (fails now ∷ cs) e lt n = elim n.0 [ ]
half_open_unlimited cb (resets now ∷ cs) e lt n = elim n.0 [ ]

-- ===== src/Breaker.antt =====
-- hive-server-go/circuit_breaker.go: the circuit breaker and its manager. A time is a number of
-- nanoseconds and an argument of the call that reads the clock; 0 is Go's zero time. Thresholds and
-- durations are taken as not negative. The log lines are left out.
pub mod Machine
pub mod Registry
mod Examples
use ollama_local_hives_clust.Prelude.{
  ℕ, ◌+◌, ◌-◌, [], String, Bool, true, false, Option, none, some, ltb, leb, if◌then◌else◌, Map,
  lookup, insert, delete, ◌==◌,
}

pub data CircuitState : Type 0 where
  circuit_closed circuit_open circuit_half_open : CircuitState

pub record CircuitBreakerConfig : Type 0 where
  pub failure_threshold : ℕ
  pub success_threshold : ℕ
  pub timeout : ℕ
  pub interval : ℕ

abbrev pub default_config : CircuitBreakerConfig
default_config = record {
  failure_threshold = 5;
  success_threshold = 3;
  timeout = 30000000000;
  interval = 60000000000;
}

pub record CircuitBreaker : Type 0 where
  pub state : CircuitState
  pub failures : ℕ
  pub successes : ℕ
  pub last_failure : ℕ
  pub last_state_change : ℕ
  pub config : CircuitBreakerConfig
  pub name : String

-- `none` is a nil config.
unfoldable pub new_breaker : String → Option CircuitBreakerConfig → ℕ → CircuitBreaker
new_breaker name config now = record {
  state = circuit_closed;
  failures = 0;
  successes = 0;
  last_failure = 0;
  last_state_change = now;
  config = elim config [ none ↦ default_config | some c ↦ c ];
  name = name;
}

abbrev pub transition_to : CircuitBreaker → CircuitState → ℕ → CircuitBreaker
transition_to cb circuit_closed now = record cb {
  state = circuit_closed;
  last_state_change = now;
  failures = 0;
  successes = 0;
}
transition_to cb circuit_open now = record cb { state = circuit_open; last_state_change = now }
transition_to cb circuit_half_open now = record cb {
  state = circuit_half_open;
  last_state_change = now;
  successes = 0;
}

unfoldable pub allow : CircuitBreaker → ℕ → Bool × CircuitBreaker
allow cb now = elim cb.state [
  | circuit_closed ↦ (true, cb)
  | circuit_open ↦
      if ltb cb.config.timeout (now - cb.last_failure)
      then (true, transition_to cb circuit_half_open now)
      else (false, cb)
  | circuit_half_open ↦ (true, cb)
]

unfoldable pub record_success : CircuitBreaker → ℕ → CircuitBreaker
record_success cb now = elim cb.state [
  | circuit_closed ↦ record cb { failures = 0 }
  | circuit_open ↦ cb
  | circuit_half_open ↦
      let cb' = record cb { successes = cb.successes + 1 } in
      if leb cb.config.success_threshold (cb.successes + 1)
      then transition_to cb' circuit_closed now
      else cb'
]

unfoldable pub record_failure : CircuitBreaker → ℕ → CircuitBreaker
record_failure cb now =
    let cb' = record cb { failures = cb.failures + 1; last_failure = now } in
    elim cb.state [
      | circuit_closed ↦
          if leb cb.config.failure_threshold (cb.failures + 1)
          then transition_to cb' circuit_open now
          else cb'
      | circuit_open ↦ cb'
      | circuit_half_open ↦ transition_to cb' circuit_open now
    ]

unfoldable pub reset : CircuitBreaker → ℕ → CircuitBreaker
reset cb now = transition_to cb circuit_closed now

-- `*CircuitBreaker`
abbrev pub BreakerRef : Type 0
BreakerRef = ℕ

-- The map holds pointers, and a caller of `Get` keeps its own: the breakers live in a heap.
pub record CircuitBreakerManager : Type 0 where
  pub breakers : Map BreakerRef
  pub cells : BreakerRef → CircuitBreaker
  pub next_cell : ℕ

unfoldable pub new_breaker_manager : CircuitBreakerManager
new_breaker_manager = record { breakers = []; cells = λ r. new_breaker "" none 0; next_cell = 0 }

unfoldable pub write_cell :
    CircuitBreakerManager → BreakerRef → CircuitBreaker → CircuitBreakerManager
write_cell m r cb = record m { cells = λ s. if r == s then cb else m.cells s }

-- `GetWithConfig`; `none` is a nil config.
unfoldable pub get_with_config :
    CircuitBreakerManager
    → String
    → Option CircuitBreakerConfig
    → ℕ
    → BreakerRef × CircuitBreakerManager
unfolding write_cell
get_with_config m name config now = elim (lookup name m.breakers) [
  | some r ↦ (r, m)
  | none ↦ (
    m.next_cell,
    record (write_cell m m.next_cell (new_breaker name config now)) {
      breakers = insert name m.next_cell m.breakers;
      next_cell = m.next_cell + 1;
    },
  )
]

-- `Get`: the manager's config is the default one.
unfoldable pub get : CircuitBreakerManager → String → ℕ → BreakerRef × CircuitBreakerManager
unfolding get_with_config
get m name now = get_with_config m name (some default_config) now

unfoldable pub remove : CircuitBreakerManager → String → CircuitBreakerManager
remove m name = record m { breakers = delete name m.breakers }

-- What `Execute` returns: `ErrCircuitOpen`, or what the function returned.
pub data Executed : Type 0 where
  refused : Executed
  returned : Option String → Executed

-- The record of the outcome; `none` is a nil error.
abbrev pub settle : CircuitBreaker → Option String → ℕ → CircuitBreaker
unfolding record_success record_failure
settle cb none now = record_success cb now
settle cb (some err) now = record_failure cb now

-- `Execute`, with what `fn` returns if it is called, and the time before and after.
unfoldable pub execute :
    CircuitBreakerManager → String → Option String → ℕ → ℕ → Executed × CircuitBreakerManager
unfolding get allow settle write_cell
execute m name err now later =
    let (r, m') = get m name now in
    let (allowed, cb) = allow (m'.cells r) now in
    if allowed
    then (returned err, write_cell m' r (settle cb err later))
    else (refused, write_cell m' r cb)

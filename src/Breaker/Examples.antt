-- ===== src/Breaker/Examples.antt =====
-- The theorems about hive-server-go/circuit_breaker.go at breakers in each state.
use ollama_local_hives_clust.Prelude.{◌≡◌, refl, [], ◌∷◌, arith}
use ollama_local_hives_clust.Breaker.{CircuitState, circuit_open, CircuitBreaker}
use ollama_local_hives_clust.Breaker.Machine.{allows, fails, calls, granted, open_blocks}

abbrev breaker : CircuitState → CircuitBreaker
breaker state = record {
  state = state;
  failures = 1;
  successes = 0;
  last_failure = 1000;
  last_state_change = 1000;
  config = record { failure_threshold = 3; success_threshold = 2; timeout = 50; interval = 0 };
  name = "node";
}

open_blocks_example :
    (granted (breaker circuit_open) (allows 1010 ∷ fails 1020 ∷ allows 1050 ∷ []) ≡ 0)
    × ((calls (breaker circuit_open) (allows 1010 ∷ fails 1020 ∷ allows 1050 ∷ [])).state
        ≡ circuit_open)
open_blocks_example =
    open_blocks 1000 1050 (breaker circuit_open) (allows 1010 ∷ fails 1020 ∷ allows 1050 ∷ []) refl
      (omega arith) (omega arith)
      ((omega arith, omega arith), ((omega arith, omega arith), ((omega arith, omega arith), tt)))

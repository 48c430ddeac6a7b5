-- ===== src/Auth/Examples.antt =====
-- The theorems about hive-server-go/auth.go at one client and one request.
use ollama_local_hives_clust.Prelude.{min, ◌-◌, ◌≡◌, refl, [], ◌∷◌, arith, lookup}
use ollama_local_hives_clust.Auth.{RateLimiter}
use ollama_local_hives_clust.Auth.Window.{request, tick, accepted, requests_of, window_exact}

abbrev limiter : RateLimiter
limiter = record {
  clients = ("1.2.3.4", record { count = 1; reset_at = 60 }) ∷ [];
  rate = 2;
  window = 60;
}

window_exact_example :
    accepted "1.2.3.4" limiter
      (request "1.2.3.4" 10 10 ∷ tick 20 ∷ request "5.6.7.8" 21 21 ∷ request "1.2.3.4" 30 30 ∷ [])
    ≡ min (2 - 1) (
        requests_of "1.2.3.4" (
          request "1.2.3.4" 10 10
          ∷ tick 20
          ∷ request "5.6.7.8" 21 21
          ∷ request "1.2.3.4" 30 30
          ∷ []))
unfolding lookup
window_exact_example =
    window_exact "1.2.3.4" limiter (record { count = 1; reset_at = 60 })
      (request "1.2.3.4" 10 10 ∷ tick 20 ∷ request "5.6.7.8" 21 21 ∷ request "1.2.3.4" 30 30 ∷ [])
      refl (omega arith, (omega arith, (omega arith, (omega arith, tt))))

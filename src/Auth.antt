-- ===== src/Auth.antt =====
-- hive-server-go/auth.go: the rate limiter and the middleware that checks the API key. A time is a
-- number of nanoseconds; the clock is an argument of the call that reads it, and `Allow` reads it a
-- second time for a new window. The buckets are reached through the map only and are its values.
pub mod Window
pub mod Access
mod Examples
use ollama_local_hives_clust.Prelude.{
  ℕ, ◌+◌, String, Bool, true, false, ◌&&◌, ◌||◌, not, Option, none, some, List, [], ◌∷◌, ltb, leb,
  if◌then◌else◌, Map, lookup, insert, str_eq,
}
use text.Mathlib.Text.{starts_with}

pub record RateBucket : Type 0 where
  pub count : ℕ
  pub reset_at : ℕ

pub record RateLimiter : Type 0 where
  pub clients : Map RateBucket
  pub rate : ℕ
  pub window : ℕ

unfoldable pub new_rate_limiter : ℕ → ℕ → RateLimiter
new_rate_limiter rate window = record { clients = []; rate = rate; window = window }

abbrev pub set_bucket : RateLimiter → String → RateBucket → RateLimiter
set_bucket rl id b = record rl { clients = insert id b rl.clients }

abbrev pub open_window : RateLimiter → String → ℕ → RateLimiter
open_window rl id later = set_bucket rl id (record { count = 1; reset_at = later + rl.window })

unfoldable pub allow : RateLimiter → String → ℕ → ℕ → Bool × RateLimiter
allow rl id now later = elim (lookup id rl.clients) [
  | none ↦ (true, open_window rl id later)
  | some b ↦
      if ltb b.reset_at now
      then (true, open_window rl id later)
      else if leb rl.rate b.count
      then (false, rl)
      else (true, set_bucket rl id (record b { count = b.count + 1 }))
]

unfoldable pub expire : ℕ → Map RateBucket → Map RateBucket
expire now [] = []
expire now ((id, b) ∷ m) =
    let rest = expire now m in if ltb b.reset_at now then rest else (id, b) ∷ rest

-- One tick of `cleanup`
unfoldable pub cleanup : RateLimiter → ℕ → RateLimiter
unfolding expire
cleanup rl now = record rl { clients = expire now rl.clients }

-- What the middleware reads of a request: `forwarded_for` is the first part of X-Forwarded-For up
-- to a comma, `none` for an empty header; `authorization` is without "Bearer ".
pub record HttpRequest : Type 0 where
  pub path : String
  pub method : String
  pub remote_addr : String
  pub forwarded_for : Option String
  pub authorization : String
  pub query_key : String

pub data Verdict : Type 0 where
  served rate_limited unauthorized : Verdict

abbrev pub is_open : HttpRequest → Bool
is_open r = str_eq r.path "/" || str_eq r.path "/v1/health" || str_eq r.method "OPTIONS"

-- The paths that need no key.
abbrev pub is_internal : HttpRequest → Bool
is_internal r =
    starts_with r.path "/api/peers"
    || starts_with r.path "/api/logs"
    || str_eq r.path "/api/status"
    || str_eq r.path "/v1/health"

abbrev pub client_ip : HttpRequest → String
client_ip r = elim r.forwarded_for [ none ↦ r.remote_addr | some ip ↦ ip ]

abbrev pub given_key : HttpRequest → String
given_key r = if str_eq r.authorization "" then r.query_key else r.authorization

abbrev pub check_key : String → HttpRequest → Verdict
check_key api_key r =
    if str_eq api_key ""
    then served
    else if is_internal r
    then served
    else if str_eq (given_key r) api_key
    then served
    else unauthorized

abbrev pub after_limit : String → HttpRequest → Bool × RateLimiter → Verdict × RateLimiter
after_limit api_key r (true, rl) = (check_key api_key r, rl)
after_limit api_key r (false, rl) = (rate_limited, rl)

unfoldable pub auth_middleware : String → RateLimiter → HttpRequest → ℕ → ℕ → Verdict × RateLimiter
auth_middleware api_key rl r now later =
    if is_open r then (served, rl) else after_limit api_key r (allow rl (client_ip r) now later)

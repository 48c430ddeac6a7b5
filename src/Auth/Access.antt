-- ===== src/Auth/Access.antt =====
-- Which requests the middleware of hive-server-go/auth.go passes on.
use ollama_local_hives_clust.Prelude.{
  ℕ, ◌≡◌, ◌⊎◌, inl, inr, String, true, Bool-cases, eq_iff, arith,
}
use ollama_local_hives_clust.Auth.{
  HttpRequest, RateLimiter, served, is_open, is_internal, client_ip, given_key, check_key,
  auth_middleware, allow,
}

check_served :
    (api_key : String) (r : HttpRequest)
    → ¬ (api_key ≡ "")
    → check_key api_key r ≡ served
    → (is_internal r ≡ true) ⊎ (given_key r ≡ api_key)
check_served api_key r keyed e = elim (Bool-cases (is_internal r)) [
  | inl internal ↦ inl internal
  | inr keyless ↦ inr (ground (arith, keyless, eq_iff api_key "", eq_iff (given_key r) api_key))
]

-- With an API key configured, the middleware passes on a request only if it is for an open path, or
-- the limiter lets its address through and it is for an internal path or carries the key.
pub served_only :
    (api_key : String) (rl : RateLimiter) (r : HttpRequest) (now later : ℕ)
    → ¬ (api_key ≡ "")
    → (auth_middleware api_key rl r now later).0 ≡ served
    → (is_open r ≡ true)
      ⊎ (((allow rl (client_ip r) now later).0 ≡ true)
          × ((is_internal r ≡ true) ⊎ (given_key r ≡ api_key)))
unfolding auth_middleware
served_only api_key rl r now later keyed e = elim (Bool-cases (is_open r)) [
  | inl free ↦ inl free
  | inr closed ↦ elim (Bool-cases (allow rl (client_ip r) now later).0) [
    | inr limited ↦ ground (arith, closed, limited)
    | inl passed ↦ inr (passed, check_served api_key r keyed (ground (arith, closed, passed)))
  ]
]

-- ===== src/Auth/Window.antt =====
-- The number of requests that the rate limiter of hive-server-go/auth.go lets a client make.
use ollama_local_hives_clust.Prelude.{
  ℕ, min, ◌+◌, ◌-◌, ◌≤◌, ◌≡◌, inl, inr, refl, ◌∙◌, String, true, false, Option, some, List, [], ◌∷◌,
  arith, if◌then◌else◌, Bool-cases, Option-cases, ltb, leb, All, lookup, lookup-insert, str_eq,
  eq_iff, Map,
}
use ollama_local_hives_clust.Auth.{RateBucket, RateLimiter, set_bucket, allow, expire, cleanup}

-- The calls of the limiter: a request of a client, and a tick of the cleaner.
pub data Event : Type 0 where
  request : String → ℕ → ℕ → Event
  tick : ℕ → Event

-- How many requests of one client are let through.
unfoldable pub accepted : String → RateLimiter → List Event → ℕ
accepted id rl [] = 0
accepted id rl (tick now ∷ es) = accepted id (cleanup rl now) es
accepted id rl (request c now later ∷ es) =
    let (allowed, rl') = allow rl c now later in
    let rest = accepted id rl' es in
    if allowed then (if str_eq c id then rest + 1 else rest) else rest

abbrev pub requests_of : String → List Event → ℕ
requests_of id [] = 0
requests_of id (tick now ∷ es) = requests_of id es
requests_of id (request c now later ∷ es) =
    if str_eq c id then requests_of id es + 1 else requests_of id es

abbrev pub Until : ℕ → Event → Type 0
Until end (tick now) = now ≤ end
Until end (request c now later) = now ≤ end

-- What the limiter holds for a client.
abbrev pub bucket : RateLimiter → String → Option RateBucket
bucket rl id = lookup id rl.clients

expire-lookup :
    (now : ℕ) (id : String) (m : Map RateBucket) (b : RateBucket)
    → lookup id m ≡ some b
    → now ≤ b.reset_at
    → lookup id (expire now m) ≡ some b
unfolding lookup expire
expire-lookup now id [] b e le = cc
expire-lookup now id ((k, c) ∷ m) b e le = elim (Bool-cases (str_eq k id)) [
  | inl own ↦ ground (arith, own)
  | inr other ↦ ground (arith, other, expire-lookup now id m b)
]

allow-other :
    (rl : RateLimiter) (c id : String) (now later : ℕ)
    → str_eq c id ≡ false
    → (bucket (allow rl c now later).1 id ≡ bucket rl id)
      × ((allow rl c now later).1.rate ≡ rl.rate)
unfolding allow
allow-other rl c id now later other = elim (Option-cases (lookup c rl.clients)) [
  | inl e ↦ rw (e, allow, lookup-insert, other) (refl, refl)
  | inr (b, e) ↦ elim (Bool-cases (ltb b.reset_at now)) [
    | inl past ↦ rw (e, allow, past, lookup-insert, other) (refl, refl)
    | inr still ↦ elim (Bool-cases (leb rl.rate b.count)) [
      | inl spent ↦ rw (e, allow, still, spent) (refl, refl)
      | inr left ↦ rw (e, allow, still, left, lookup-insert, other) (refl, refl)
    ]
  ]
]

-- A request of the client itself in an open window.
allow-own :
    (rl : RateLimiter) (id : String) (b : RateBucket) (now later : ℕ)
    → bucket rl id ≡ some b
    → now ≤ b.reset_at
    → allow rl id now later ≡ (
        if leb rl.rate b.count
        then (false, rl)
        else (true, set_bucket rl id (record b { count = b.count + 1 })))
unfolding allow
allow-own rl id b now later e le =
    let still : ltb b.reset_at now ≡ false = ground arith in rw (e, allow, still) refl

-- Through any calls before its window ends, a client gets exactly as many requests through as its
-- rate leaves, or as many as it makes if these are fewer, whatever other clients and the cleaner
-- do.
pub window_exact :
    (id : String) (rl : RateLimiter) (b : RateBucket) (es : List Event)
    → bucket rl id ≡ some b
    → All (Until b.reset_at) es
    → accepted id rl es ≡ min (rl.rate - b.count) (requests_of id es)
unfolding accepted cleanup
window_exact id rl b [] e u = omega arith
window_exact id rl b (tick now ∷ es) e u = window_exact id (cleanup rl now) b es (kept now u.0) u.1
  where
    kept : (now : ℕ) → now ≤ b.reset_at → bucket (cleanup rl now) id ≡ some b
    kept now le = expire-lookup now id rl.clients b e le
window_exact id rl b (request c now later ∷ es) e u = elim (Bool-cases (str_eq c id)) [
  | inr other ↦
      let (same, rate) = allow-other rl c id now later other in
      let rest = window_exact id (allow rl c now later).1 b es (same ∙ e) u.1 in
      ground (arith, other, rest, rate)
  | inl own ↦
      let same : c ≡ id = (eq_iff c id).0 own in
      let entry = allow-own rl c b now later (rw same e) u.0 in
      elim (Bool-cases (leb rl.rate b.count)) [
        | inl spent ↦ let rest = window_exact id rl b es e u.1 in rw (entry, spent) (ground arith)
        | inr left ↦
            let b' = record b { count = b.count + 1 } in
            let found : bucket (set_bucket rl c b') id ≡ some b' = rw (lookup-insert, own) refl in
            let rest = window_exact id (set_bucket rl c b') b' es found u.1 in
            rw (entry, left, own) (ground arith)
      ]
]

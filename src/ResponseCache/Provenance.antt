-- ===== src/ResponseCache/Provenance.antt =====
-- Where the answers of hive-server-go/cache.go come from, and what its counters count.
use ollama_local_hives_clust.Prelude.{
  ℕ, ◌+◌, ◌<◌, ◌≡◌, refl, sym, subst, ==_iff, ◌==◌, inl, inr, String, Option, none, some, List, [],
  ◌∷◌, arith, Map, ℤ, Option-cases, Bool-cases,
}
use ollama_local_hives_clust.ResponseCache.{
  CacheEntry, CacheConfig, RistrettoOps, ResponseCache, store, accessed, generate_cache_key,
  new_response_cache, get_at, set_at, delete_at, clear, is_expired, expire_items, cleanup_expired,
  get,
}
use ollama_local_hives_clust.ResponseCache.Runs.{
  IsRistretto, CacheCall, get_called, set_called, delete_called, clear_called, cleanup_called, Put,
  Trace, WasSet, call_step, cache_run, started,
}

abbrev Holding : {A : Type 0} → (A → Type 0) → Option A → Type 0
Holding P none = Unit
Holding P (some a) = P a

WasSet-accessed :
    (ps : List Put) (k : String) (now : ℕ) (e : CacheEntry)
    → WasSet ps k e
    → WasSet ps k (accessed now e)
WasSet-accessed [] k now e w = w
WasSet-accessed (p ∷ ps) k now e (inl w) = inl w
WasSet-accessed (p ∷ ps) k now e (inr w) = inr (WasSet-accessed ps k now e w)

-- Every entry that may be given was set for its key, and each hit was counted twice.
record Sound {R : Type 0} (holds : R → String → ℕ → Type 0) (t : Trace R) : Type 0 where
  known :
      (k : String) (r : ℕ)
      → holds t.rc.cache k r
      → (r < t.rc.next_ref) × WasSet t.puts k (t.rc.entries r)
  hits : t.rc.hits ≡ t.found
  misses : t.rc.misses ≡ t.found

WasSet-store :
    (ps : List Put) (k : String) (entries : ℕ → CacheEntry) (q r : ℕ) (now : ℕ)
    → WasSet ps k (entries r)
    → WasSet ps k (store entries q (accessed now (entries q)) r)
WasSet-store ps k entries q r now w = elim (Bool-cases (r == q)) [
  | inl same ↦
      let w' = subst (λ x. WasSet ps k (entries x)) ((==_iff r q).0 same) w in
      rw same (WasSet-accessed ps k now (entries q) w')
  | inr other ↦ rw other w
]

store_other :
    (entries : ℕ → CacheEntry) (q r : ℕ) (e : CacheEntry) → r < q → store entries q e r ≡ entries r
store_other entries q r e below = ground (arith, below)

store_self : (entries : ℕ → CacheEntry) (q : ℕ) (e : CacheEntry) → store entries q e q ≡ e
store_self entries q e = ground arith

module _ {R : Type 0} (ops : RistrettoOps R) (sum : String → String)
    (holds : R → String → ℕ → Type 0) (laws : IsRistretto ops holds) where
  get-Sound :
      (m s u : String) (now : ℕ) (t : Trace R)
      → Sound holds t
      → Sound holds (call_step ops sum (get_called m s u now) t)
  unfolding call_step get_at
  get-Sound m s u now t h =
      let key = generate_cache_key sum m s u in
      let later = laws.of_get key in
      elim (Option-cases (ops.get key t.rc.cache).0) [
        | inl gone ↦
            rw (call_step, get_at, gone)
              (record {
                known = λ k r held. h.known k r (later k r t.rc.cache held);
                hits = h.hits;
                misses = ground (arith, h.misses);
              })
        | inr (q, there) ↦
            rw (call_step, get_at, there)
              (record {
                known = λ k r held.
                    let (below, w) = h.known k r (later k r t.rc.cache held) in
                    (below, WasSet-store t.puts k t.rc.entries q r now w);
                hits = ground (arith, h.hits);
                misses = ground (arith, h.misses);
              })
      ]

  set-Sound :
      (m s u response : String) (tokens : ℤ) (now : ℕ) (t : Trace R)
      → Sound holds t
      → Sound holds (call_step ops sum (set_called m s u response tokens now) t)
  unfolding call_step set_at
  set-Sound m s u response tokens now t h =
      let key = generate_cache_key sum m s u in
      let t' = call_step ops sum (set_called m s u response tokens now) t in
      let next = t.rc.next_ref in
      let entry : CacheEntry = record {
        response = response;
        model = m;
        tokens = tokens;
        created_at = now;
        last_accessed = now;
        access_count = 1;
      } in
      let new : WasSet t'.puts key (store t.rc.entries next entry next) =
        subst (λ e. WasSet t'.puts key e) (sym (store_self t.rc.entries next entry))
          (inl (refl, refl, refl, refl)) in
      record {
        known = λ k r held. elim (laws.of_set key k next r t.rc.cache held) [
          | inl (own, at_next) ↦
              subst (λ x. (x < next + 1) × WasSet t'.puts k (store t.rc.entries next entry x))
                at_next
                (
                  omega arith,
                  subst (λ l. WasSet t'.puts l (store t.rc.entries next entry next)) own new,
                )
          | inr before ↦
              let (below, w) = h.known k r before in
              (
                omega (arith, below),
                inr (
                    subst (λ e. WasSet t.puts k e)
                      (sym (store_other t.rc.entries next r entry below)) w),
              )
        ];
        hits = h.hits;
        misses = h.misses;
      }

  delete_at-Sound :
      (key : String) (t : Trace R)
      → Sound holds t
      → Sound holds (record t { rc = delete_at ops key t.rc })
  unfolding delete_at
  delete_at-Sound key t h = record {
    known = λ k r held. h.known k r (laws.of_del key k r t.rc.cache held);
    hits = h.hits;
    misses = h.misses;
  }

  clear-Sound : (t : Trace R) → Sound holds t → Sound holds (record t { rc = clear ops t.rc })
  unfolding clear
  clear-Sound t h = record {
    known = λ k r held. h.known k r (laws.of_clear k r t.rc.cache held);
    hits = h.hits;
    misses = h.misses;
  }

  expire_items-Sound :
      (now : ℕ) (items : Map ℕ) (t : Trace R)
      → Sound holds t
      → Sound holds (record t { rc = expire_items ops now items t.rc })
  unfolding expire_items
  expire_items-Sound now [] t h = h
  expire_items-Sound now (i ∷ is) t h = elim (Bool-cases (is_expired ops now t.rc i.1)) [
    | inl old ↦
        rw (old, expire_items)
          (expire_items-Sound now is (record t { rc = delete_at ops i.0 t.rc })
            (delete_at-Sound i.0 t h))
    | inr fresh ↦ rw (fresh, expire_items) (expire_items-Sound now is t h)
  ]

  call_step-Sound :
      (c : CacheCall) (t : Trace R) → Sound holds t → Sound holds (call_step ops sum c t)
  unfolding call_step cleanup_expired
  call_step-Sound (get_called m s u now) t h = get-Sound m s u now t h
  call_step-Sound (set_called m s u response tokens now) t h =
      set-Sound m s u response tokens now t h
  call_step-Sound (delete_called m s u) t h = delete_at-Sound (generate_cache_key sum m s u) t h
  call_step-Sound clear_called t h = clear-Sound t h
  call_step-Sound (cleanup_called now) t h = expire_items-Sound now t.rc.items t h

  cache_run-Sound :
      (cs : List CacheCall) (t : Trace R) → Sound holds t → Sound holds (cache_run ops sum cs t)
  unfolding cache_run
  cache_run-Sound [] t h = h
  cache_run-Sound (c ∷ cs) t h = cache_run-Sound cs (call_step ops sum c t) (call_step-Sound c t h)

  new_response_cache-Sound :
      (config : CacheConfig)
      → Holding (λ rc. Sound holds (started rc)) (new_response_cache ops config)
  unfolding new_response_cache
  new_response_cache-Sound config = elim (Option-cases (ops.new_cache config.max_entries)) [
    | inl failed ↦ rw (failed, new_response_cache) tt
    | inr (c, e) ↦
        rw (e, new_response_cache)
          (record {
            known = λ k r held. absurd (laws.of_new config.max_entries c k r e held);
            hits = refl;
            misses = refl;
          })
  ]

  get_at-WasSet :
      (key : String) (now : ℕ) (t : Trace R)
      → Sound holds t
      → Holding (WasSet t.puts key) (get_at ops key now t.rc).0
  unfolding get_at
  get_at-WasSet key now t h = elim (Option-cases (ops.get key t.rc.cache).0) [
    | inl gone ↦ rw (gone, get_at) tt
    | inr (q, there) ↦
        let (below, w) = h.known key q (laws.given key q t.rc.cache there) in
        rw (there, get_at) (WasSet-accessed t.puts key now (t.rc.entries q) w)
  ]

  -- After any sequence of calls of a new cache, Get answers only with what a call of Set stored for the
  -- same key: its model, response and number of tokens. Hits and Misses both are the number of the calls
  -- of Get that found an entry.
  pub cache_run-WasSet :
      (config : CacheConfig) (rc : ResponseCache R) (calls : List CacheCall)
      → new_response_cache ops config ≡ some rc
      → ((m s u : String) (now : ℕ) (e : CacheEntry)
          → (get ops sum m s u now (cache_run ops sum calls (started rc)).rc).0 ≡ some e
          → WasSet (cache_run ops sum calls (started rc)).puts (generate_cache_key sum m s u) e)
        × ((cache_run ops sum calls (started rc)).rc.hits
            ≡ (cache_run ops sum calls (started rc)).found)
        × ((cache_run ops sum calls (started rc)).rc.misses
            ≡ (cache_run ops sum calls (started rc)).found)
  cache_run-WasSet config rc calls made =
      let t = cache_run ops sum calls (started rc) in
      let first =
        subst (Holding (λ c. Sound holds (started c))) made (new_response_cache-Sound config) in
      let h = cache_run-Sound calls (started rc) first in
      (
        λ m s u now e hit.
            subst (Holding (WasSet t.puts (generate_cache_key sum m s u))) hit
              (get_at-WasSet (generate_cache_key sum m s u) now t h),
        h.hits,
        h.misses,
      )

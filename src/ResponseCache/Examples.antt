-- ===== src/ResponseCache/Examples.antt =====
-- The theorem about hive-server-go/cache.go with a plain map for ristretto, and a text for its hash.
use ollama_local_hives_clust.Prelude.{
  ℕ, ◌≡◌, refl, ◌⊎◌, inl, inr, String, none, some, List, [], ◌∷◌, if◌then◌else◌, ◌==◌, arith, Map,
  lookup, insert, delete, lookup-insert, lookup-delete, str_eq, eq_iff, pos, Bool-cases,
}
use ollama_local_hives_clust.ResponseCache.{
  RistrettoOps, ResponseCache, CacheConfig, CacheEntry, no_entry, new_response_cache,
  generate_cache_key, get,
}
use ollama_local_hives_clust.ResponseCache.Runs.{
  IsRistretto, CacheCall, get_called, set_called, delete_called, cleanup_called, WasSet, cache_run,
  started,
}
use ollama_local_hives_clust.ResponseCache.Provenance.{cache_run-WasSet}

abbrev plain : RistrettoOps (Map ℕ)
plain = record {
  new_cache = λ n. if n == 0 then none else some [];
  get = λ k c. (lookup k c, c);
  set = λ k r c. insert k r c;
  del = λ k c. delete k c;
  clear = λ _. [];
}

abbrev InMap : Map ℕ → String → ℕ → Type 0
InMap c k r = lookup k c ≡ some r

insert-InMap :
    (k l : String) (r q : ℕ) (c : Map ℕ)
    → InMap (insert k r c) l q
    → ((k ≡ l) × (r ≡ q)) ⊎ InMap c l q
insert-InMap k l r q c h = elim (Bool-cases (str_eq k l)) [
  | inl same ↦ inl ((eq_iff k l).0 same, ground (arith, h, same, lookup-insert k l r c))
  | inr other ↦ inr (ground (arith, h, other, lookup-insert k l r c))
]

new-InMap : (n : ℕ) (c : Map ℕ) (k : String) (r : ℕ) → plain.new_cache n ≡ some c → ¬ (InMap c k r)
unfolding lookup
new-InMap n c k r made held = ground (arith, made, held)

plain-IsRistretto : IsRistretto plain InMap
unfolding lookup
plain-IsRistretto = record {
  of_new = new-InMap;
  given = λ k r c h. h;
  of_get = λ k l r c h. h;
  of_set = insert-InMap;
  of_del = λ k l r c h. ground (arith, h, lookup-delete k l c);
  of_clear = λ l r c h. ground (arith, h);
}

abbrev joined_key : String → String
joined_key t = t

abbrev config : CacheConfig
config = record { max_entries = 10; ttl_duration = 3600 }

abbrev fresh : ResponseCache (Map ℕ)
fresh = record {
  cache = [];
  config = config;
  hits = 0;
  misses = 0;
  items = [];
  entries = λ _. no_entry;
  next_ref = 0;
}

abbrev calls : List CacheCall
calls =
    set_called "llama3:8b" "" "hello" "hi" (pos 3) 10
    ∷ get_called "llama3:8b" "" "hello" 20
    ∷ get_called "phi3:mini" "" "hello" 30
    ∷ set_called "phi3:mini" "" "hello" "hey" (pos 2) 40
    ∷ cleanup_called 3630
    ∷ delete_called "phi3:mini" "" "hello"
    ∷ []

fresh-made : new_response_cache plain config ≡ some fresh
unfolding new_response_cache
fresh-made = refl

cache_run-WasSet_example :
    ((m s u : String) (now : ℕ) (e : CacheEntry)
      → (get plain joined_key m s u now (cache_run plain joined_key calls (started fresh)).rc).0
        ≡ some e
      → WasSet
          (cache_run plain joined_key calls (started fresh)).puts
          (generate_cache_key joined_key m s u)
          e)
    × ((cache_run plain joined_key calls (started fresh)).rc.hits
        ≡ (cache_run plain joined_key calls (started fresh)).found)
    × ((cache_run plain joined_key calls (started fresh)).rc.misses
        ≡ (cache_run plain joined_key calls (started fresh)).found)
cache_run-WasSet_example =
    cache_run-WasSet plain joined_key InMap plain-IsRistretto config fresh calls fresh-made

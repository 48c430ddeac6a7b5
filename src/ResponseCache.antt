-- ===== src/ResponseCache.antt =====
-- hive-server-go/cache.go: the cache of answers. Ristretto and SHA-256 are parameters. A *CacheEntry is a
-- reference into `entries`, as ristretto and the map of items share it. The calls run one after another;
-- the semantic index, which nothing uses, is left out.
pub mod Runs
pub mod Provenance
mod Examples
use Prim.Native.String
use ollama_local_hives_clust.Prelude.{
  ℕ, ◌+◌, ◌-◌, String, Bool, true, false, Option, none, some, List, [], ◌∷◌, ltb, ◌==◌,
  if◌then◌else◌, length, Map, insert, delete, ℤ, pos,
}

pub record CacheEntry : Type 0 where
  pub response : String
  pub model : String
  pub tokens : ℤ
  pub created_at : ℕ
  pub last_accessed : ℕ
  pub access_count : ℕ

pub record CacheConfig : Type 0 where
  pub max_entries : ℕ
  pub ttl_duration : ℕ

-- What cache.go calls of ristretto. A Get may change its state, as it also takes in what was set.
pub record RistrettoOps (R : Type 0) : Type 0 where
  pub new_cache : ℕ → Option R
  pub get : String → R → Option ℕ × R
  pub set : String → ℕ → R → R
  pub del : String → R → R
  pub clear : R → R

pub record ResponseCache (R : Type 0) : Type 0 where
  pub cache : R
  pub config : CacheConfig
  pub hits : ℕ
  pub misses : ℕ
  pub items : Map ℕ
  pub entries : ℕ → CacheEntry
  pub next_ref : ℕ

-- hits, misses, size and cost
pub record CacheStats : Type 0 where
  pub hits : ℕ
  pub misses : ℕ
  pub size : ℕ
  pub cost : ℕ

abbrev pub store : (ℕ → CacheEntry) → ℕ → CacheEntry → ℕ → CacheEntry
store entries ref entry r = if r == ref then entry else entries r

abbrev pub no_entry : CacheEntry
no_entry = record {
  response = "";
  model = "";
  tokens = pos 0;
  created_at = 0;
  last_accessed = 0;
  access_count = 0;
}

-- `sum` is the SHA-256 of a text, in hexadecimal digits.
unfoldable pub generate_cache_key : (String → String) → String → String → String → String
generate_cache_key sum model system_prompt user_message =
    sum (
      String.◌++◌ model
        (String.◌++◌ "|" (String.◌++◌ system_prompt (String.◌++◌ "|" user_message))))

abbrev pub accessed : ℕ → CacheEntry → CacheEntry
accessed now e = record e { access_count = e.access_count + 1; last_accessed = now }

module _ {R : Type 0} (ops : RistrettoOps R) where
  unfoldable pub new_response_cache : CacheConfig → Option (ResponseCache R)
  new_response_cache config =
      elim (ops.new_cache config.max_entries) as (λ _. Option (ResponseCache R)) [
        | none ↦ none
        | some c ↦ some (record {
          cache = c;
          config = config;
          hits = 0;
          misses = 0;
          items = [];
          entries = λ _. no_entry;
          next_ref = 0;
        })
      ]

  -- Get, Set and Delete with the key that they make first
  unfoldable pub get_at : String → ℕ → ResponseCache R → Option CacheEntry × ResponseCache R
  get_at key now rc =
      let counted = record rc { misses = rc.misses + 1 } in
      let (value, cache) = ops.get key rc.cache in
      elim value as (λ _. Option CacheEntry × ResponseCache R) [
        | none ↦ (none, record counted { cache = cache; misses = counted.misses - 1 })
        | some r ↦
            let entry = accessed now (rc.entries r) in
            (
              some entry,
              record counted {
                cache = cache;
                entries = store rc.entries r entry;
                hits = rc.hits + 1;
              },
            )
      ]

  unfoldable pub set_at : String → String → String → ℤ → ℕ → ResponseCache R → ResponseCache R
  set_at key model response tokens now rc =
      let entry : CacheEntry = record {
        response = response;
        model = model;
        tokens = tokens;
        created_at = now;
        last_accessed = now;
        access_count = 1;
      } in
      record rc {
        entries = store rc.entries rc.next_ref entry;
        next_ref = rc.next_ref + 1;
        cache = ops.set key rc.next_ref rc.cache;
        items = insert key rc.next_ref rc.items;
      }

  unfoldable pub delete_at : String → ResponseCache R → ResponseCache R
  delete_at key rc = record rc { cache = ops.del key rc.cache; items = delete key rc.items }

  unfoldable pub clear : ResponseCache R → ResponseCache R
  clear rc = record rc { cache = ops.clear rc.cache; items = [] }

  -- now.Sub(entry.CreatedAt) > rc.config.TTLDuration
  abbrev pub is_expired : ℕ → ResponseCache R → ℕ → Bool
  is_expired now rc ref = ltb rc.config.ttl_duration (now - (rc.entries ref).created_at)

  -- The loop visits the items as they are when it begins.
  unfoldable pub expire_items : ℕ → Map ℕ → ResponseCache R → ResponseCache R
  expire_items now [] rc = rc
  expire_items now (i ∷ is) rc =
      expire_items now is (if is_expired now rc i.1 then delete_at i.0 rc else rc)

  unfoldable pub cleanup_expired : ℕ → ResponseCache R → ResponseCache R
  cleanup_expired now rc = expire_items now rc.items rc

  unfoldable pub stats : ResponseCache R → CacheStats
  stats rc = record {
    hits = rc.hits;
    misses = rc.misses;
    size = length rc.items;
    cost = length rc.items;
  }

module _ {R : Type 0} (ops : RistrettoOps R) (sum : String → String) where
  abbrev pub get :
      String → String → String → ℕ → ResponseCache R → Option CacheEntry × ResponseCache R
  get model system_prompt user_message now rc =
      get_at ops (generate_cache_key sum model system_prompt user_message) now rc

  abbrev pub set : String → String → String → String → ℤ → ℕ → ResponseCache R → ResponseCache R
  set model system_prompt user_message response tokens now rc =
      set_at ops (generate_cache_key sum model system_prompt user_message) model response tokens now
        rc

  abbrev pub delete_entry : String → String → String → ResponseCache R → ResponseCache R
  delete_entry model system_prompt user_message rc =
      delete_at ops (generate_cache_key sum model system_prompt user_message) rc

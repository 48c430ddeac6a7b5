-- ===== src/ResponseCache/Runs.antt =====
-- What hive-server-go/cache.go relies on in ristretto, and sequences of its calls.
use ollama_local_hives_clust.Prelude.{ℕ, ◌+◌, ◌≡◌, ◌⊎◌, String, none, some, List, [], ◌∷◌, ℤ}
use ollama_local_hives_clust.ResponseCache.{
  CacheEntry, RistrettoOps, ResponseCache, generate_cache_key, clear, cleanup_expired, get, set,
  delete_entry,
}

-- What ristretto may still give for a key, now or later. It gives nothing that was not set for the key,
-- and may give nothing at all: it drops and evicts entries as it likes.
pub record IsRistretto {R : Type 0} (ops : RistrettoOps R) (holds : R → String → ℕ → Type 0)
    : Type 0 where
  pub of_new : (n : ℕ) (c : R) (k : String) (r : ℕ) → ops.new_cache n ≡ some c → ¬ (holds c k r)
  pub given : (k : String) (r : ℕ) (c : R) → (ops.get k c).0 ≡ some r → holds c k r
  pub of_get : (k l : String) (r : ℕ) (c : R) → holds (ops.get k c).1 l r → holds c l r
  pub of_set :
      (k l : String) (r q : ℕ) (c : R)
      → holds (ops.set k r c) l q
      → ((k ≡ l) × (r ≡ q)) ⊎ holds c l q
  pub of_del : (k l : String) (r : ℕ) (c : R) → holds (ops.del k c) l r → holds c l r
  pub of_clear : (l : String) (r : ℕ) (c : R) → holds (ops.clear c) l r → holds c l r

pub data CacheCall : Type 0 where
  get_called : (model system_prompt user_message : String) (now : ℕ) → CacheCall
  set_called :
      (model system_prompt user_message response : String) (tokens : ℤ) (now : ℕ) → CacheCall
  delete_called : (model system_prompt user_message : String) → CacheCall
  clear_called : CacheCall
  cleanup_called : (now : ℕ) → CacheCall

-- A call of Set, with the key that it makes
pub record Put : Type 0 where
  pub key : String
  pub model : String
  pub response : String
  pub tokens : ℤ

-- The cache after some calls, what was set, and how many calls of Get found an entry.
pub record Trace (R : Type 0) : Type 0 where
  pub rc : ResponseCache R
  pub puts : List Put
  pub found : ℕ

-- The entry's answer was set for the key.
abbrev pub WasSet : List Put → String → CacheEntry → Type 0
WasSet [] k e = ⊥
WasSet (p ∷ ps) k e =
    ((p.key ≡ k) × (p.model ≡ e.model) × (p.response ≡ e.response) × (p.tokens ≡ e.tokens))
    ⊎ WasSet ps k e

module _ {R : Type 0} (ops : RistrettoOps R) (sum : String → String) where
  unfoldable pub call_step : CacheCall → Trace R → Trace R
  call_step (get_called m s u now) t =
      let (answer, rc) = get ops sum m s u now t.rc in
      record t {
        rc = rc;
        found = elim answer as (λ _. ℕ) [ none ↦ t.found | some _ ↦ t.found + 1 ];
      }
  call_step (set_called m s u response tokens now) t = record t {
    rc = set ops sum m s u response tokens now t.rc;
    puts =
        (record {
          key = generate_cache_key sum m s u;
          model = m;
          response = response;
          tokens = tokens;
        })
        ∷ t.puts;
  }
  call_step (delete_called m s u) t = record t { rc = delete_entry ops sum m s u t.rc }
  call_step clear_called t = record t { rc = clear ops t.rc }
  call_step (cleanup_called now) t = record t { rc = cleanup_expired ops now t.rc }

  unfoldable pub cache_run : List CacheCall → Trace R → Trace R
  cache_run [] t = t
  cache_run (c ∷ cs) t = cache_run cs (call_step c t)

abbrev pub started : {R : Type 0} → ResponseCache R → Trace R
started rc = record { rc = rc; puts = []; found = 0 }

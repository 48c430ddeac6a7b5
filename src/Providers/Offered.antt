-- ===== src/Providers/Offered.antt =====
-- What GetAggregatedModels of hive-server-go/provider.go gives.
use ollama_local_hives_clust.Prelude.{
  ℕ, ◌≡◌, refl, sym, ◌∙◌, String, Bool, true, false, Option, none, some, List, [], ◌∷◌, ◌++◌,
  append-nil, append_assoc, arith, if◌then◌else◌, str_eq, eq_iff, Map, lookup, insert,
  lookup-insert, Bool-cases, inl, inr,
}
use ollama_local_hives_clust.Providers.{ModelInfo, ProviderInfo, NodeInfo, ProviderManager, Web}
use ollama_local_hives_clust.Providers.Cache.{
  Collected, is_seen, key_of, collect, collect_models, collect_providers, collect_nodes, get_nodes,
  get_aggregated_models,
}

-- The first model with the key.
abbrev pub first_with : String → List ModelInfo → Option ModelInfo
first_with k [] = none
first_with k (m ∷ ms) = if str_eq (key_of m) k then some m else first_with k ms

-- No two models have the same key.
abbrev pub Unique : List ModelInfo → Type 0
Unique [] = Unit
Unique (m ∷ ms) = (first_with (key_of m) ms ≡ none) × Unique ms

abbrev pub or_first : Option ModelInfo → Option ModelInfo → Option ModelInfo
or_first none b = b
or_first (some a) b = some a

abbrev has : Option ModelInfo → Bool
has none = false
has (some _) = true

abbrev pub models_of : List ProviderInfo → List ModelInfo
models_of [] = []
models_of (p ∷ ps) = p.models ++ models_of ps

-- The models of all nodes, one after the other.
abbrev pub offered_by : {F : Type 0} → List (NodeInfo F) → List ModelInfo
offered_by [] = []
offered_by (n ∷ ns) = models_of n.providers ++ offered_by ns

first_with-append :
    (k : String) (ms ns : List ModelInfo)
    → first_with k (ms ++ ns) ≡ or_first (first_with k ms) (first_with k ns)
first_with-append k [] ns = refl
first_with-append k (m ∷ ms) ns = ground (arith, first_with-append k ms ns)

Unique-append :
    (ms : List ModelInfo) (n : ModelInfo)
    → Unique ms
    → first_with (key_of n) ms ≡ none
    → Unique (ms ++ n ∷ [])
Unique-append [] n u h = (refl, tt)
Unique-append (m ∷ ms) n u h = (
  ground (
    arith,
    u.0,
    h,
    first_with-append (key_of m) ms (n ∷ []),
    eq_iff (key_of n) (key_of m),
    eq_iff (key_of m) (key_of n),
  ),
  Unique-append ms n u.1 (ground (arith, h)),
)

-- What has been collected are the offers, the first of each key.
record Collects (offers : List ModelInfo) (c : Collected) : Type 0 where
  unique : Unique c.all
  marked : (k : String) → is_seen k c.seen ≡ has (first_with k c.all)
  firsts : (k : String) → first_with k c.all ≡ first_with k offers

has-none : (o : Option ModelInfo) → has o ≡ false → o ≡ none
has-none none h = refl
has-none (some m) h = ground arith

is_seen-insert :
    (key k : String) (seen : Map Bool)
    → is_seen k (insert key true seen) ≡ (if str_eq key k then true else is_seen k seen)
is_seen-insert key k seen = ground (arith, lookup-insert key k true seen)

collect-Collects :
    (offers : List ModelInfo) (m : ModelInfo) (c : Collected)
    → Collects offers c
    → Collects (offers ++ m ∷ []) (collect m c)
unfolding collect
collect-Collects offers m c h = elim (Bool-cases (is_seen (key_of m) c.seen)) [
  | inl there ↦
      rw (there, collect)
        (record {
          unique = h.unique;
          marked = h.marked;
          firsts = λ k. ground (
            arith,
            there,
            h.marked (key_of m),
            h.firsts k,
            first_with-append k offers (m ∷ []),
            eq_iff (key_of m) k,
          );
        })
  | inr new ↦
      let fresh = has-none (first_with (key_of m) c.all) (sym (h.marked (key_of m)) ∙ new) in
      rw (new, collect)
        (record {
          unique = Unique-append c.all m h.unique fresh;
          marked = λ k. ground (
            arith,
            is_seen-insert (key_of m) k c.seen,
            h.marked k,
            first_with-append k c.all (m ∷ []),
          );
          firsts = λ k. ground (
            arith,
            h.firsts k,
            first_with-append k c.all (m ∷ []),
            first_with-append k offers (m ∷ []),
          );
        })
]

collect_models-Collects :
    (ms offers : List ModelInfo) (c : Collected)
    → Collects offers c
    → Collects (offers ++ ms) (collect_models ms c)
unfolding collect_models
collect_models-Collects [] offers c h = rw (append-nil offers) h
collect_models-Collects (m ∷ ms) offers c h =
    rw (← append_assoc offers (m ∷ []) ms)
      (collect_models-Collects ms (offers ++ m ∷ []) (collect m c) (collect-Collects offers m c h))

collect_providers-Collects :
    (ps : List ProviderInfo) (offers : List ModelInfo) (c : Collected)
    → Collects offers c
    → Collects (offers ++ models_of ps) (collect_providers ps c)
unfolding collect_providers
collect_providers-Collects [] offers c h = rw (append-nil offers) h
collect_providers-Collects (p ∷ ps) offers c h =
    rw (← append_assoc offers p.models (models_of ps)) (
      collect_providers-Collects ps (offers ++ p.models) (collect_models p.models c)
        (collect_models-Collects p.models offers c h))

empty-Collects : Collects [] (record { seen = []; all = [] })
unfolding lookup
empty-Collects = record { unique = tt; marked = λ k. refl; firsts = λ k. refl }

module _ {F : Type 0} where
  collect_nodes-Collects :
      (ns : List (NodeInfo F)) (offers : List ModelInfo) (c : Collected)
      → Collects offers c
      → Collects (offers ++ offered_by ns) (collect_nodes ns c)
  unfolding collect_nodes
  collect_nodes-Collects [] offers c h = rw (append-nil offers) h
  collect_nodes-Collects (n ∷ ns) offers c h =
      rw (← append_assoc offers (models_of n.providers) (offered_by ns)) (
        collect_nodes-Collects ns (offers ++ models_of n.providers)
          (collect_providers n.providers c) (collect_providers-Collects n.providers offers c h))

module _ {F : Type 0} (zero_load : F) (web : Web) where
  -- The list of models names no model of a provider twice, and holds, for each provider and name, the
  -- first model of that provider and name among those of the nodes that GetNodes gives at that time
  -- without peers, and none if there is none.
  pub get_aggregated_models-first :
      (now : ℕ) (pm : ProviderManager F)
      → Unique (get_aggregated_models zero_load web now pm).0
        × ((k : String)
            → first_with k (get_aggregated_models zero_load web now pm).0
              ≡ first_with k (offered_by (get_nodes zero_load web [] now pm).0))
  unfolding get_aggregated_models
  get_aggregated_models-first now pm =
      let h =
        collect_nodes-Collects (get_nodes zero_load web [] now pm).0 []
          (record { seen = []; all = [] }) empty-Collects in
      (h.unique, h.firsts)

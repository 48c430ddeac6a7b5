-- ===== src/OpenAi/Search.antt =====
-- The searches of hive-server-go/model_registry.go: what they find, and what there is not if they fail.
use ollama_local_hives_clust.Prelude.{
  ◌≡◌, refl, sym, ◌∙◌, String, Bool, true, false, not, ◌&&◌, Option, none, some, [], ◌∷◌, Map,
  lookup, str_eq, All, Bool-cases, Option-cases, inl, inr, ◌⊎◌, ltb,
}
use ollama_local_hives_clust.ModelRegistry.{
  LoadedModelInfo, is_loaded, if_loaded, better, best_match, first_peer, first_of_family,
  first_compatible,
}
use ollama_local_hives_clust.OpenAi.{on_a_peer}

-- An entry of the map has the property.
abbrev pub AnyEntry : {V : Type 0} → (String × V → Type 0) → Map V → Type 0
AnyEntry P [] = ⊥
AnyEntry P (e ∷ m) = P e ⊎ AnyEntry P m

abbrev pub is_of_family : String → LoadedModelInfo → Bool
is_of_family family info = is_loaded info.state && str_eq info.family family

-- A loaded model of the family that is `info`, in one server's map.
abbrev pub HoldsFamily : String → LoadedModelInfo → Map LoadedModelInfo → Type 0
HoldsFamily family info m = AnyEntry (λ e. (e.1 ≡ info) × (is_of_family family e.1 ≡ true)) m

-- No model of the map is loaded and of the family.
abbrev pub LacksFamily : String → Map LoadedModelInfo → Type 0
LacksFamily family m = All (λ e. is_of_family family e.1 ≡ false) m

abbrev pub LacksModel : String → Map (Map LoadedModelInfo) → Type 0
LacksModel model peers = All (λ e. if_loaded (lookup model e.1) ≡ none) peers

better-either :
    (best : LoadedModelInfo) (info : LoadedModelInfo)
    → (better (some best) info ≡ info) ⊎ (better (some best) info ≡ best)
better-either best info =
    elim (Bool-cases (not (str_eq info.quantization "") && str_eq best.quantization "")) [
      | inl a ↦ inl (simp a)
      | inr a ↦ elim (Bool-cases (ltb best.last_used info.last_used)) [
        | inl b ↦ inl (simp (a, b))
        | inr b ↦ inr (simp (a, b))
      ]
    ]

-- From a candidate on, the loop ends with it or with an entry of the family.
best_match-some :
    (family : String) (m : Map LoadedModelInfo) (best : LoadedModelInfo)
    → (info : LoadedModelInfo) × (best_match family m (some best) ≡ some info)
      × ((info ≡ best) ⊎ HoldsFamily family info m)
unfolding best_match
best_match-some family [] best = (best, refl, inl refl)
best_match-some family (e ∷ m) best = elim (Bool-cases (is_of_family family e.1)) [
  | inr isnt ↦
      let (info, found, from) = best_match-some family m best in
      (
        info,
        rw isnt found,
        elim from as (λ _. (info ≡ best) ⊎ HoldsFamily family info (e ∷ m)) [
          | inl b ↦ inl b
          | inr h ↦ inr (inr h)
        ],
      )
  | inl own ↦
      let (info, found, from) = best_match-some family m (better (some best) e.1) in
      (
        info,
        rw own found,
        elim from as (λ _. (info ≡ best) ⊎ HoldsFamily family info (e ∷ m)) [
          | inr h ↦ inr (inr h)
          | inl b ↦ elim (better-either best e.1) [
            | inl new ↦ inr (inl (sym (b ∙ new), own))
            | inr old ↦ inl (b ∙ old)
          ]
        ],
      )
]

-- A search in one server's models gives one of the family, or nothing where there is none.
abbrev pub Search : String → Map LoadedModelInfo → Option LoadedModelInfo → Type 0
Search family m found =
    ((found ≡ none) × LacksFamily family m)
    ⊎ ((info : LoadedModelInfo) × (found ≡ some info) × HoldsFamily family info m)

pub best_match-Search :
    (family : String) (m : Map LoadedModelInfo) → Search family m (best_match family m none)
unfolding best_match
best_match-Search family [] = inl (refl, tt)
best_match-Search family (e ∷ m) = elim (Bool-cases (is_of_family family e.1)) [
  | inr isnt ↦
      elim (best_match-Search family m)
        as (λ _. Search family (e ∷ m) (best_match family (e ∷ m) none)) [
          | inl (gone, lacks) ↦ inl (rw isnt gone, (isnt, lacks))
          | inr (info, found, held) ↦ inr (info, rw isnt found, inr held)
        ]
  | inl own ↦
      let (info, found, from) = best_match-some family m e.1 in
      inr (
        info,
        rw own found,
        elim from as (λ _. HoldsFamily family info (e ∷ m)) [
          | inl b ↦ inl (sym b, own)
          | inr h ↦ inr h
        ],
      )
]

first_of_family-Search :
    (family : String) (m : Map LoadedModelInfo) → Search family m (first_of_family family m)
unfolding first_of_family
first_of_family-Search family [] = inl (refl, tt)
first_of_family-Search family (e ∷ m) = elim (Bool-cases (is_of_family family e.1)) [
  | inl own ↦ inr (e.1, rw own refl, inl (refl, own))
  | inr isnt ↦
      elim (first_of_family-Search family m)
        as (λ _. Search family (e ∷ m) (first_of_family family (e ∷ m))) [
          | inl (gone, lacks) ↦ inl (rw isnt gone, (isnt, lacks))
          | inr (info, found, held) ↦ inr (info, rw isnt found, inr held)
        ]
]

-- A search over the peers gives one whose models have the property.
abbrev pub PeerSearch :
    (LoadedModelInfo → Map LoadedModelInfo → Type 0)
    → (Map LoadedModelInfo → Type 0)
    → Map (Map LoadedModelInfo)
    → Option (String × LoadedModelInfo)
    → Type 0
PeerSearch Holds Lacks peers found =
    ((found ≡ none) × All (λ e. Lacks e.1) peers)
    ⊎ ((p : String × LoadedModelInfo) × (found ≡ some p)
        × AnyEntry (λ e. (e.0 ≡ p.0) × Holds p.1 e.1) peers)

abbrev pub HoldsModel : String → LoadedModelInfo → Map LoadedModelInfo → Type 0
HoldsModel model info m = if_loaded (lookup model m) ≡ some info

pub first_peer-PeerSearch :
    (model : String) (peers : Map (Map LoadedModelInfo))
    → PeerSearch
        (HoldsModel model)
        (λ m. if_loaded (lookup model m) ≡ none)
        peers
        (first_peer model peers)
unfolding first_peer
first_peer-PeerSearch model [] = inl (refl, tt)
first_peer-PeerSearch model (e ∷ peers) = elim (Option-cases (if_loaded (lookup model e.1))) [
  | inr (info, own) ↦ inr ((e.0, info), rw (own, first_peer) refl, inl (refl, own))
  | inl isnt ↦
      elim (first_peer-PeerSearch model peers)
        as (λ _.
          PeerSearch (HoldsModel model) (λ m. if_loaded (lookup model m) ≡ none) (e ∷ peers)
            (first_peer model (e ∷ peers))) [
              | inl (gone, lacks) ↦ inl (rw (isnt, first_peer) gone, (isnt, lacks))
              | inr (p, found, held) ↦ inr (p, rw (isnt, first_peer) found, inr held)
            ]
]

pub first_compatible-PeerSearch :
    (family : String) (peers : Map (Map LoadedModelInfo))
    → PeerSearch (HoldsFamily family) (LacksFamily family) peers (first_compatible family peers)
unfolding first_compatible
first_compatible-PeerSearch family [] = inl (refl, tt)
first_compatible-PeerSearch family (e ∷ peers) = elim (first_of_family-Search family e.1) [
  | inr (info, own, holds) ↦ inr ((e.0, info), rw (own, first_compatible) refl, inl (refl, holds))
  | inl (isnt, none_here) ↦
      elim (first_compatible-PeerSearch family peers)
        as (λ _.
          PeerSearch (HoldsFamily family) (LacksFamily family) (e ∷ peers)
            (first_compatible family (e ∷ peers))) [
              | inl (gone, lacks) ↦ inl (rw (isnt, first_compatible) gone, (none_here, lacks))
              | inr (p, found, held) ↦ inr (p, rw (isnt, first_compatible) found, inr held)
            ]
]

-- A match of a search over named peers counts as found.
pub named_peer :
    (P : LoadedModelInfo → Map LoadedModelInfo → Type 0) (peers : Map (Map LoadedModelInfo))
    (p : String × LoadedModelInfo)
    → All (λ e. str_eq e.0 "" ≡ false) peers
    → AnyEntry (λ e. (e.0 ≡ p.0) × P p.1 e.1) peers
    → on_a_peer (some p) ≡ some p
unfolding on_a_peer
named_peer P [] p named h = elim h [ ]
named_peer P (e ∷ peers) p named (inl (same, _)) =
    let proper : str_eq p.0 "" ≡ false = rw same at named.0 in rw proper refl
named_peer P (e ∷ peers) p named (inr h) = named_peer P peers p named.1 h

-- ===== src/OpenAi/Selection.antt =====
-- What selectBestModel of hive-server-go/openai_compat.go selects.
use ollama_local_hives_clust.Prelude.{
  ℕ, ◌≡◌, refl, String, true, false, none, some, Map, str_eq, All, Bool-cases, inl, inr, ◌⊎◌,
}
use ollama_local_hives_clust.ModelRegistry.{
  LoadedModelInfo, ModelRegistry, is_loaded_locally, extract_model_family,
  find_compatible_local_model, find_peer_with_loaded_model, find_peer_with_compatible_model,
}
use ollama_local_hives_clust.OpenAi.{SelectedModel, on_a_peer, select_best_model}
use ollama_local_hives_clust.OpenAi.Search.{
  AnyEntry, HoldsFamily, HoldsModel, LacksFamily, LacksModel, best_match-Search,
  first_compatible-PeerSearch, first_peer-PeerSearch, named_peer,
}

module _ (url : String) (mr : ModelRegistry) (requested : String) where
  -- A model of the requested one's family, which is not the empty text
  abbrev pub LacksKin : Map LoadedModelInfo → Type 0
  LacksKin m =
      (str_eq (extract_model_family requested) "" ≡ true)
      ⊎ LacksFamily (extract_model_family requested) m

  abbrev pub LacksPeerKin : Type 0
  LacksPeerKin =
      (str_eq (extract_model_family requested) "" ≡ true)
      ⊎ All (λ e. LacksFamily (extract_model_family requested) e.1) mr.peer_models

  -- The five outcomes, each with what holds of the registry.
  pub data Choice : SelectedModel → Type 0 where
    loaded_here :
        is_loaded_locally mr requested ≡ true
        → Choice (record { name = requested; endpoint = url; used_compatible = false })
    kin_here :
        (info : LoadedModelInfo)
        → is_loaded_locally mr requested ≡ false
        → HoldsFamily (extract_model_family requested) info mr.local_models
        → Choice (record { name = info.name; endpoint = info.endpoint; used_compatible = true })
    on_peer :
        (p : String × LoadedModelInfo)
        → is_loaded_locally mr requested ≡ false
        → LacksKin mr.local_models
        → AnyEntry (λ e. (e.0 ≡ p.0) × HoldsModel requested p.1 e.1) mr.peer_models
        → Choice (record { name = requested; endpoint = p.1.endpoint; used_compatible = false })
    kin_on_peer :
        (p : String × LoadedModelInfo)
        → is_loaded_locally mr requested ≡ false
        → LacksKin mr.local_models
        → LacksModel requested mr.peer_models
        → AnyEntry
            (λ e. (e.0 ≡ p.0) × HoldsFamily (extract_model_family requested) p.1 e.1)
            mr.peer_models
        → Choice (record { name = p.1.name; endpoint = p.1.endpoint; used_compatible = true })
    nowhere :
        is_loaded_locally mr requested ≡ false
        → LacksKin mr.local_models
        → LacksModel requested mr.peer_models
        → LacksPeerKin
        → Choice (record { name = requested; endpoint = url; used_compatible = false })

  kin_search :
      ((find_compatible_local_model mr requested ≡ none) × LacksKin mr.local_models)
      ⊎ ((info : LoadedModelInfo) × (find_compatible_local_model mr requested ≡ some info)
          × HoldsFamily (extract_model_family requested) info mr.local_models)
  unfolding find_compatible_local_model
  kin_search = elim (Bool-cases (str_eq (extract_model_family requested) "")) [
    | inl nameless ↦ inl (rw nameless refl, inl nameless)
    | inr named ↦ elim (best_match-Search (extract_model_family requested) mr.local_models) [
      | inl (gone, lacks) ↦ inl (rw named gone, inr lacks)
      | inr (info, found, held) ↦ inr (info, rw named found, held)
    ]
  ]

  peer_kin_search :
      ((find_peer_with_compatible_model mr requested ≡ none) × LacksPeerKin)
      ⊎ ((p : String × LoadedModelInfo) × (find_peer_with_compatible_model mr requested ≡ some p)
          × AnyEntry
              (λ e. (e.0 ≡ p.0) × HoldsFamily (extract_model_family requested) p.1 e.1)
              mr.peer_models)
  unfolding find_peer_with_compatible_model
  peer_kin_search = elim (Bool-cases (str_eq (extract_model_family requested) "")) [
    | inl nameless ↦ inl (rw nameless refl, inl nameless)
    | inr named ↦
        elim (first_compatible-PeerSearch (extract_model_family requested) mr.peer_models) [
          | inl (gone, lacks) ↦ inl (rw named gone, inr lacks)
          | inr (p, found, held) ↦ inr (p, rw named found, held)
        ]
  ]

  -- The selected model is the requested one on the server's own URL if it is loaded there; else a loaded
  -- local model of its family; else the requested model on a peer that has it loaded; else a loaded
  -- model of its family on a peer; and with none of these the requested model on the server's own
  -- URL. Each comes only where the earlier ones are missing. It assumes that no peer has an empty id.
  pub select_best_model-Choice :
      (now : ℕ)
      → All (λ e. str_eq e.0 "" ≡ false) mr.peer_models
      → Choice (select_best_model url mr requested now).0
  unfolding select_best_model find_peer_with_loaded_model on_a_peer
  select_best_model-Choice now named = elim (Bool-cases (is_loaded_locally mr requested)) [
    | inl here ↦ rw here (loaded_here here)
    | inr away ↦ elim kin_search [
      | inr (info, found, held) ↦ rw (away, found) (kin_here info away held)
      | inl (gone, lacks) ↦ elim (first_peer-PeerSearch requested mr.peer_models) [
        | inr (p, found, held) ↦
            let proper = named_peer (HoldsModel requested) mr.peer_models p named held in
            rw (away, gone, found, proper) (on_peer p away lacks held)
        | inl (none_there, empty_there) ↦ elim peer_kin_search [
          | inr (p, found, held) ↦
              let proper =
                named_peer (HoldsFamily (extract_model_family requested)) mr.peer_models p named
                  held in
              rw (away, gone, none_there, found, proper) (kin_on_peer p away lacks empty_there held)
          | inl (no_kin, lacks_kin) ↦
              rw (away, gone, none_there, no_kin) (nowhere away lacks empty_there lacks_kin)
        ]
      ]
    ]
  ]

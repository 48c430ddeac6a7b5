-- ===== src/ModelRegistry/Loads.antt =====
-- The count of local models in hive-server-go/model_registry.go.
use ollama_local_hives_clust.Prelude.{
  ℕ, ℤ, ◌+◌, ◌≡◌, inl, inr, refl, ap, String, Bool, true, false, none, some, List, [], ◌∷◌, arith,
  length, Map, lookup, insert, delete, lookup-insert, lookup-delete, str_eq, eq_iff, Bool-cases,
  Option-cases,
}
use ollama_local_hives_clust.ModelRegistry.{
  LoadedModelInfo, ModelRegistry, new_model_registry, stored, add_to_family_group, family_key,
  register_info, register_local_model, loaded_info, unregister_local_model, update_entry,
  update_model, used, released, mark_model_used, decrement_ref_count, register_peer_models,
  remove_peer_models,
}

module _ {V : Type 0} where
  -- No key has two entries.
  abbrev pub Keyed : Map V → Type 0
  Keyed [] = Unit
  Keyed (e ∷ m) = (lookup e.0 m ≡ none) × Keyed m

  pub length-insert :
      (k : String) (v : V) (m : Map V)
      → length (insert k v m) ≡ elim (lookup k m) [ none ↦ length m + 1 | some _ ↦ length m ]
  unfolding lookup insert
  length-insert k v [] = omega arith
  length-insert k v (e ∷ m) = elim (Bool-cases (str_eq e.0 k)) [
    | inl own ↦ ground (arith, own)
    | inr other ↦ ground (arith, other, length-insert k v m)
  ]

  pub delete_missing : (k : String) (m : Map V) → lookup k m ≡ none → delete k m ≡ m
  unfolding lookup delete
  delete_missing k [] h = refl
  delete_missing k (e ∷ m) h = elim (Bool-cases (str_eq e.0 k)) [
    | inl own ↦ ground (arith, own)
    | inr other ↦ rw other (ap (◌∷◌ e) (delete_missing k m (rw (other, lookup) at h)))
  ]

  pub length-delete :
      (k : String) (v : V) (m : Map V)
      → Keyed m
      → lookup k m ≡ some v
      → length (delete k m) + 1 ≡ length m
  unfolding lookup delete
  length-delete k v [] c h = cc
  length-delete k v (e ∷ m) c h = elim (Bool-cases (str_eq e.0 k)) [
    | inl own ↦
        let same : e.0 ≡ k = (eq_iff e.0 k).0 own in
        rw (own, delete_missing k m (rw same at c.0)) (omega arith)
    | inr other ↦
        let rest = length-delete k v m c.1 (rw (other, lookup) at h) in rw other (omega arith)
  ]

  pub insert-Keyed : (k : String) (v : V) (m : Map V) → Keyed m → Keyed (insert k v m)
  unfolding lookup insert
  insert-Keyed k v [] c = (refl, tt)
  insert-Keyed k v (e ∷ m) c = elim (Bool-cases (str_eq e.0 k)) [
    | inl own ↦ let same : e.0 ≡ k = (eq_iff e.0 k).0 own in rw own (rw same at c.0, c.1)
    | inr other ↦ rw other (
      ground (arith, lookup-insert k e.0 v m, c.0, eq_iff k e.0, eq_iff e.0 k),
      insert-Keyed k v m c.1,
    )
  ]

  pub delete-Keyed : (k : String) (m : Map V) → Keyed m → Keyed (delete k m)
  unfolding lookup delete
  delete-Keyed k [] c = tt
  delete-Keyed k (e ∷ m) c = elim (Bool-cases (str_eq e.0 k)) [
    | inl own ↦ rw own (delete-Keyed k m c.1)
    | inr other ↦ rw other (ground (arith, lookup-delete k e.0 m, c.0), delete-Keyed k m c.1)
  ]

-- No name has two entries, and the models loaded are the models unloaded and those that are there.
pub record Balanced (mr : ModelRegistry) : Type 0 where
  pub keyed : Keyed mr.local_models
  pub loads : mr.total_loads ≡ mr.total_unloads + length mr.local_models

stored-Balanced :
    (mr : ModelRegistry) (info : LoadedModelInfo) → Balanced mr → Balanced (stored mr info)
stored-Balanced mr info b = record {
  keyed = insert-Keyed info.name info mr.local_models b.keyed;
  loads = counted;
}
  where
    counted :
        (stored mr info).total_loads
        ≡ mr.total_unloads + length (insert info.name info mr.local_models)
    counted = rw length-insert (elim (Option-cases (lookup info.name mr.local_models)) [
      | inl e ↦ rw (e, stored) (omega (arith, b.loads))
      | inr (old, e) ↦ rw (e, stored) b.loads
    ])

-- The parts of the registry that the balance speaks of are the same.
record Same (mr mr' : ModelRegistry) : Type 0 where
  models : mr'.local_models ≡ mr.local_models
  ins : mr'.total_loads ≡ mr.total_loads
  outs : mr'.total_unloads ≡ mr.total_unloads

Same-Balanced : (mr mr' : ModelRegistry) → Same mr mr' → Balanced mr → Balanced mr'
Same-Balanced mr mr' s b = record {
  keyed = rw (s.models) b.keyed;
  loads = rw (s.models, s.ins, s.outs) b.loads;
}

group-Same : (mr : ModelRegistry) (key model : String) → Same mr (add_to_family_group mr key model)
unfolding add_to_family_group
group-Same mr key model = record { models = ground arith; ins = ground arith; outs = ground arith }

register-Balanced :
    (mr : ModelRegistry) (info : LoadedModelInfo) → Balanced mr → Balanced (register_info mr info)
unfolding register_info
register-Balanced mr info b = elim (Bool-cases (str_eq info.family "")) [
  | inl e ↦ rw e (stored-Balanced mr info b)
  | inr e ↦ rw e (
      Same-Balanced (stored mr info) _
        (group-Same (stored mr info) (family_key info.family info.size_bytes) info.name)
        (stored-Balanced mr info b))
]

unregister-Balanced :
    (mr : ModelRegistry) (name : String) → Balanced mr → Balanced (unregister_local_model mr name)
unfolding unregister_local_model
unregister-Balanced mr name b = elim (Option-cases (lookup name mr.local_models)) [
  | inl e ↦ rw (e, unregister_local_model) b
  | inr (info, e) ↦
      rw (e, unregister_local_model)
        (record {
          keyed = delete-Keyed name mr.local_models b.keyed;
          loads = omega (arith, b.loads, length-delete name info mr.local_models b.keyed e);
        })
]

update-Balanced :
    (f : LoadedModelInfo → LoadedModelInfo) (mr : ModelRegistry) (name : String) (is_local : Bool)
    (node : String)
    → Balanced mr
    → Balanced (update_model f mr name is_local node)
update-Balanced f mr name true node b = record { keyed = entry.0; loads = rw (entry.1) b.loads }
  where
    entry :
        Keyed (update_entry f name mr.local_models)
        × (length (update_entry f name mr.local_models) ≡ length mr.local_models)
    entry = elim (Option-cases (lookup name mr.local_models)) [
      | inl e ↦ rw (e, update_entry) (b.keyed, refl)
      | inr (info, e) ↦
          rw (e, update_entry, length-insert, e)
            (insert-Keyed name (f info) mr.local_models b.keyed, refl)
    ]
update-Balanced f mr name false node b = elim (Option-cases (lookup node mr.peer_models)) [
  | inl e ↦ rw (e, update_model) b
  | inr (models, e) ↦ rw (e, update_model) (record { keyed = b.keyed; loads = b.loads })
]

pub data Call : Type 0 where
  loads_model : String → String → String → String → ℤ → ℤ → ℕ → Call
  unloads_model : String → Call
  uses_model : String → Bool → String → ℕ → Call
  releases_model : String → Bool → String → Call
  peer_reports : String → List LoadedModelInfo → Call
  peer_leaves : String → Call

unfoldable pub perform : ModelRegistry → Call → ModelRegistry
perform mr (loads_model server name provider endpoint size context now) =
    register_local_model server mr name provider endpoint size context now
perform mr (unloads_model name) = unregister_local_model mr name
perform mr (uses_model name is_local node now) = mark_model_used mr name is_local node now
perform mr (releases_model name is_local node) = decrement_ref_count mr name is_local node
perform mr (peer_reports node infos) = register_peer_models mr node infos
perform mr (peer_leaves node) = remove_peer_models mr node

unfoldable pub perform_all : ModelRegistry → List Call → ModelRegistry
perform_all mr [] = mr
perform_all mr (c ∷ cs) = perform_all (perform mr c) cs

perform-Balanced : (mr : ModelRegistry) (c : Call) → Balanced mr → Balanced (perform mr c)
unfolding perform register_local_model mark_model_used decrement_ref_count register_peer_models
    remove_peer_models
perform-Balanced mr (loads_model server name provider endpoint size context now) b =
    register-Balanced mr (loaded_info server name provider endpoint size context now) b
perform-Balanced mr (unloads_model name) b = unregister-Balanced mr name b
perform-Balanced mr (uses_model name is_local node now) b =
    update-Balanced (used now) mr name is_local node b
perform-Balanced mr (releases_model name is_local node) b =
    update-Balanced released mr name is_local node b
perform-Balanced mr (peer_reports node infos) b = record { keyed = b.keyed; loads = b.loads }
perform-Balanced mr (peer_leaves node) b = record { keyed = b.keyed; loads = b.loads }

perform_all-Balanced :
    (mr : ModelRegistry) (cs : List Call) → Balanced mr → Balanced (perform_all mr cs)
unfolding perform_all
perform_all-Balanced mr [] b = b
perform_all-Balanced mr (c ∷ cs) b =
    perform_all-Balanced (perform mr c) cs (perform-Balanced mr c b)

-- After any calls of a new registry, no local model has two entries, and the models that the
-- registry counted as loaded are those it counted as unloaded and those that it holds.
pub loads-Balanced : (cs : List Call) → Balanced (perform_all new_model_registry cs)
unfolding new_model_registry
loads-Balanced cs = perform_all-Balanced new_model_registry cs (record { keyed = tt; loads = refl })

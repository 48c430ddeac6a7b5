-- ===== src/ModelRegistry.antt =====
-- hive-server-go/model_registry.go: which models are loaded, here and on the peers. The maps hold
-- pointers that only the registry writes through; they are modelled as values. Counters are taken as
-- not negative, and the server's id is an argument.
pub mod Loads
mod Examples
use Prim.Native.Char.{code}
use Prim.Native.String
use text.Mathlib.Text.{starts_with}
use ollama_local_hives_clust.Prelude.{
  ℕ, ◌+◌, ◌-◌, ◌^◌, String, Bool, true, false, not, ◌&&◌, ◌||◌, Option, none, some, List, [], ◌∷◌,
  ◌++◌, map, ltb, leb, ◌==◌, if◌then◌else◌, length, Map, lookup, insert, delete, str_eq, ℤ, pos,
  ltb_ℤ,
}

pub data ModelLoadState : Type 0 where
  loaded loading unloading not_loaded load_failed : ModelLoadState

abbrev pub is_loaded : ModelLoadState → Bool
is_loaded loaded = true
is_loaded _ = false

pub record LoadedModelInfo : Type 0 where
  pub name : String
  pub provider : String
  pub node_id : String
  pub endpoint : String
  pub state : ModelLoadState
  pub loaded_at : ℕ
  pub last_used : ℕ
  pub ref_count : ℕ
  pub size_bytes : ℤ
  pub context_len : ℤ
  pub family : String
  pub quantization : String

pub record ModelRegistry : Type 0 where
  pub local_models : Map LoadedModelInfo
  pub peer_models : Map (Map LoadedModelInfo)
  pub model_family_groups : Map (List String)
  pub total_loads : ℕ
  pub total_unloads : ℕ
  pub load_failures : ℕ

unfoldable pub new_model_registry : ModelRegistry
new_model_registry = record {
  local_models = [];
  peer_models = [];
  model_family_groups = [];
  total_loads = 0;
  total_unloads = 0;
  load_failures = 0;
}

abbrev pub families : List String
families =
    "llama3.2" ∷ "llama3.1" ∷ "llama3" ∷ "llama2" ∷ "qwen2.5" ∷ "qwen2" ∷ "qwen1.5" ∷ "qwen"
    ∷ "gemma2" ∷ "gemma" ∷ "mistral" ∷ "mixtral" ∷ "phi3" ∷ "phi2" ∷ "codellama" ∷ "codeqwen" ∷ []

-- The first of the texts that passes the test.
unfoldable pub first_text : (String → Bool) → List String → Option String
first_text f [] = none
first_text f (t ∷ ts) = let rest = first_text f ts in if f t then some t else rest

-- name[:i] at the first ':' or '-', or the whole name
unfoldable pub before_mark : String → String
before_mark String.[] = String.[]
before_mark (String.◌∷◌ c s) =
    let rest = before_mark s in
    if code c == b':' || code c == b'-' then String.[] else String.◌∷◌ c rest

unfoldable pub extract_model_family : String → String
unfolding first_text before_mark
extract_model_family name = elim (first_text (λ f. starts_with name f) families) [
  | none ↦ before_mark name
  | some f ↦ f
]

unfoldable pub contains : String → String → Bool
contains String.[] sub = starts_with String.[] sub
contains (String.◌∷◌ c s) sub = starts_with (String.◌∷◌ c s) sub || contains s sub

abbrev pub quant_patterns : List String
quant_patterns = "q4_k_m" ∷ "q4_0" ∷ "q5_k_m" ∷ "q5_0" ∷ "q8_0" ∷ "fp16" ∷ "fp8" ∷ "bf16" ∷ []

unfoldable pub extract_quantization : String → String
unfolding first_text contains
extract_quantization name = elim (first_text (contains name) quant_patterns) [
  | none ↦ ""
  | some q ↦ q
]

unfoldable pub format_size : ℤ → String
format_size bytes =
    if ltb_ℤ bytes (pos (2 ^ 30))
    then (if ltb_ℤ bytes (pos (2 ^ 20)) then "small" else "medium")
    else "large"

abbrev pub member : String → List String → Bool
member t [] = false
member t (s ∷ ss) = str_eq s t || member t ss

unfoldable pub add_to_family_group : ModelRegistry → String → String → ModelRegistry
add_to_family_group mr group_key model = elim (lookup group_key mr.model_family_groups) [
  | none ↦ record mr { model_family_groups = insert group_key (model ∷ []) mr.model_family_groups }
  | some group ↦ if member model group then mr else record mr {
    model_family_groups = insert group_key (group ++ model ∷ []) mr.model_family_groups;
  }
]

abbrev pub family_key : String → ℤ → String
unfolding format_size
family_key family size =
    if ltb_ℤ (pos 0) size then String.◌++◌ family (String.◌++◌ ":" (format_size size)) else family

-- if _, exists := mr.localModels[name]; !exists { mr.totalLoads++ }; mr.localModels[name] = info
abbrev pub stored : ModelRegistry → LoadedModelInfo → ModelRegistry
stored mr info = record mr {
  total_loads = elim (lookup info.name mr.local_models) [
    | none ↦ mr.total_loads + 1
    | some _ ↦ mr.total_loads
  ];
  local_models = insert info.name info mr.local_models;
}

abbrev pub loaded_info : String → String → String → String → ℤ → ℤ → ℕ → LoadedModelInfo
unfolding extract_model_family extract_quantization
loaded_info server name provider endpoint size context now = record {
  name = name;
  provider = provider;
  node_id = server;
  endpoint = endpoint;
  state = loaded;
  loaded_at = now;
  last_used = now;
  ref_count = 0;
  size_bytes = size;
  context_len = context;
  family = extract_model_family name;
  quantization = extract_quantization name;
}

-- The writes of `RegisterLocalModel`, with the entry that it makes.
unfoldable pub register_info : ModelRegistry → LoadedModelInfo → ModelRegistry
unfolding add_to_family_group
register_info mr info =
    if str_eq info.family ""
    then stored mr info
    else add_to_family_group (stored mr info) (family_key info.family info.size_bytes) info.name

unfoldable pub register_local_model :
    String → ModelRegistry → String → String → String → ℤ → ℤ → ℕ → ModelRegistry
unfolding register_info
register_local_model server mr name provider endpoint size context now =
    register_info mr (loaded_info server name provider endpoint size context now)

unfoldable pub unregister_local_model : ModelRegistry → String → ModelRegistry
unregister_local_model mr name = elim (lookup name mr.local_models) [
  | none ↦ mr
  | some _ ↦ record mr {
    total_unloads = mr.total_unloads + 1;
    local_models = delete name mr.local_models;
  }
]

-- A write to the entry of a name, if there is one.
abbrev pub update_entry :
    (LoadedModelInfo → LoadedModelInfo) → String → Map LoadedModelInfo → Map LoadedModelInfo
update_entry f name m = elim (lookup name m) [ none ↦ m | some info ↦ insert name (f info) m ]

abbrev pub update_model :
    (LoadedModelInfo → LoadedModelInfo) → ModelRegistry → String → Bool → String → ModelRegistry
update_model f mr name is_local node =
    if is_local
    then record mr { local_models = update_entry f name mr.local_models }
    else elim (lookup node mr.peer_models) [
      | none ↦ mr
      | some models ↦ record mr {
        peer_models = insert node (update_entry f name models) mr.peer_models;
      }
    ]

abbrev pub used : ℕ → LoadedModelInfo → LoadedModelInfo
used now info = record info { last_used = now; ref_count = info.ref_count + 1 }

abbrev pub released : LoadedModelInfo → LoadedModelInfo
released info =
    if ltb 0 info.ref_count then record info { ref_count = info.ref_count - 1 } else info

unfoldable pub mark_model_used : ModelRegistry → String → Bool → String → ℕ → ModelRegistry
mark_model_used mr name is_local node now = update_model (used now) mr name is_local node

unfoldable pub decrement_ref_count : ModelRegistry → String → Bool → String → ModelRegistry
decrement_ref_count mr name is_local node = update_model released mr name is_local node

abbrev pub if_loaded : Option LoadedModelInfo → Option LoadedModelInfo
if_loaded none = none
if_loaded (some info) = if is_loaded info.state then some info else none

unfoldable pub get_local_model : ModelRegistry → String → Option LoadedModelInfo
get_local_model mr name = if_loaded (lookup name mr.local_models)

unfoldable pub is_loaded_locally : ModelRegistry → String → Bool
is_loaded_locally mr name = elim (lookup name mr.local_models) [
  | none ↦ false
  | some info ↦ is_loaded info.state
]

-- The comparison in the loop of `FindCompatibleLocalModel`.
abbrev pub better : Option LoadedModelInfo → LoadedModelInfo → LoadedModelInfo
better none info = info
better (some best) info =
    if not (str_eq info.quantization "") && str_eq best.quantization ""
    then info
    else if ltb best.last_used info.last_used
    then info
    else best

unfoldable pub best_match :
    String → Map LoadedModelInfo → Option LoadedModelInfo → Option LoadedModelInfo
best_match family [] best = best
best_match family (e ∷ m) best =
    best_match family m
      (if is_loaded e.1.state && str_eq e.1.family family then some (better best e.1) else best)

unfoldable pub find_compatible_local_model : ModelRegistry → String → Option LoadedModelInfo
unfolding extract_model_family best_match
find_compatible_local_model mr requested =
    if str_eq (extract_model_family requested) ""
    then none
    else best_match (extract_model_family requested) mr.local_models none

abbrev pub insert_all : List LoadedModelInfo → Map LoadedModelInfo → Map LoadedModelInfo
insert_all [] m = m
insert_all (info ∷ infos) m = insert_all infos (insert info.name info m)

unfoldable pub register_peer_models : ModelRegistry → String → List LoadedModelInfo → ModelRegistry
register_peer_models mr node infos = record mr {
  peer_models =
      insert node (insert_all infos (elim (lookup node mr.peer_models) [ none ↦ [] | some m ↦ m ]))
        mr.peer_models;
}

unfoldable pub remove_peer_models : ModelRegistry → String → ModelRegistry
remove_peer_models mr node = record mr { peer_models = delete node mr.peer_models }

unfoldable pub first_peer : String → Map (Map LoadedModelInfo) → Option (String × LoadedModelInfo)
first_peer model [] = none
first_peer model (e ∷ peers) =
    let rest = first_peer model peers in
    elim (if_loaded (lookup model e.1)) [ none ↦ rest | some info ↦ some (e.0, info) ]

unfoldable pub find_peer_with_loaded_model :
    ModelRegistry → String → Option (String × LoadedModelInfo)
unfolding first_peer
find_peer_with_loaded_model mr model = first_peer model mr.peer_models

-- The first loaded model of the family in one peer's map, and over all peers
unfoldable pub first_of_family : String → Map LoadedModelInfo → Option LoadedModelInfo
first_of_family family [] = none
first_of_family family (e ∷ m) =
    let rest = first_of_family family m in
    if is_loaded e.1.state && str_eq e.1.family family then some e.1 else rest

unfoldable pub first_compatible :
    String → Map (Map LoadedModelInfo) → Option (String × LoadedModelInfo)
first_compatible family [] = none
first_compatible family (e ∷ peers) =
    let rest = first_compatible family peers in
    elim (first_of_family family e.1) [ none ↦ rest | some info ↦ some (e.0, info) ]

unfoldable pub find_peer_with_compatible_model :
    ModelRegistry → String → Option (String × LoadedModelInfo)
unfolding extract_model_family first_compatible first_of_family
find_peer_with_compatible_model mr requested =
    if str_eq (extract_model_family requested) ""
    then none
    else first_compatible (extract_model_family requested) mr.peer_models

unfoldable pub loaded_count : Map LoadedModelInfo → ℕ
loaded_count [] = 0
loaded_count (e ∷ m) = let rest = loaded_count m in if is_loaded e.1.state then rest + 1 else rest

unfoldable pub tracked_count : Map (Map LoadedModelInfo) → ℕ
tracked_count [] = 0
tracked_count (e ∷ peers) = length e.1 + tracked_count peers

pub record RegistryStats : Type 0 where
  pub local_models_loaded : ℕ
  pub peer_models_tracked : ℕ
  pub loads : ℕ
  pub unloads : ℕ
  pub failures : ℕ
  pub family_groups : ℕ

unfoldable pub get_stats : ModelRegistry → RegistryStats
unfolding loaded_count tracked_count
get_stats mr = record {
  local_models_loaded = loaded_count mr.local_models;
  peer_models_tracked = tracked_count mr.peer_models;
  loads = mr.total_loads;
  unloads = mr.total_unloads;
  failures = mr.load_failures;
  family_groups = length mr.model_family_groups;
}

unfoldable pub get_all_local_models : ModelRegistry → List LoadedModelInfo
get_all_local_models mr = map (λ e. e.1) mr.local_models

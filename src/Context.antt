-- ===== src/Context.antt =====
-- hive-server-go/model_context.go: the context window of a model and the token budget that follows
-- from it. strings.ToLower, the answer of Ollama's /api/show and the scaling by 0.80 in floating
-- point are arguments. The cache holds pointers that nobody writes through; it is modelled as values.
pub mod Tables
pub mod Budget
pub mod Detection
use ollama_local_hives_clust.Prelude.{
  ℕ, String, Option, none, some, List, [], ◌∷◌, leb, not, if◌then◌else◌, Map, lookup, insert,
  str_eq, ℤ, pos, ltb_ℤ, map,
}
use ollama_local_hives_clust.ModelRegistry.{contains}
use Tables.{known_context_windows, context_patterns}

pub record ModelContextWindow : Type 0 where
  pub model : String
  pub context_length : ℤ
  pub source : String

pub record ModelContextDetector : Type 0 where
  pub cache : Map ModelContextWindow
  pub ollama_url : String

unfoldable pub new_model_context_detector : String → ModelContextDetector
new_model_context_detector url = record { cache = []; ollama_url = url }

-- What json.Decode reads of the answer, 0 for a field that is not there.
pub record ShowResult : Type 0 where
  pub model_info_context_length : ℤ
  pub num_ctx : ℤ

-- The outcome of the POST to /api/show: no answer, or a status with a body that is decoded or not.
pub data ShowReply : Type 0 where
  post_failed : ShowReply
  answered : ℕ → Option ShowResult → ShowReply

unfoldable pub context_length_of : ShowResult → ℤ
context_length_of r =
    if ltb_ℤ (pos 0) r.model_info_context_length then r.model_info_context_length else r.num_ctx

unfoldable pub query_ollama_show :
    String → (String → ShowReply) → String → Option ModelContextWindow
unfolding context_length_of
query_ollama_show url post name = if str_eq url "" then none else elim (post name) [
  | post_failed ↦ none
  | answered status body ↦ if leb 400 status then none else elim body [
    | none ↦ none
    | some r ↦
        if ltb_ℤ (pos 0) (context_length_of r)
        then some (record { model = name; context_length = context_length_of r; source = "api" })
        else none
  ]
]

unfoldable pub first_pattern : String → List (String × ℕ) → Option ℕ
first_pattern lower [] = none
first_pattern lower (p ∷ ps) =
    let rest = first_pattern lower ps in if contains lower p.0 then some p.1 else rest

abbrev pub default_token_budget : ℕ
default_token_budget = 32000

abbrev pub min_token_budget : ℕ
min_token_budget = 4096

abbrev pub max_token_budget : ℕ
max_token_budget = 200000

abbrev pub or_unknown : String → String
or_unknown name = if str_eq name "" then "unknown" else name

unfoldable pub clamp : ℤ → ℤ
clamp budget =
    if ltb_ℤ budget (pos min_token_budget)
    then pos min_token_budget
    else if ltb_ℤ (pos max_token_budget) budget
    then pos max_token_budget
    else budget

module _ (to_lower : String → String) where
  -- The three steps after the cache and the server: registry, pattern, default.
  unfoldable pub fallback : String → ModelContextWindow
  unfolding first_pattern
  fallback name = elim (lookup name known_context_windows) [
    | some tokens ↦ record { model = name; context_length = pos tokens; source = "registry" }
    | none ↦ elim (first_pattern (to_lower name) context_patterns) [
      | some tokens ↦ record { model = name; context_length = pos tokens; source = "pattern" }
      | none ↦ record {
        model = name;
        context_length = pos default_token_budget;
        source = "default";
      }
    ]
  ]

  -- What is detected when the cache has nothing.
  unfoldable pub detect_anew : String → (String → ShowReply) → String → ModelContextWindow
  unfolding query_ollama_show fallback
  detect_anew url post name = elim (query_ollama_show url post name) [
    | some found ↦ found
    | none ↦ fallback name
  ]

  unfoldable pub detect_context_window :
      (String → ShowReply)
      → String
      → ModelContextDetector
      → ModelContextWindow × ModelContextDetector
  unfolding detect_anew
  detect_context_window post name d =
      let asked = or_unknown name in
      elim (lookup asked d.cache) [
        | some cached ↦ (cached, d)
        | none ↦
            let w = detect_anew d.ollama_url post asked in
            (w, record d { cache = insert asked w d.cache })
      ]

  module _ (eighty_percent : ℤ → ℤ) where
    unfoldable pub get_context_budget_for_model :
        (String → ShowReply) → String → ℤ → ModelContextDetector → ℤ × ModelContextDetector
    unfolding clamp detect_context_window
    get_context_budget_for_model post name explicit d =
        if ltb_ℤ (pos 0) explicit
        then (clamp explicit, d)
        else let r = detect_context_window post name d in
          (clamp (eighty_percent r.0.context_length), r.1)

-- The order of the map's entries is not fixed in Go.
unfoldable pub get_all_known_models : List ModelContextWindow
get_all_known_models =
    map (λ e. record { model = e.0; context_length = pos e.1; source = "registry" })
      known_context_windows

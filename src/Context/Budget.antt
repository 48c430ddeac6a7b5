-- ===== src/Context/Budget.antt =====
-- The bounds of the token budget of hive-server-go/model_context.go, whatever is detected.
use ollama_local_hives_clust.Prelude.{String, Bool-cases, ℤ, pos, ◌≤ℤ◌, ltb_ℤ, inl, inr, arith}
use ollama_local_hives_clust.Context.{
  ModelContextDetector, ShowReply, clamp, detect_context_window, get_context_budget_for_model,
  min_token_budget, max_token_budget,
}

abbrev pub InRange : ℤ → Type 0
InRange b = (pos min_token_budget ≤ℤ b) × (b ≤ℤ pos max_token_budget)

clamp-InRange : (b : ℤ) → InRange (clamp b)
unfolding clamp
clamp-InRange b = (ground arith, ground arith)

module _ (to_lower : String → String) (eighty_percent : ℤ → ℤ) where
  -- The token budget lies within 4096 and 200000, for every model, every explicit budget, every answer
  -- of the server and every way of scaling the context window.
  pub get_context_budget_for_model-InRange :
      (post : String → ShowReply) (name : String) (explicit : ℤ) (d : ModelContextDetector)
      → InRange (get_context_budget_for_model to_lower eighty_percent post name explicit d).0
  unfolding get_context_budget_for_model
  get_context_budget_for_model-InRange post name explicit d =
      elim (Bool-cases (ltb_ℤ (pos 0) explicit)) [
        | inl e ↦ rw (e) (clamp-InRange explicit)
        | inr e ↦ rw (e) (
            clamp-InRange
              (eighty_percent (detect_context_window to_lower post name d).0.context_length))
      ]

-- ===== src/Context/Detection.antt =====
-- What the detector of hive-server-go/model_context.go keeps between two detections.
use ollama_local_hives_clust.Prelude.{
  if◌then◌else◌, ℕ, String, Bool, Option-cases, true, false, ◌≡◌, refl, none, some, [], ◌∷◌, ◌<◌,
  ltb, pos, ◌<ℤ◌, Map, lookup, lookup-insert, insert, eq_refl, inl, inr, arith,
}
use ollama_local_hives_clust.Context.{
  ModelContextWindow, ModelContextDetector, ShowReply, query_ollama_show, first_pattern, fallback,
  detect_anew, detect_context_window, or_unknown,
}
use ollama_local_hives_clust.Context.Tables.{known_context_windows, context_patterns}

-- A window that is usable: its length is over 0.
abbrev pub Usable : ModelContextWindow → Type 0
Usable w = pos 0 <ℤ w.context_length

abbrev pub UsableCache : ModelContextDetector → Type 0
UsableCache d = (name : String) (w : ModelContextWindow) → lookup name d.cache ≡ some w → Usable w

abbrev all_positive : Map ℕ → Bool
all_positive [] = true
all_positive (e ∷ es) = if ltb 0 e.1 then all_positive es else false

lookup-positive :
    (name : String) (m : Map ℕ) (n : ℕ) → all_positive m ≡ true → lookup name m ≡ some n → 0 < n
unfolding lookup
lookup-positive name [] n h e = ground arith
lookup-positive name (x ∷ xs) n h e = ground (arith, lookup-positive name xs n)

first_pattern-positive :
    (name : String) (m : Map ℕ) (n : ℕ)
    → all_positive m ≡ true
    → first_pattern name m ≡ some n
    → 0 < n
unfolding first_pattern
first_pattern-positive name [] n h e = ground arith
first_pattern-positive name (x ∷ xs) n h e = ground (arith, first_pattern-positive name xs n)

query_ollama_show-Usable :
    (url : String) (post : String → ShowReply) (name : String) (w : ModelContextWindow)
    → query_ollama_show url post name ≡ some w
    → Usable w
unfolding query_ollama_show
query_ollama_show-Usable url post name w e = ground arith

known_positive : all_positive known_context_windows ≡ true
known_positive = refl

patterns_positive : all_positive context_patterns ≡ true
patterns_positive = refl

module _ (to_lower : String → String) where
  fallback-Usable : (name : String) → Usable (fallback to_lower name)
  unfolding fallback
  fallback-Usable name = elim (Option-cases (lookup name known_context_windows)) [
    | inr (n, e) ↦
        rw (e, fallback)
          (ground (arith, lookup-positive name known_context_windows n known_positive e))
    | inl e ↦ elim (Option-cases (first_pattern (to_lower name) context_patterns)) [
      | inr (n, p) ↦
          rw (e, p, fallback)
            (ground (
              arith,
              first_pattern-positive (to_lower name) context_patterns n patterns_positive p,
            ))
      | inl p ↦ rw (e, p, fallback) (ground arith)
    ]
  ]

  detect_context_window-hit :
      (post : String → ShowReply) (name : String) (d : ModelContextDetector)
      (w : ModelContextWindow)
      → lookup (or_unknown name) d.cache ≡ some w
      → detect_context_window to_lower post name d ≡ (w, d)
  unfolding detect_context_window
  detect_context_window-hit post name d w e = rw (e, detect_context_window) refl

  detect_context_window-miss :
      (post : String → ShowReply) (name : String) (d : ModelContextDetector)
      → lookup (or_unknown name) d.cache ≡ none
      → let w = detect_anew to_lower d.ollama_url post (or_unknown name) in
        detect_context_window to_lower post name d
        ≡ (w, record d { cache = insert (or_unknown name) w d.cache })
  unfolding detect_context_window
  detect_context_window-miss post name d e = rw (e, detect_context_window) refl

  -- A model that was asked for once is answered from the cache: whatever the server says by then,
  -- asking again gives the same window and leaves the detector as it is.
  pub detect_context_window-twice :
      (post later : String → ShowReply) (name : String) (d : ModelContextDetector)
      → let r = detect_context_window to_lower post name d in
        detect_context_window to_lower later name r.1 ≡ r
  detect_context_window-twice post later name d =
      elim (Option-cases (lookup (or_unknown name) d.cache)) [
        | inr (w, e) ↦
            rw (detect_context_window-hit post name d w e)
              (detect_context_window-hit later name d w e)
        | inl e ↦ rw (detect_context_window-miss post name d e) (
            detect_context_window-hit later name
              (record d {
                cache =
                    insert (or_unknown name)
                      (detect_anew to_lower d.ollama_url post (or_unknown name)) d.cache;
              })
              (detect_anew to_lower d.ollama_url post (or_unknown name))
              (rw (lookup-insert, eq_refl (or_unknown name)) refl))
      ]

  detect_anew-Usable :
      (url : String) (post : String → ShowReply) (name : String)
      → Usable (detect_anew to_lower url post name)
  unfolding detect_anew
  detect_anew-Usable url post name = elim (Option-cases (query_ollama_show url post name)) [
    | inr (w, e) ↦ rw (e, detect_anew) (query_ollama_show-Usable url post name w e)
    | inl e ↦ rw (e, detect_anew) (fallback-Usable name)
  ]

  insert-UsableCache :
      (name : String) (w : ModelContextWindow) (d : ModelContextDetector)
      → UsableCache d
      → Usable w
      → UsableCache (record d { cache = insert name w d.cache })
  insert-UsableCache name w d h u other v found =
      ground (arith, lookup-insert name other w d.cache, h other v)

  -- Detecting gives a window whose length is over 0, and leaves in the cache only such windows
  -- when the cache had no other: a length of 0 or below that the server reports is not taken.
  pub detect_context_window-UsableCache :
      (post : String → ShowReply) (name : String) (d : ModelContextDetector)
      → UsableCache d
      → let r = detect_context_window to_lower post name d in Usable r.0 × UsableCache r.1
  detect_context_window-UsableCache post name d h =
      elim (Option-cases (lookup (or_unknown name) d.cache)) [
        | inr (w, e) ↦ rw (detect_context_window-hit post name d w e) (h (or_unknown name) w e, h)
        | inl e ↦ rw (detect_context_window-miss post name d e) (
          detect_anew-Usable d.ollama_url post (or_unknown name),
          insert-UsableCache (or_unknown name)
              (detect_anew to_lower d.ollama_url post (or_unknown name)) d h
              (detect_anew-Usable d.ollama_url post (or_unknown name)),
        )
      ]

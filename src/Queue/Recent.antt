-- ===== src/Queue/Recent.antt =====
-- `History` (internal/queue/queue.go) as the list of all requests ever added.
use ollama_local_hives_clust.Prelude.{
  ℕ, ◌+◌, ◌-◌, ◌≡◌, ap, ◌∙◌, min, List, [], ◌∷◌, ◌++◌, arith, if◌then◌else◌, length, take, drop,
  ltb, reverse, append_assoc, append-nil, length-append, length-drop, Bool-cases, inl, inr, ltb→lt,
  ltb→le,
}
use ollama_local_hives_clust.Queue.{Ref, History, new_history, add, recent}
use ollama_local_hives_clust.Prelude.{drop-append_le, drop-drop, take-take}
use ollama_local_hives_clust.Queue.Reversal.{reverse_loop-reverse, reverse-drop}

-- The history after the requests have been added one by one.
pub add_all : History → List Ref → History
add_all hist [] = hist
add_all hist (r ∷ rs) = add_all (add hist r) rs

abbrev last : ℕ → List Ref → List Ref
last n xs = drop (length xs - n) xs

add-last :
    (n : ℕ) (xs : List Ref) (r : Ref)
    → add (record { requests = last n xs; history_size = n }) r
      ≡ record { requests = last n (xs ++ r ∷ []); history_size = n }
unfolding add
add-last n xs r =
    let ys : List Ref = xs ++ r ∷ [] in
    let a : ℕ = length xs - n in
    let kept : ys_from a ≡ drop a xs ++ r ∷ [] = drop-append_le a xs (r ∷ []) (omega arith) in
    let n_ys : length ys ≡ length xs + 1 = length-append xs (r ∷ []) in
    let n_kept : length (drop a ys) ≡ length ys - a = length-drop a ys in
    rw (← kept) (elim (Bool-cases (ltb n (length (drop a ys)))) [
      | inl over ↦
          let lt = ltb→lt n (length (drop a ys)) over in
          let same : a + (length (drop a ys) - n) ≡ length ys - n = omega arith in
          rw (over, drop-drop (length (drop a ys) - n) a ys, same)
      | inr fits ↦
          let same : a ≡ length ys - n = omega (arith, ltb→le n (length (drop a ys)) fits) in
          rw fits (ap (λ t. record { requests = drop t ys; history_size = n }) same)
    ])
  where
    ys_from : ℕ → List Ref
    ys_from t = drop t (xs ++ r ∷ [])

add_all-last :
    (n : ℕ) (xs rs : List Ref)
    → add_all (record { requests = last n xs; history_size = n }) rs
      ≡ record { requests = last n (xs ++ rs); history_size = n }
unfolding add_all
add_all-last n xs [] = rw append-nil
add_all-last n xs (r ∷ rs) =
    ap (λ t. add_all t rs) (add-last n xs r)
    ∙ add_all-last n (xs ++ r ∷ []) rs
    ∙ rw (append_assoc xs (r ∷ []) rs)

recent-take : (hist : History) (limit : ℕ) → recent hist limit ≡ take limit (reverse hist.requests)
unfolding recent
recent-take hist limit =
    let n : ℕ = length hist.requests in
    let start : (if ltb limit n then n - limit else 0) ≡ n - limit = ground arith in
    rw start
      (reverse_loop-reverse (drop (n - limit) hist.requests) ∙ reverse-drop limit hist.requests)

-- After any requests have been added to an empty history, `List` gives the newest ones, newest
-- first: as many as it is asked for, but no more than the history keeps.
recent-add_all :
    (n limit : ℕ) (rs : List Ref)
    → recent (add_all (new_history n) rs) limit ≡ take (min limit n) (reverse rs)
unfolding new_history
recent-add_all n limit rs =
    let none_yet : 0 - n ≡ 0 = omega arith in
    let all : add_all (record { requests = last n []; history_size = n }) rs
        ≡ record { requests = last n rs; history_size = n } =
      add_all-last n [] rs in
    recent-take (add_all (new_history n) rs) limit
    ∙ rw (rw none_yet at all) (rw (reverse-drop n rs) (take-take limit n (reverse rs)))

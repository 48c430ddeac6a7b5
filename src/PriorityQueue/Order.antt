-- ===== src/PriorityQueue/Order.antt =====
-- Which job hive-server-go/priority_queue.go serves next: the first one that is due, else the first.
use ollama_local_hives_clust.Prelude.{
  ℕ, ◌≡◌, inl, inr, refl, ap, sym, ◌∙◌, subst, true, Option, none, some, arith, if◌then◌else◌,
  Bool-cases, Option-cases, List-cases, List, [], ◌∷◌, ◌++◌, eq_refl, append_assoc,
}
use ollama_local_hives_clust.PriorityQueue.{
  Job, JobPriority, PriorityQueue, level, remove, is_urgent, urgent_in, levels, find_urgent_from,
  find_urgent_deadline_job, pop_from, dequeue_round, peek_from, peek,
}

-- All waiting jobs, those of a higher priority first.
abbrev pub jobs_from : PriorityQueue → List JobPriority → List Job
jobs_from pq [] = []
jobs_from pq (l ∷ ls) = level pq l ++ jobs_from pq ls

abbrev pub jobs : PriorityQueue → List Job
jobs pq = jobs_from pq levels

unfoldable pub first_urgent : ℕ → List Job → Option Job
unfolding is_urgent
first_urgent now [] = none
first_urgent now (j ∷ js) =
    let rest = first_urgent now js in if is_urgent now j then some j else rest

abbrev pub head? : List Job → Option Job
head? [] = none
head? (j ∷ js) = some j

abbrev pub or_else : Option Job → Option Job → Option Job
or_else none o = o
or_else (some j) o = some j

abbrev pub job_of : Option (Job × PriorityQueue) → Option Job
job_of none = none
job_of (some (j, pq)) = some j

remove-found :
    (before : List Job) (j : Job) (after : List Job) → (remove j.id (before ++ j ∷ after)).0 ≡ true
unfolding remove
remove-found [] j after = ground (arith, eq_refl j.id)
remove-found (k ∷ before) j after = ground (arith, remove-found before j after)

abbrev found_in : Option (Job × List Job) → Option Job
found_in none = none
found_in (some (j, js)) = some j

urgent_in-first :
    (now : ℕ) (before rest : List Job)
    → found_in (urgent_in now (before ++ rest) rest) ≡ first_urgent now rest
unfolding urgent_in first_urgent
urgent_in-first now before [] = refl
urgent_in-first now before (j ∷ rest) = elim (Bool-cases (is_urgent now j)) [
  | inl due ↦ rw (due, remove-found before j rest) refl
  | inr idle ↦ rw idle (
      subst (λ js. found_in (urgent_in now js rest) ≡ first_urgent now rest)
        (append_assoc before (j ∷ []) rest) (urgent_in-first now (before ++ j ∷ []) rest))
]

first_urgent-append :
    (now : ℕ) (xs ys : List Job)
    → first_urgent now (xs ++ ys) ≡ or_else (first_urgent now xs) (first_urgent now ys)
unfolding first_urgent
first_urgent-append now [] ys = refl
first_urgent-append now (x ∷ xs) ys = ground (arith, first_urgent-append now xs ys)

find_urgent-first :
    (now : ℕ) (pq : PriorityQueue) (ls : List JobPriority)
    → job_of (find_urgent_from now pq ls) ≡ first_urgent now (jobs_from pq ls)
unfolding find_urgent_from first_urgent
find_urgent-first now pq [] = refl
find_urgent-first now pq (l ∷ ls) =
    let here = urgent_in-first now [] (level pq l) in
    elim (Option-cases (urgent_in now (level pq l) (level pq l))) [
      | inl e ↦
          let nothing : first_urgent now (level pq l) ≡ none = sym here ∙ ap found_in e in
          rw (e, find_urgent_from, first_urgent-append, nothing) (find_urgent-first now pq ls)
      | inr ((j, js), e) ↦
          let this : first_urgent now (level pq l) ≡ some j = sym here ∙ ap found_in e in
          rw (e, find_urgent_from, first_urgent-append, this) refl
    ]

pop-head :
    (pq : PriorityQueue) (ls : List JobPriority) → job_of (pop_from pq ls) ≡ head? (jobs_from pq ls)
unfolding pop_from
pop-head pq [] = refl
pop-head pq (l ∷ ls) = elim (List-cases (level pq l)) [
  | inl e ↦ rw (e, pop_from) (pop-head pq ls)
  | inr ((j, js), e) ↦ rw (e, pop_from) refl
]

peek-head : (pq : PriorityQueue) (ls : List JobPriority) → peek_from pq ls ≡ head? (jobs_from pq ls)
unfolding peek_from
peek-head pq [] = refl
peek-head pq (l ∷ ls) = elim (List-cases (level pq l)) [
  | inl e ↦ rw (e, peek_from) (peek-head pq ls)
  | inr ((j, js), e) ↦ rw (e, peek_from) refl
]

-- `Dequeue` serves the first job, in the order of the levels, that is within five seconds of its
-- deadline or past it; if there is none, the first job of the highest level that has one; and it
-- waits only if no job waits.
pub dequeue-next :
    (now : ℕ) (pq : PriorityQueue)
    → (dequeue_round now pq).0 ≡ or_else (first_urgent now (jobs pq)) (head? (jobs pq))
unfolding dequeue_round find_urgent_deadline_job
dequeue-next now pq =
    let due = find_urgent-first now pq levels in
    elim (Option-cases (find_urgent_from now pq levels)) [
      | inr ((j, pq'), e) ↦
          let this : first_urgent now (jobs pq) ≡ some j = sym due ∙ ap job_of e in
          rw (e, dequeue_round, this) refl
      | inl e ↦
          let nothing : first_urgent now (jobs pq) ≡ none = sym due ∙ ap job_of e in
          elim (Option-cases (pop_from pq levels)) [
            | inl f ↦ rw (nothing, sym (pop-head pq levels), e, dequeue_round, f) refl
            | inr ((j, pq'), f) ↦ rw (nothing, sym (pop-head pq levels), e, dequeue_round, f) refl
          ]
    ]

-- `Peek` answers with the job that `Dequeue` would serve.
pub peek-dequeue : (now : ℕ) (pq : PriorityQueue) → (peek now pq).0 ≡ (dequeue_round now pq).0
unfolding peek find_urgent_deadline_job
peek-dequeue now pq =
    let due = find_urgent-first now pq levels in
    elim (Option-cases (find_urgent_from now pq levels)) [
      | inr ((j, pq'), e) ↦
          let this : first_urgent now (jobs pq) ≡ some j = sym due ∙ ap job_of e in
          rw (dequeue-next, e, peek, this) refl
      | inl e ↦
          let nothing : first_urgent now (jobs pq) ≡ none = sym due ∙ ap job_of e in
          rw (dequeue-next, e, peek, nothing) (peek-head pq levels)
    ]

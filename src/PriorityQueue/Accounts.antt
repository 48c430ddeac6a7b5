-- ===== src/PriorityQueue/Accounts.antt =====
-- The numbers of jobs in hive-server-go/priority_queue.go: what comes in, goes out and stays.
use ollama_local_hives_clust.Prelude.{
  ℕ, ◌+◌, ◌≡◌, subst, inl, inr, refl, ap, String, Bool, true, false, Option, none, some, arith,
  if◌then◌else◌, Bool-cases, Option-cases, List-cases, List, [], ◌∷◌, ◌++◌, length, length-append,
}
use ollama_local_hives_clust.PriorityQueue.{
  Job, JobPriority, realtime, high, normal, low, PriorityQueue, new_priority_queue, level,
  set_level, remove, level_for, admitted, enqueue, is_urgent, urgent_in, levels, find_urgent_from,
  find_urgent_deadline_job, pop_from, count_dequeued, dequeue_round, peek, len, cancel_from, cancel,
  close,
}

pub length-remove :
    (id : String) (js : List Job)
    → length (remove id js).1 + (if (remove id js).0 then 1 else 0) ≡ length js
unfolding remove
length-remove id [] = omega arith
length-remove id (j ∷ js) = ground (arith, length-remove id js)

length-urgent_in :
    (now : ℕ) (js rest : List Job) (j : Job) (js' : List Job)
    → urgent_in now js rest ≡ some (j, js')
    → length js' + 1 ≡ length js
unfolding urgent_in
length-urgent_in now js [] j js' e = cc
length-urgent_in now js (k ∷ rest) j js' e = elim (Bool-cases (is_urgent now k)) [
  | inl due ↦ elim (Bool-cases (remove k.id js).0) [
    | inl out ↦ ground (arith, length-remove k.id js)
    | inr kept ↦ length-urgent_in now js rest j js' (ground arith)
  ]
  | inr idle ↦ length-urgent_in now js rest j js' (ground arith)
]

len-set_level :
    (pq : PriorityQueue) (l : JobPriority) (js : List Job)
    → len (set_level pq l js) + length (level pq l) ≡ len pq + length js
unfolding len
len-set_level pq realtime js = omega arith
len-set_level pq high js = omega arith
len-set_level pq normal js = omega arith
len-set_level pq low js = omega arith

-- One job fewer, and the same counters.
record Takes (pq pq' : PriorityQueue) : Type 0 where
  shorter : len pq' + 1 ≡ len pq
  same_in : pq'.enqueued ≡ pq.enqueued
  same_out : pq'.dequeued ≡ pq.dequeued

set_level-Takes :
    (pq : PriorityQueue) (l : JobPriority) (js : List Job)
    → length js + 1 ≡ length (level pq l)
    → Takes pq (set_level pq l js)
set_level-Takes pq l js e = record {
  shorter = omega (arith, len-set_level pq l js);
  same_in = ground arith;
  same_out = ground arith;
}

find_urgent-Takes :
    (now : ℕ) (pq : PriorityQueue) (ls : List JobPriority) (j : Job) (pq' : PriorityQueue)
    → find_urgent_from now pq ls ≡ some (j, pq')
    → Takes pq pq'
unfolding find_urgent_from
find_urgent-Takes now pq [] j pq' e = cc
find_urgent-Takes now pq (l ∷ ls) j pq' e =
    elim (Option-cases (urgent_in now (level pq l) (level pq l))) [
      | inl missing ↦ find_urgent-Takes now pq ls j pq' (rw (missing, find_urgent_from) at e)
      | inr ((k, js), found) ↦
          let same : set_level pq l js ≡ pq' =
            ap (λ o. elim o [ none ↦ pq' | some x ↦ x.1 ]) (rw (found, find_urgent_from) at e) in
          subst (λ q. Takes pq q) same
            (set_level-Takes pq l js (length-urgent_in now (level pq l) (level pq l) k js found))
    ]

pop-Takes :
    (pq : PriorityQueue) (ls : List JobPriority) (j : Job) (pq' : PriorityQueue)
    → pop_from pq ls ≡ some (j, pq')
    → Takes pq pq'
unfolding pop_from
pop-Takes pq [] j pq' e = cc
pop-Takes pq (l ∷ ls) j pq' e = elim (List-cases (level pq l)) [
  | inl empty ↦ pop-Takes pq ls j pq' (rw (empty, pop_from) at e)
  | inr ((k, js), found) ↦
      let same : set_level pq l js ≡ pq' =
        ap (λ o. elim o [ none ↦ pq' | some x ↦ x.1 ]) (rw (found, pop_from) at e) in
      subst (λ q. Takes pq q) same (set_level-Takes pq l js (rw found (omega arith)))
]

-- A call, with what the account needs of its answer: the jobs that left without being dequeued.
pub data Op : Type 0 where
  enqueues : Job → Op
  rounds : ℕ → Op
  peeks : ℕ → Op
  cancels : String → Op
  closes : Op

abbrev pub taken : Option (Job × PriorityQueue) → ℕ
taken none = 0
taken (some _) = 1

unfoldable pub perform : PriorityQueue → Op → ℕ × PriorityQueue
perform pq (enqueues job) = (0, (enqueue pq job).1)
perform pq (rounds now) = (0, (dequeue_round now pq).1)
perform pq (peeks now) = (taken (find_urgent_deadline_job now pq), (peek now pq).1)
perform pq (cancels id) = let (removed, pq') = cancel pq id in (if removed then 1 else 0, pq')
perform pq closes = (0, close pq)

unfoldable pub perform_all : PriorityQueue → List Op → ℕ × PriorityQueue
perform_all pq [] = (0, pq)
perform_all pq (o ∷ os) =
    let (lost, pq') = perform pq o in let (more, pq'') = perform_all pq' os in (lost + more, pq'')

-- Every job that came in went out through `Dequeue`, left otherwise, or waits.
abbrev pub Balanced : ℕ → PriorityQueue → Type 0
Balanced lost pq = pq.enqueued ≡ pq.dequeued + lost + len pq

cancel_from-Takes :
    (id : String) (pq : PriorityQueue) (ls : List JobPriority)
    → (cancel_from id pq ls).0 ≡ true
    → Takes pq (cancel_from id pq ls).1
unfolding cancel_from
cancel_from-Takes id pq [] e = cc
cancel_from-Takes id pq (l ∷ ls) e = elim (Bool-cases (remove id (level pq l)).0) [
  | inl out ↦
      rw (out, cancel_from)
        (set_level-Takes pq l (remove id (level pq l)).1
          (ground (arith, out, length-remove id (level pq l))))
  | inr kept ↦ rw (kept, cancel_from) (cancel_from-Takes id pq ls (rw (kept, cancel_from) at e))
]

cancel_from-missed :
    (id : String) (pq : PriorityQueue) (ls : List JobPriority)
    → (cancel_from id pq ls).0 ≡ false
    → (cancel_from id pq ls).1 ≡ pq
unfolding cancel_from
cancel_from-missed id pq [] e = refl
cancel_from-missed id pq (l ∷ ls) e = elim (Bool-cases (remove id (level pq l)).0) [
  | inl out ↦ ground arith
  | inr kept ↦ rw (kept, cancel_from) (cancel_from-missed id pq ls (rw (kept, cancel_from) at e))
]

pushed-Balanced :
    (lost : ℕ) (pq : PriorityQueue) (l : JobPriority) (js : List Job)
    → length js ≡ length (level pq l) + 1
    → Balanced lost pq
    → Balanced lost (record (set_level pq l js) { enqueued = pq.enqueued + 1 })
unfolding len
pushed-Balanced lost pq realtime js e b = omega arith
pushed-Balanced lost pq high js e b = omega arith
pushed-Balanced lost pq normal js e b = omega arith
pushed-Balanced lost pq low js e b = omega arith

enqueue-Balanced :
    (lost : ℕ) (pq : PriorityQueue) (job : Job)
    → Balanced lost pq
    → Balanced lost (enqueue pq job).1
unfolding enqueue
enqueue-Balanced lost pq job b =
    let l = level_for job in
    let js = level pq l ++ admitted job ∷ [] in
    let size : length js ≡ length (level pq l) + 1 =
      omega (arith, length-append (level pq l) (admitted job ∷ [])) in
    let both : (t : Bool) → Balanced lost (refuse_if t).1 = elim [
      | true ↦ b
      | false ↦ pushed-Balanced lost pq l js size b
    ] in
    both pq.closed
  where
    refuse_if : Bool → Bool × PriorityQueue
    refuse_if t = if t then (false, pq) else (
      true,
      record (set_level pq (level_for job) (level pq (level_for job) ++ admitted job ∷ [])) {
        enqueued = pq.enqueued + 1;
      },
    )

dequeued-Balanced :
    (lost : ℕ) (pq pq' : PriorityQueue)
    → Takes pq pq'
    → Balanced lost pq
    → Balanced lost (count_dequeued pq')
unfolding len
dequeued-Balanced lost pq pq' t b = omega (arith, t.shorter, t.same_in, t.same_out)

lost-Balanced :
    (lost : ℕ) (pq pq' : PriorityQueue) → Takes pq pq' → Balanced lost pq → Balanced (lost + 1) pq'
lost-Balanced lost pq pq' t b = omega (arith, t.shorter, t.same_in, t.same_out)

round-Balanced :
    (lost now : ℕ) (pq : PriorityQueue) → Balanced lost pq → Balanced lost (dequeue_round now pq).1
unfolding dequeue_round find_urgent_deadline_job
round-Balanced lost now pq b = elim (Option-cases (find_urgent_from now pq levels)) [
  | inr ((j, pq'), e) ↦
      rw (e, dequeue_round)
        (dequeued-Balanced lost pq pq' (find_urgent-Takes now pq levels j pq' e) b)
  | inl e ↦ elim (Option-cases (pop_from pq levels)) [
    | inr ((j, pq'), f) ↦
        rw (e, f, dequeue_round) (dequeued-Balanced lost pq pq' (pop-Takes pq levels j pq' f) b)
    | inl f ↦ rw (e, f, dequeue_round) b
  ]
]

perform-Balanced :
    (lost : ℕ) (pq : PriorityQueue) (o : Op)
    → Balanced lost pq
    → let (more, pq') = perform pq o in Balanced (lost + more) pq'
unfolding perform peek cancel find_urgent_deadline_job close len
perform-Balanced lost pq (enqueues job) b = omega (arith, enqueue-Balanced lost pq job b)
perform-Balanced lost pq (rounds now) b = omega (arith, round-Balanced lost now pq b)
perform-Balanced lost pq (peeks now) b = elim (Option-cases (find_urgent_from now pq levels)) [
  | inr ((j, pq'), e) ↦
      rw (e, perform, peek, find_urgent_deadline_job)
        (lost-Balanced lost pq pq' (find_urgent-Takes now pq levels j pq' e) b)
  | inl e ↦ rw (e, perform, peek, find_urgent_deadline_job) (omega arith)
]
perform-Balanced lost pq (cancels id) b = elim (Bool-cases (cancel_from id pq levels).0) [
  | inl out ↦ rw (out, perform) (lost-Balanced lost pq _ (cancel_from-Takes id pq levels out) b)
  | inr missed ↦ rw (missed, perform, cancel_from-missed id pq levels missed) (omega arith)
]
perform-Balanced lost pq closes b = omega arith

perform_all-Balanced :
    (lost : ℕ) (pq : PriorityQueue) (os : List Op)
    → Balanced lost pq
    → let (more, pq') = perform_all pq os in Balanced (lost + more) pq'
unfolding perform_all
perform_all-Balanced lost pq [] b = omega arith
perform_all-Balanced lost pq (o ∷ os) b =
    let (more, pq') = perform pq o in
    omega (arith, perform_all-Balanced (lost + more) pq' os (perform-Balanced lost pq o b))

-- After any calls of a new queue, the number of jobs counted in is that of the jobs counted out,
-- of those that `Cancel` and `Peek` took away, and of those that wait.
pub jobs-Balanced :
    (os : List Op) → let (lost, pq) = perform_all new_priority_queue os in Balanced lost pq
unfolding new_priority_queue len
jobs-Balanced os =
    let start : Balanced 0 new_priority_queue = refl in
    omega (arith, perform_all-Balanced 0 new_priority_queue os start)

-- ===== src/Queue/Contract.antt =====
-- What the queue of internal/queue/queue.go promises its clients: the bound, the order of service,
-- and first come, first served among requests of one priority.
use ollama_local_hives_clust.Prelude.{
  ℕ, ◌+◌, ◌≤◌, ◌<◌, ◌≡◌, refl, ap, String, Bool, true, false, Option, none, some, List, [], ◌∷◌,
  ◌++◌, arith, if◌then◌else◌, length, leb, Bool-cases, inl, inr, ◌∙◌, lt→leb_false, length-append,
  ℤ, eqb_ℤ, ==_iff,
}
use ollama_local_hives_clust.Queue.{
  Heap, Ref, Queue, store, queued, enqueue, dequeue, cancel, new, failed,
}
use ollama_local_hives_clust.Queue.Cancel.{Cancelled, missed, removed, cancel_first}
use ollama_local_hives_clust.Queue.Insertion.{insort, place-insort}
use ollama_local_hives_clust.Queue.Order.{
  Falls, Falls-same, Falls-remove, insort-Falls, SamePriorities, of_class, of_class-insort,
  of_class-same, NoHigher, AgreeOn, Falls-agree,
}

-- Setting the status and the time of arrival changes no priority.
queued-SamePriorities :
    (h : Heap) (r : Ref) (now : ℕ) → SamePriorities (store h r (queued (h r) now)) h
unfolding store
queued-SamePriorities h r now s = ground (arith, ap (λ (t : Ref). (h t).priority), ==_iff r s)

failed-SamePriorities :
    (h : Heap) (r : Ref) → SamePriorities (store h r (record (h r) { status = failed })) h
unfolding store
failed-SamePriorities h r s = ground (arith, ==_iff r s)

insort-same :
    (g h : Heap) (p : ℤ) (r : Ref) (xs : List Ref)
    → SamePriorities g h
    → insort g p r xs ≡ insort h p r xs
unfolding insort
insort-same g h p r [] same = refl
insort-same g h p r (x ∷ xs) same = rw (same x, insort-same g h p r xs same)

-- `Enqueue` refuses a full queue and changes nothing. Otherwise it marks the request pending,
-- stamps it, signals the channel, and inserts it before the first request of a lower priority.
pub enqueue-insort :
    (h : Heap) (q : Queue) (r : Ref) (now : ℕ)
    → enqueue h q r now ≡ (
        if leb q.max_size (length q.items) then (false, h, q) else (
          true,
          store h r (queued (h r) now),
          record q { items = insort h (h r).priority r q.items; notify = true },
        ))
unfolding enqueue
enqueue-insort h q r now =
    let g = store h r (queued (h r) now) in
    let same : SamePriorities g h = queued-SamePriorities h r now in
    rw (place-insort g (h r).priority r q.items, insort-same g h (h r).priority r q.items same)

pub length-insort :
    (h : Heap) (p : ℤ) (r : Ref) (xs : List Ref) → length (insort h p r xs) ≡ length xs + 1
unfolding insort
length-insort h p r [] = omega arith
length-insort h p r (x ∷ xs) = ground (arith, length-insort h p r xs)

-- A queue that was made for `n` requests.
pub record IsValid (n : ℕ) (h : Heap) (q : Queue) : Type 0 where
  pub falls : Falls h q.items
  pub bounded : length q.items ≤ n
  pub sized : q.max_size ≡ n

-- The calls of the queue and, since others hold its requests, any writes to the heap that leave the
-- priorities of the queue's requests as they are.
pub data Step : Heap × Queue → Heap × Queue → Type 0 where
  enqueues :
      {h : Heap} {q : Queue} (r : Ref) (now : ℕ)
      → Step (h, q) ((enqueue h q r now).1, (enqueue h q r now).2)
  dequeues : {h : Heap} {q : Queue} → Step (h, q) (h, (dequeue q).1)
  cancels :
      {h : Heap} {q : Queue} (id : String) → Step (h, q) ((cancel h q id).1, (cancel h q id).2)
  writes : {h g : Heap} {q : Queue} → AgreeOn g h q.items → Step (h, q) (g, q)

pub data Reach (s : Heap × Queue) : Heap × Queue → Type 0 where
  here : Reach s s
  next : {t u : Heap × Queue} → Reach s t → Step t u → Reach s u

enqueue-IsValid :
    (n : ℕ) (h : Heap) (q : Queue) (r : Ref) (now : ℕ)
    → IsValid n h q
    → IsValid n (enqueue h q r now).1 (enqueue h q r now).2
enqueue-IsValid n h q r now v =
    rw (enqueue-insort h q r now) (elim (Bool-cases (leb q.max_size (length q.items))) [
      | inl full ↦ rw full v
      | inr free ↦ rw free (record {
        falls =
            Falls-same (store h r (queued (h r) now)) h (insort h (h r).priority r q.items)
              (queued-SamePriorities h r now) (insort-Falls h r q.items v.falls);
        bounded = ground (arith, length-insort h (h r).priority r q.items);
        sized = v.sized;
      })
    ])

dequeue-IsValid : (n : ℕ) (h : Heap) (q : Queue) → IsValid n h q → IsValid n h (dequeue q).1
unfolding dequeue
dequeue-IsValid n h q v = head q.items v.falls v.bounded
  where
    head :
        (xs : List Ref)
        → Falls h xs
        → length xs ≤ n
        → IsValid n h (dequeue (record q { items = xs })).1
    head [] f b = record { falls = f; bounded = b; sized = v.sized }
    head (x ∷ xs) f b = record { falls = f.1; bounded = omega arith; sized = v.sized }

Cancelled-IsValid :
    {n : ℕ} {h : Heap} {q : Queue} {id : String} {out : Bool × Heap × Queue}
    → Cancelled h q id out
    → IsValid n h q
    → IsValid n out.1 out.2
Cancelled-IsValid (missed _) v = v
Cancelled-IsValid {n} {h} {q} (removed before after r e _ _) v = record {
  falls =
      Falls-same (store h r (record (h r) { status = failed })) h (before ++ after)
        (failed-SamePriorities h r) (Falls-remove h r before after (rw e at v.falls));
  bounded =
      omega (arith, ap length e, length-append before after, length-append before (r ∷ after));
  sized = v.sized;
}

Step-IsValid : {n : ℕ} {s t : Heap × Queue} → Step s t → IsValid n s.0 s.1 → IsValid n t.0 t.1
Step-IsValid (enqueues {h} {q} r now) v = enqueue-IsValid _ h q r now v
Step-IsValid (dequeues {h} {q}) v = dequeue-IsValid _ h q v
Step-IsValid (cancels {h} {q} id) v = Cancelled-IsValid (cancel_first h q id) v
Step-IsValid (writes {h} {g} {q} same) v = record {
  falls = Falls-agree g h q.items same v.falls;
  bounded = v.bounded;
  sized = v.sized;
}

-- Whatever calls follow the creation of a queue for `n` requests, and whatever writes
-- keep the priorities of the requests in it, its requests have falling priorities and are at most `n`.
pub Reach-IsValid : (n : ℕ) (h : Heap) {t : Heap × Queue} → Reach (h, new n) t → IsValid n t.0 t.1
unfolding new
Reach-IsValid n h here = record { falls = tt; bounded = omega arith; sized = refl }
Reach-IsValid n h (next r st) = Step-IsValid st (Reach-IsValid n h r)

-- The abstract queue: for each priority, the waiting requests in the order of their arrival.
abbrev pub view : Heap → Queue → ℤ → List Ref
view h q c = of_class h c q.items

-- In a valid queue with room, `Enqueue` accepts the request; it goes to the end of its own
-- priority's line, the other lines are as before, and the queue has one request more.
pub view-enqueue :
    {n : ℕ} (h : Heap) (q : Queue) (r : Ref) (now : ℕ) (c : ℤ)
    → IsValid n h q
    → length q.items < q.max_size
    → let (accepted, g, q') = enqueue h q r now in
      (accepted ≡ true)
      × (view g q' c ≡ view h q c ++ (if eqb_ℤ (h r).priority c then r ∷ [] else []))
      × (length q'.items ≡ length q.items + 1)
view-enqueue h q r now c v free =
    rw (enqueue-insort h q r now, lt→leb_false (length q.items) q.max_size free)
      (
        refl,
        of_class-same (store h r (queued (h r) now)) h c (insort h (h r).priority r q.items)
              (queued-SamePriorities h r now)
            ∙ of_class-insort h r c q.items v.falls,
        length-insort h (h r).priority r q.items,
      )

-- What `Dequeue` gives back, in terms of the lines.
pub data Served (h : Heap) (q : Queue) : Option Ref × Queue → Type 0 where
  nothing : q.items ≡ [] → Served h q (none, q)
  first :
      (r : Ref) (q' : Queue)
      → ((c : ℤ) → view h q c ≡ (if eqb_ℤ (h r).priority c then r ∷ [] else []) ++ view h q' c)
      → NoHigher h (h r).priority q.items
      → q'.max_size ≡ q.max_size
      → Served h q (some r, q')

Served-head :
    (h : Heap) (xs : List Ref) (m : ℕ) (b : Bool)
    → Falls h xs
    → let q : Queue = record { items = xs; max_size = m; notify = b } in Served h q (dequeue q)
unfolding dequeue of_class
Served-head h [] m b f = nothing refl
Served-head h (x ∷ xs) m b f =
    first x (record { items = xs; max_size = m; notify = b }) (λ c. ground arith) (omega arith, f.0)
      refl

-- In a valid queue, `Dequeue` serves the head of the line of the highest priority that waits: no
-- request in the queue has a higher priority, the request heads its own line, and the other lines
-- are as before. It gives nothing only if the queue is empty.
pub dequeue-Served : {n : ℕ} (h : Heap) (q : Queue) → IsValid n h q → Served h q (dequeue q)
dequeue-Served h q v = Served-head h q.items q.max_size q.notify v.falls

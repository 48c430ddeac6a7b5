-- ===== src/Queue/Examples.antt =====
-- The theorems about internal/queue/queue.go at small queues.
use ollama_local_hives_clust.Prelude.{
  ◌+◌, ◌≡◌, refl, true, none, [], ◌∷◌, ◌++◌, arith, if◌then◌else◌, length, pos, eqb_ℤ,
}
use ollama_local_hives_clust.Queue.{pending, Heap, Queue, new, enqueue, dequeue}
use ollama_local_hives_clust.Queue.Contract.{
  IsValid, here, next, enqueues, Reach-IsValid, view, view-enqueue, Served, dequeue-Served,
}

-- Request `r` is pending, with priority `r`.
abbrev sample_heap : Heap
sample_heap r = record {
  id = "a";
  model = "m";
  priority = pos r;
  status = pending;
  node_id = "";
  created_at = 0;
  started_at = none;
  completed_at = none;
  error = "";
  metadata = "";
}

abbrev sample_queue : Queue
sample_queue = record { items = 7 ∷ 2 ∷ []; max_size = 3; notify = true }

sample_queue-IsValid : IsValid 3 sample_heap sample_queue
sample_queue-IsValid = record {
  falls = ((omega arith, tt), (tt, tt));
  bounded = omega arith;
  sized = refl;
}

Reach-IsValid_example :
    IsValid 2 (enqueue sample_heap (new 2) 5 9).1 (enqueue sample_heap (new 2) 5 9).2
Reach-IsValid_example =
    Reach-IsValid 2 sample_heap
      {t = ((enqueue sample_heap (new 2) 5 9).1, (enqueue sample_heap (new 2) 5 9).2)}
      (next here (enqueues 5 9))

view-enqueue_example :
    let (accepted, g, q') = enqueue sample_heap sample_queue 4 9 in
    (accepted ≡ true)
    × (view g q' (pos 4)
        ≡ view sample_heap sample_queue (pos 4)
          ++ (if eqb_ℤ (sample_heap 4).priority (pos 4) then 4 ∷ [] else []))
    × (length q'.items ≡ length sample_queue.items + 1)
view-enqueue_example =
    view-enqueue sample_heap sample_queue 4 9 (pos 4) sample_queue-IsValid (omega arith)

dequeue-Served_example : Served sample_heap sample_queue (dequeue sample_queue)
dequeue-Served_example = dequeue-Served sample_heap sample_queue sample_queue-IsValid

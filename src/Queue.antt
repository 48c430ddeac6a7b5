-- ===== src/Queue.antt =====
-- internal/queue/queue.go: the bounded priority queue of requests, and the history of requests.
-- A `*Request` is a reference into a heap, since the proxy changes a request's status while the
-- queue and the history hold it. The clock is an argument of the call that reads it.
pub mod Insertion
pub mod Order
pub mod Contract
pub mod Cancel
mod Reversal
pub mod Recent
mod Examples
use ollama_local_hives_clust.Prelude.{
  ℕ, zero, suc, ◌+◌, ◌-◌, min, String, Bool, true, false, ◌&&◌, Option, none, some, List, [], ◌∷◌,
  ◌++◌, ltb, leb, ◌==◌, if◌then◌else◌, str_eq, length, take, drop, set, get_elem?, ℤ, ltb_ℤ,
}

-- `unset` is the zero value "" of a request that was never enqueued.
pub data RequestStatus : Type 0 where
  unset pending running complete failed timeout : RequestStatus

pub record Request : Type 0 where
  pub id : String
  pub model : String
  pub priority : ℤ
  pub status : RequestStatus
  pub node_id : String
  pub created_at : ℕ
  pub started_at : Option ℕ
  pub completed_at : Option ℕ
  pub error : String
  pub metadata : String

-- `*Request`
abbrev pub Ref : Type 0
Ref = ℕ

abbrev pub Heap : Type 0
Heap = Ref → Request

-- `*r = req`
unfoldable pub store : Heap → Ref → Request → Heap
store h r req s = if r == s then req else h s

-- The capacity-1 channel `notify` is full or empty; a send to a full one takes the `default` case.
pub record Queue : Type 0 where
  pub items : List Ref
  pub max_size : ℕ
  pub notify : Bool

unfoldable pub new : ℕ → Queue
new max_size = record { items = []; max_size = max_size; notify = false }

-- The loop that looks for the first item of a lower priority, from index `i` on.
unfoldable pub first_lower : Heap → ℤ → List Ref → ℕ → Option ℕ
first_lower h p [] i = none
first_lower h p (x ∷ xs) i = if ltb_ℤ (h x).priority p then some i else first_lower h p xs (i + 1)

unfoldable pub insert_idx : Heap → ℤ → List Ref → ℕ
insert_idx h p items = elim (first_lower h p items 0) [ none ↦ length items | some i ↦ i ]

-- copy(xs[to:], xs[from:]), whose source and target overlap
unfoldable pub copy_within : List Ref → ℕ → ℕ → List Ref
copy_within xs to from =
    let k = min (length xs - to) (length xs - from) in
    take to xs ++ (take k (drop from xs) ++ drop (to + k) xs)

abbrev pub nil_ref : Ref
nil_ref = 0

-- append(items, nil); copy(items[i+1:], items[i:]); items[i] = r
unfoldable pub place : List Ref → ℕ → Ref → List Ref
unfolding copy_within
place items i r = set (copy_within (items ++ nil_ref ∷ []) (i + 1) i) i r

abbrev pub queued : Request → ℕ → Request
queued req now = record req { status = pending; created_at = now }

unfoldable pub enqueue : Heap → Queue → Ref → ℕ → Bool × Heap × Queue
enqueue h q r now = if leb q.max_size (length q.items) then (false, h, q) else (
  true,
  store h r (queued (h r) now),
  record q {
    items = place q.items (insert_idx (store h r (queued (h r) now)) (h r).priority q.items) r;
    notify = true;
  },
)

unfoldable pub dequeue : Queue → Option Ref × Queue
dequeue q = elim q.items [ [] ↦ (none, q) | r ∷ rest ↦ (some r, record q { items = rest }) ]

unfoldable pub peek : Queue → Option Ref
peek q = elim q.items [ [] ↦ none | r ∷ rest ↦ some r ]

unfoldable pub len : Queue → ℕ
len q = length q.items

-- `List`: a copy of the items
unfoldable pub items_list : Queue → List Ref
items_list q = q.items

abbrev pub is_pending : RequestStatus → Bool
is_pending pending = true
is_pending _ = false

-- The loop of `Cancel`: the index and the reference of the first pending item with the id.
unfoldable pub find_pending : Heap → String → List Ref → ℕ → Option (ℕ × Ref)
find_pending h id [] i = none
find_pending h id (x ∷ xs) i =
    if str_eq (h x).id id && is_pending (h x).status
    then some (i, x)
    else find_pending h id xs (i + 1)

unfoldable pub cancel : Heap → Queue → String → Bool × Heap × Queue
cancel h q id = elim (find_pending h id q.items 0) [
  | none ↦ (false, h, q)
  | some (i, r) ↦ (
    true,
    store h r (record (h r) { status = failed }),
    record q { items = take i q.items ++ drop (i + 1) q.items },
  )
]

pub record Stats : Type 0 where
  pub total : ℕ
  pub n_pending : ℕ
  pub n_running : ℕ
  pub completed : ℕ
  pub n_failed : ℕ

pub record History : Type 0 where
  pub requests : List Ref
  pub history_size : ℕ

unfoldable pub new_history : ℕ → History
new_history max_size = record { requests = []; history_size = max_size }

-- `Add`: append, and keep the last `max_size` entries.
unfoldable pub add : History → Ref → History
add hist r =
    let requests = hist.requests ++ r ∷ [] in
    if ltb hist.history_size (length requests)
    then record hist { requests = drop (length requests - hist.history_size) requests }
    else record hist { requests = requests }

-- result[i], result[j] = result[j], result[i]
unfoldable pub swap : List Ref → ℕ → ℕ → List Ref
swap xs i j = elim (get_elem? xs i) [
  | none ↦ xs
  | some x ↦ elim (get_elem? xs j) [ none ↦ xs | some y ↦ set (set xs i y) j x ]
]

-- for i < j { swap; i++; j-- }; each round takes two from j - i, so `length` rounds suffice
unfoldable pub reverse_loop : ℕ → List Ref → ℕ → ℕ → List Ref
reverse_loop zero xs i j = xs
reverse_loop (suc fuel) xs i j =
    let rest = reverse_loop fuel (swap xs i j) (i + 1) (j - 1) in if ltb i j then rest else xs

-- `List`: the last `limit` entries, newest first
unfoldable pub recent : History → ℕ → List Ref
unfolding reverse_loop swap
recent hist limit =
    let start = if ltb limit (length hist.requests) then length hist.requests - limit else 0 in
    let result = drop start hist.requests in
    reverse_loop (length result) result 0 (length result - 1)

abbrev pub count_status : RequestStatus → Stats → Stats
count_status complete s = record s { completed = s.completed + 1 }
count_status failed s = record s { n_failed = s.n_failed + 1 }
count_status timeout s = record s { n_failed = s.n_failed + 1 }
count_status _ s = s

unfoldable pub count_all : Heap → List Ref → Stats → Stats
count_all h [] s = s
count_all h (x ∷ xs) s = count_all h xs (count_status (h x).status s)

unfoldable pub stats : Heap → History → Stats
stats h hist =
    count_all h hist.requests
      (record { total = 0; n_pending = 0; n_running = 0; completed = 0; n_failed = 0 })

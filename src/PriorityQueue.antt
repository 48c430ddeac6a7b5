-- ===== src/PriorityQueue.antt =====
-- hive-server-go/priority_queue.go: the job queue with four priority levels and deadlines. Of a job
-- it reads the fields below. A time is a number of nanoseconds; the clock is an argument of the call
-- that reads it, one reading for a whole scan. The inner locks of the deques add nothing under the
-- lock of the queue and are left out, as is the capacity hint of a new deque.
pub mod Order
pub mod Accounts
pub mod Deadline
mod Examples
use ollama_local_hives_clust.Prelude.{
  ℕ, ◌+◌, ◌-◌, ◌*◌, ◌^◌, add64, mul64, quot, String, Bool, true, false, ◌&&◌, ◌||◌, Option, none,
  some, List, [], ◌∷◌, ◌++◌, ltb, leb, if◌then◌else◌, length, ℤ, pos, negsuc, ltb_ℤ, str_eq,
}

-- A deadline of `none` is the zero time.
pub record Job : Type 0 where
  pub id : String
  pub job_type : String
  pub priority : ℤ
  pub deadline : Option ℕ

pub data JobPriority : Type 0 where
  realtime high normal low : JobPriority

abbrev pub number : JobPriority → ℤ
number realtime = pos 0
number high = pos 1
number normal = pos 2
number low = pos 3

-- The levels as indices of the array; `none` is out of range.
abbrev pub level_of : ℤ → Option JobPriority
level_of (pos n) =
    if leb 4 n
    then none
    else if leb 3 n
    then some low
    else if leb 2 n
    then some normal
    else if leb 1 n
    then some high
    else some realtime
level_of (negsuc n) = none

-- `queues [4]`, with a field for each level
pub record PriorityQueue : Type 0 where
  pub realtime_jobs : List Job
  pub high_jobs : List Job
  pub normal_jobs : List Job
  pub low_jobs : List Job
  pub closed : Bool
  pub enqueued : ℕ
  pub dequeued : ℕ
  pub dropped : ℕ

unfoldable pub new_priority_queue : PriorityQueue
new_priority_queue = record {
  realtime_jobs = [];
  high_jobs = [];
  normal_jobs = [];
  low_jobs = [];
  closed = false;
  enqueued = 0;
  dequeued = 0;
  dropped = 0;
}

abbrev pub level : PriorityQueue → JobPriority → List Job
level pq realtime = pq.realtime_jobs
level pq high = pq.high_jobs
level pq normal = pq.normal_jobs
level pq low = pq.low_jobs

abbrev pub set_level : PriorityQueue → JobPriority → List Job → PriorityQueue
set_level pq realtime js = record pq { realtime_jobs = js }
set_level pq high js = record pq { high_jobs = js }
set_level pq normal js = record pq { normal_jobs = js }
set_level pq low js = record pq { low_jobs = js }

-- `remove` of a deque: the first job with the id
unfoldable pub remove : String → List Job → Bool × List Job
remove id [] = (false, [])
remove id (j ∷ js) =
    let (found, rest) = remove id js in if str_eq j.id id then (true, js) else (found, j ∷ rest)

-- A priority that is out of range becomes normal.
abbrev pub admitted : Job → Job
admitted job = elim (level_of job.priority) [
  | none ↦ record job { priority = number normal }
  | some l ↦ job
]

abbrev pub level_for : Job → JobPriority
level_for job = elim (level_of job.priority) [ none ↦ normal | some l ↦ l ]

unfoldable pub enqueue : PriorityQueue → Job → Bool × PriorityQueue
enqueue pq job = if pq.closed then (false, pq) else (
  true,
  record (set_level pq (level_for job) (level pq (level_for job) ++ admitted job ∷ [])) {
    enqueued = pq.enqueued + 1;
  },
)

abbrev pub urgency_threshold : ℕ
urgency_threshold = 5000000000

-- timeUntilDeadline <= urgencyThreshold && timeUntilDeadline > 0, or timeUntilDeadline <= 0
unfoldable pub is_urgent : ℕ → Job → Bool
is_urgent now job = elim job.deadline [
  | none ↦ false
  | some d ↦ (leb (d - now) urgency_threshold && ltb now d) || leb d now
]

-- The scan of one deque: `rest` is what is left to look at, `js` the deque.
unfoldable pub urgent_in : ℕ → List Job → List Job → Option (Job × List Job)
unfolding is_urgent remove
urgent_in now js [] = none
urgent_in now js (j ∷ rest) =
    let later = urgent_in now js rest in
    if is_urgent now j
    then (let (removed, js') = remove j.id js in if removed then some (j, js') else later)
    else later

-- The levels from the highest priority on.
abbrev pub levels : List JobPriority
levels = realtime ∷ high ∷ normal ∷ low ∷ []

unfoldable pub find_urgent_from :
    ℕ → PriorityQueue → List JobPriority → Option (Job × PriorityQueue)
unfolding urgent_in
find_urgent_from now pq [] = none
find_urgent_from now pq (l ∷ ls) = elim (urgent_in now (level pq l) (level pq l)) [
  | none ↦ find_urgent_from now pq ls
  | some (j, js) ↦ some (j, set_level pq l js)
]

unfoldable pub find_urgent_deadline_job : ℕ → PriorityQueue → Option (Job × PriorityQueue)
unfolding find_urgent_from
find_urgent_deadline_job now pq = find_urgent_from now pq levels

-- for p := PriorityRealtime; p <= PriorityLow; p++ { popFront }
unfoldable pub pop_from : PriorityQueue → List JobPriority → Option (Job × PriorityQueue)
pop_from pq [] = none
pop_from pq (l ∷ ls) = elim (level pq l) [
  | [] ↦ pop_from pq ls
  | j ∷ js ↦ some (j, set_level pq l js)
]

abbrev pub count_dequeued : PriorityQueue → PriorityQueue
count_dequeued pq = record pq { dequeued = pq.dequeued + 1 }

-- One round of the loop of `Dequeue`; with `none` the caller waits.
unfoldable pub dequeue_round : ℕ → PriorityQueue → Option Job × PriorityQueue
unfolding find_urgent_deadline_job pop_from
dequeue_round now pq = elim (find_urgent_deadline_job now pq) [
  | some (j, pq') ↦ (some j, count_dequeued pq')
  | none ↦ elim (pop_from pq levels) [
    | some (j, pq') ↦ (some j, count_dequeued pq')
    | none ↦ (none, pq)
  ]
]

-- What a waiting `Dequeue` does when it is woken: it returns nil, or takes another round.
pub data Woken : Type 0 where
  returns_nil : Woken
  round : Option Job → Woken

unfoldable pub wake : ℕ → PriorityQueue → Woken × PriorityQueue
unfolding dequeue_round
wake now pq =
    let (job, pq') = dequeue_round now pq in
    if pq.closed then (returns_nil, pq) else (round job, pq')

unfoldable pub peek_from : PriorityQueue → List JobPriority → Option Job
peek_from pq [] = none
peek_from pq (l ∷ ls) = elim (level pq l) [ [] ↦ peek_from pq ls | j ∷ js ↦ some j ]

unfoldable pub peek : ℕ → PriorityQueue → Option Job × PriorityQueue
unfolding find_urgent_deadline_job peek_from
peek now pq = elim (find_urgent_deadline_job now pq) [
  | some (j, pq') ↦ (some j, pq')
  | none ↦ (peek_from pq levels, pq)
]

unfoldable pub len : PriorityQueue → ℕ
len pq = length pq.realtime_jobs + length pq.high_jobs + length pq.normal_jobs + length pq.low_jobs

unfoldable pub len_by_priority : PriorityQueue → ℤ → ℕ
len_by_priority pq p = elim (level_of p) [ none ↦ 0 | some l ↦ length (level pq l) ]

unfoldable pub cancel_from : String → PriorityQueue → List JobPriority → Bool × PriorityQueue
unfolding remove
cancel_from id pq [] = (false, pq)
cancel_from id pq (l ∷ ls) =
    let (removed, js) = remove id (level pq l) in
    let rest = cancel_from id pq ls in if removed then (true, set_level pq l js) else rest

unfoldable pub cancel : PriorityQueue → String → Bool × PriorityQueue
unfolding cancel_from
cancel pq id = cancel_from id pq levels

unfoldable pub close : PriorityQueue → PriorityQueue
close pq = record pq { closed = true }

-- `DetermineJobPriority`
unfoldable pub determine_job_priority : String → Bool → Bool → JobPriority
determine_job_priority job_type stream interactive =
    if stream && interactive
    then realtime
    else if str_eq job_type "chat" || str_eq job_type "chat_stream"
    then (if stream then realtime else high)
    else if str_eq job_type "coding_agent_chat" || str_eq job_type "agent_message"
    then high
    else if str_eq job_type "generate" || str_eq job_type "generate_stream"
    then (if stream then realtime else normal)
    else if str_eq job_type "embed" || str_eq job_type "get_embedding"
    then normal
    else if str_eq job_type "list_models" || str_eq job_type "pull_model"
    then low
    else normal

-- Seconds as a `time.Duration`
abbrev pub seconds : ℕ → ℤ
seconds n = pos (n * 10 ^ 9)

abbrev pub base_timeout : String → ℤ
base_timeout job_type =
    if str_eq job_type "chat" || str_eq job_type "chat_stream"
    then seconds 60
    else if str_eq job_type "coding_agent_chat"
    then seconds 120
    else if str_eq job_type "generate"
    then seconds 90
    else if str_eq job_type "embed"
    then seconds 30
    else seconds 60

-- `CalculateDeadline`, as the duration that it adds to the clock.
unfoldable pub calculate_deadline : String → ℤ → ℤ → ℤ
unfolding add64 mul64
calculate_deadline job_type estimated_tokens max_timeout =
    let total = add64 (base_timeout job_type) (mul64 (quot estimated_tokens 20) (seconds 1)) in
    if ltb_ℤ max_timeout total then max_timeout else total

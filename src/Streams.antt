-- ===== src/Streams.antt =====
-- hive-server-go/stream.go: JobStream, by which clients follow a job. A subscriber is a channel of ten
-- events. The list of a job's subscribers is a Go slice: an array that others may hold too, and a
-- length. Publish reads the slice under the lock and sends without it, so other calls may come between.
pub mod Race
mod Examples
use ollama_local_hives_clust.Prelude.{
  ℕ, zero, suc, ◌+◌, ◌-◌, String, Bool, true, false, Option, none, some, List, [], ◌∷◌, ◌++◌, ltb,
  ◌==◌, if◌then◌else◌, length, get_elem?, set, take, drop, replicate, Map, lookup, insert, delete,
}

pub record JobEvent : Type 0 where
  pub job_id : String
  pub status : String
  pub error : String

pub record Channel : Type 0 where
  pub events : List JobEvent
  pub closed : Bool

pub record Slice : Type 0 where
  pub array : ℕ
  pub len : ℕ

pub record JobStream : Type 0 where
  pub clients : Map Slice
  pub arrays : List (List ℕ)
  pub channels : List Channel

unfoldable pub new_job_stream : JobStream
new_job_stream = record { clients = []; arrays = []; channels = [] }

unfoldable pub array_at : ℕ → JobStream → List ℕ
array_at a js = elim (get_elem? js.arrays a) [ none ↦ [] | some xs ↦ xs ]

-- append(clients, ch): in place if the array has room, else in a new array, whose room beyond the
-- new length is `spare`.
unfoldable pub append_slice : ℕ → Option Slice → ℕ → JobStream → Slice × JobStream
unfolding array_at
append_slice spare none ch js = (
  record { array = length js.arrays; len = 1 },
  record js { arrays = js.arrays ++ (ch ∷ replicate spare 0) ∷ [] },
)
append_slice spare (some s) ch js =
    if ltb s.len (length (array_at s.array js))
    then (
      record s { len = s.len + 1 },
      record js { arrays = set js.arrays s.array (set (array_at s.array js) s.len ch) },
    )
    else (
      record { array = length js.arrays; len = s.len + 1 },
      record js {
        arrays = js.arrays ++ (take s.len (array_at s.array js) ++ ch ∷ replicate spare 0) ∷ [];
      },
    )

unfoldable pub subscribe : ℕ → String → JobStream → ℕ × JobStream
unfolding append_slice
subscribe spare job js =
    let ch = length js.channels in
    let r = append_slice spare (lookup job js.clients) ch js in
    (
      ch,
      record r.1 {
        clients = insert job r.0 js.clients;
        channels = js.channels ++ (record { events = []; closed = false }) ∷ [];
      },
    )

unfoldable pub index_of : ℕ → List ℕ → Option ℕ
index_of ch [] = none
index_of ch (c ∷ cs) =
    if c == ch then some 0 else elim (index_of ch cs) [ none ↦ none | some i ↦ some (i + 1) ]

unfoldable pub close_channel : ℕ → List Channel → List Channel
close_channel ch cs = elim (get_elem? cs ch) [
  | none ↦ cs
  | some c ↦ set cs ch (record c { closed = true })
]

-- append(clients[:i], clients[i+1:]...) moves the later elements down in the same array; the cell
-- behind the new end keeps what it held.
unfoldable pub moved_down : ℕ → ℕ → List ℕ → List ℕ
moved_down i len xs = take i xs ++ drop (i + 1) (take len xs) ++ drop (len - 1) xs

unfoldable pub unsubscribe : String → ℕ → JobStream → JobStream
unsubscribe job ch js = elim (lookup job js.clients) [
  | none ↦ js
  | some s ↦
      let xs = array_at s.array js in
      elim (index_of ch (take s.len xs)) [
        | none ↦ if s.len == 0 then record js { clients = delete job js.clients } else js
        | some i ↦ record js {
          arrays = set js.arrays s.array (moved_down i s.len xs);
          channels = close_channel ch js.channels;
          clients =
              if s.len == 1
              then delete job js.clients
              else insert job (record s { len = s.len - 1 }) js.clients;
        }
      ]
]

-- A send in a select with a default: `none` is the panic of a send on a closed channel.
unfoldable pub try_send : ℕ → JobEvent → JobStream → Option JobStream
try_send ch event js = elim (get_elem? js.channels ch) [
  | none ↦ some js
  | some c ↦
      if c.closed
      then none
      else if ltb (length c.events) 10
      then some (record js {
        channels = set js.channels ch (record c { events = c.events ++ event ∷ [] });
      })
      else some js
]

-- The first step of Publish; a job without subscribers has a slice without elements.
unfoldable pub publish_read : String → JobStream → Option Slice
publish_read job js = lookup job js.clients

-- The loop of Publish from index `k` on, `n` rounds; each round reads the array anew.
unfoldable pub publish_send : Slice → ℕ → ℕ → JobEvent → JobStream → Option JobStream
publish_send s k zero event js = some js
publish_send s k (suc n) event js = elim (get_elem? (array_at s.array js) k) [
  | none ↦ publish_send s (k + 1) n event js
  | some ch ↦ elim (try_send ch event js) [
    | none ↦ none
    | some js' ↦ publish_send s (k + 1) n event js'
  ]
]

-- Publish with nothing in between
unfoldable pub publish : JobEvent → JobStream → Option JobStream
publish event js = elim (publish_read event.job_id js) [
  | none ↦ some js
  | some s ↦ publish_send s 0 s.len event js
]

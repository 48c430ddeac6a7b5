-- ===== src/Logs.antt =====
-- hive-server-go/logs.go: the ring buffer of log entries. Of an entry it reads the time, here a
-- number of milliseconds, since `GetSince` only compares times.
pub mod Ring
mod Examples
use ollama_local_hives_clust.Prelude.{
  ℕ, ◌+◌, String, Bool, true, false, Option, none, some, List, [], ◌∷◌, ◌++◌, leb, if◌then◌else◌,
  length,
}

pub record LogEntry : Type 0 where
  pub timestamp : ℕ
  pub level : String
  pub message : String
  pub logger : String

pub record RingBuffer : Type 0 where
  pub entries : List LogEntry
  pub max_size : ℕ

unfoldable pub new_ring_buffer : ℕ → RingBuffer
new_ring_buffer max_size = record { entries = []; max_size = max_size }

-- rb.entries[1:], which panics on an empty slice
abbrev pub without_first : List LogEntry → Option (List LogEntry)
without_first [] = none
without_first (e ∷ es) = some es

abbrev pub appended : RingBuffer → LogEntry → Option (List LogEntry) → Option RingBuffer
appended rb entry none = none
appended rb entry (some es) = some (record rb { entries = es ++ entry ∷ [] })

-- `Write`; `none` is a panic.
unfoldable pub write : RingBuffer → LogEntry → Option RingBuffer
write rb entry =
    appended rb entry
      (if leb rb.max_size (length rb.entries) then without_first rb.entries else some rb.entries)

unfoldable pub get_all : RingBuffer → List LogEntry
get_all rb = rb.entries

abbrev pub since_time : ℕ → List LogEntry → List LogEntry
since_time t [] = []
since_time t (e ∷ es) = let rest = since_time t es in if leb t e.timestamp then e ∷ rest else rest

unfoldable pub get_since : RingBuffer → ℕ → List LogEntry
get_since rb t = since_time t rb.entries

unfoldable pub clear : RingBuffer → RingBuffer
clear rb = record rb { entries = [] }

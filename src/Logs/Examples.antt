-- ===== src/Logs/Examples.antt =====
-- The theorem about hive-server-go/logs.go at three entries.
use ollama_local_hives_clust.Prelude.{ℕ, ◌-◌, ◌≡◌, some, List, [], ◌∷◌, drop, length, arith}
use ollama_local_hives_clust.Logs.{LogEntry, new_ring_buffer}
use ollama_local_hives_clust.Logs.Ring.{write_all, write_all-new}

abbrev entry : ℕ → LogEntry
entry t = record { timestamp = t; level = "INFO"; message = "m"; logger = "hive-server" }

abbrev three : List LogEntry
three = entry 1 ∷ entry 2 ∷ entry 3 ∷ []

write_all-new_example :
    write_all (new_ring_buffer 2) three
    ≡ some (record { entries = drop (length three - 2) three; max_size = 2 })
write_all-new_example = write_all-new 2 three (omega arith)

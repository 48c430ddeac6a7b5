-- ===== src/Logs/Ring.antt =====
-- What the ring buffer of hive-server-go/logs.go holds.
use ollama_local_hives_clust.Prelude.{
  ℕ, zero, suc, ◌-◌, ◌≤◌, ◌<◌, ◌≡◌, refl, true, Option, none, some, List, [], ◌∷◌, ◌++◌, arith,
  length, drop, leb, length-append, length-drop, drop-append_le, append-nil, append_assoc,
  Bool-cases, inl, inr,
}
use ollama_local_hives_clust.Logs.{LogEntry, RingBuffer, new_ring_buffer, without_first, write}

-- The writes, one after another; `none` is a panic.
unfoldable pub write_all : RingBuffer → List LogEntry → Option RingBuffer
write_all rb [] = some rb
write_all rb (e ∷ es) = elim (write rb e) [ none ↦ none | some rb' ↦ write_all rb' es ]

-- The last `n` entries.
abbrev pub last : ℕ → List LogEntry → List LogEntry
last n xs = drop (length xs - n) xs

tail_of :
    (xs : List LogEntry) (k : ℕ)
    → k < length xs
    → without_first (drop k xs) ≡ some (drop (suc k) xs)
tail_of [] k h = elim h [ ]
tail_of (x ∷ xs) zero h = refl
tail_of (x ∷ xs) (suc k) h = tail_of xs k (omega arith)

write-last :
    (n : ℕ) (xs : List LogEntry) (e : LogEntry)
    → 0 < n
    → write (record { entries = last n xs; max_size = n }) e
      ≡ some (record { entries = last n (xs ++ e ∷ []); max_size = n })
unfolding write
write-last n xs e positive = elim (Bool-cases (leb n (length xs))) [
  | inl full ↦
      let k : ℕ = length xs - n in
      let size : length (drop k xs) ≡ n =
        omega (arith, length-drop k xs, full_le n (length xs) full) in
      let more : length (xs ++ e ∷ []) - n ≡ suc k =
        omega (arith, length-append xs (e ∷ []), full_le n (length xs) full) in
      let le : suc k ≤ length xs = omega (arith, full_le n (length xs) full) in
      let reached : leb n n ≡ true = ground arith in
      rw (size, more, reached, tail_of xs k le, drop-append_le (suc k) xs (e ∷ []) le)
  | inr room ↦
      let all : length xs - n ≡ 0 = ground arith in
      let still : length (xs ++ e ∷ []) - n ≡ 0 = ground (arith, room, length-append xs (e ∷ [])) in
      rw (all, still, room)
]
  where
    full_le : (m l : ℕ) → leb m l ≡ true → m ≤ l
    full_le m l h = ground arith

write_all-last :
    (n : ℕ) (xs es : List LogEntry)
    → 0 < n
    → write_all (record { entries = last n xs; max_size = n }) es
      ≡ some (record { entries = last n (xs ++ es); max_size = n })
unfolding write_all
write_all-last n xs [] positive = rw (append-nil xs) refl
write_all-last n xs (e ∷ es) positive = rw (
  write-last n xs e positive,
  write_all,
  write_all-last n (xs ++ e ∷ []) es positive,
  append_assoc xs (e ∷ []) es,
)

-- After any writes to a new buffer for at least one entry, no write has panicked and the buffer
-- holds the newest entries in the order of their writing: all of them, or as many as its size.
pub write_all-new :
    (n : ℕ) (es : List LogEntry)
    → 0 < n
    → write_all (new_ring_buffer n) es
      ≡ some (record { entries = drop (length es - n) es; max_size = n })
unfolding new_ring_buffer
write_all-new n es positive =
    let nothing : 0 - n ≡ 0 = omega arith in rw nothing at (write_all-last n [] es positive)

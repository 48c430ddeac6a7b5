-- ===== src/Audit/Waking.antt =====
-- That the flush loop of hive-server-go/audit.go is not left asleep over a buffered event.
use ollama_local_hives_clust.Prelude.{
  ◌≡◌, refl, ap, Bool, true, false, ◌||◌, List, [], ◌∷◌, arith, ltb, List-cases, inl, inr,
}
use ollama_local_hives_clust.Audit.{AuditEvent}
use ollama_local_hives_clust.Audit.Flusher.{
  FlusherState, selecting, awake, writing, returned, AuditTrailManager, new_audit_trail_manager,
  append_event, signal, take_buffer, insert_event, AuditStep, appends, signals, stops,
  wakes_to_stop, wakes_by_signal, wakes_by_tick, takes, inserts, AuditRun, starts, goes,
}

module _ {N : Type 0} where
  abbrev pub is_empty : List (AuditEvent N) → Bool
  is_empty [] = true
  is_empty (_ ∷ _) = false

  -- Before it takes the buffer, or past its loop.
  abbrev pub is_awake : FlusherState N → Bool
  is_awake selecting = false
  is_awake (awake _) = true
  is_awake (writing _ _) = false
  is_awake returned = true

  abbrev pub is_heard : AuditTrailManager N → Bool
  is_heard atm =
      is_empty atm.buffer || (atm.flush_ch || (ltb 0 atm.appended || is_awake atm.flusher))

  takes-heard :
      (stopping : Bool) (atm : AuditTrailManager N) → is_heard (take_buffer stopping atm) ≡ true
  unfolding take_buffer
  takes-heard stopping atm = elim (List-cases atm.buffer) [
    | inl e ↦ rw (e, take_buffer) (rw e refl)
    | inr (c, e) ↦ rw (e, take_buffer) refl
  ]

  step-heard :
      {atm atm' : AuditTrailManager N}
      → AuditStep atm atm'
      → is_heard atm ≡ true
      → is_heard atm' ≡ true
  unfolding append_event signal insert_event
  step-heard (appends atm now generated e) h = ground arith
  step-heard (signals atm others k) h = ground arith
  step-heard (stops atm) h = h
  step-heard (wakes_to_stop atm k l) h = ground arith
  step-heard (wakes_by_signal atm k l) h = ground arith
  step-heard (wakes_by_tick atm k) h = ground arith
  step-heard (takes atm stopping k) h = takes-heard stopping atm
  step-heard (inserts atm fails stopping e es k) h = ground (arith, ap is_awake k)

  -- However callers and the flush loop are interleaved, while an event is buffered either a signal waits
  -- in the channel, or a caller that has appended is still to signal, or the loop is about to take the
  -- buffer, or the loop has returned.
  pub AuditRun-heard :
      (rows : List (AuditEvent N)) (atm : AuditTrailManager N) (logged : List (AuditEvent N))
      (tried : List (AuditEvent N × Bool))
      → AuditRun rows atm logged tried
      → is_empty atm.buffer || (atm.flush_ch || (ltb 0 atm.appended || is_awake atm.flusher)) ≡ true
  unfolding new_audit_trail_manager
  AuditRun-heard rows _ _ _ starts = refl
  AuditRun-heard rows _ _ _ (goes {atm} {atm'} {logged} {tried} r st) =
      step-heard st (AuditRun-heard rows atm logged tried r)

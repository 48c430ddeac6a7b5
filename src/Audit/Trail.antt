-- ===== src/Audit/Trail.antt =====
-- What becomes of the events that are logged: the table of hive-server-go/audit.go against the log.
use ollama_local_hives_clust.Prelude.{
  ◌≡◌, refl, sym, ap, ◌∙◌, Bool, true, false, List, [], ◌∷◌, ◌++◌, append-nil, append_assoc,
  if◌then◌else◌, Bool-cases, List-cases, inl, inr,
}
use ollama_local_hives_clust.Audit.{AuditEvent}
use ollama_local_hives_clust.Audit.Flusher.{
  FlusherState, selecting, awake, writing, returned, AuditTrailManager, new_audit_trail_manager,
  append_event, signal, after_flush, take_buffer, next_write, insert_event, AuditStep, appends,
  signals, stops, wakes_to_stop, wakes_by_signal, wakes_by_tick, takes, inserts, logged_by,
  tried_by, AuditRun, starts, goes,
}

module _ {N : Type 0} where
  -- The events that the flusher has taken and not tried yet.
  abbrev pub in_hand : FlusherState N → List (AuditEvent N)
  in_hand selecting = []
  in_hand (awake _) = []
  in_hand (writing _ es) = es
  in_hand returned = []

  abbrev pub events_of : List (AuditEvent N × Bool) → List (AuditEvent N)
  events_of [] = []
  events_of (t ∷ ts) = t.0 ∷ events_of ts

  -- Those whose INSERT did not fail.
  abbrev pub written : List (AuditEvent N × Bool) → List (AuditEvent N)
  written [] = []
  written (t ∷ ts) = if t.1 then written ts else t.0 ∷ written ts

  events_of-append :
      (ts us : List (AuditEvent N × Bool)) → events_of (ts ++ us) ≡ events_of ts ++ events_of us
  events_of-append [] us = refl
  events_of-append (t ∷ ts) us = ap (λ r. t.0 ∷ r) (events_of-append ts us)

  written-append :
      (ts us : List (AuditEvent N × Bool)) → written (ts ++ us) ≡ written ts ++ written us
  written-append [] us = refl
  written-append (t ∷ ts) us = elim (Bool-cases t.1) [
    | inl failed ↦ rw failed (written-append ts us)
    | inr done ↦ rw done (ap (λ r. t.0 ∷ r) (written-append ts us))
  ]

  -- The log is what was tried, what is in hand and what is buffered; the table is what was written.
  abbrev pub Accounted :
      List (AuditEvent N)
      → AuditTrailManager N
      → List (AuditEvent N)
      → List (AuditEvent N × Bool)
      → Type 0
  Accounted rows atm logged tried =
      (logged ≡ events_of tried ++ (in_hand atm.flusher ++ atm.buffer))
      × (atm.rows ≡ rows ++ written tried)

  in_hand-after_flush : (stopping : Bool) → in_hand (after_flush stopping) ≡ []
  unfolding after_flush
  in_hand-after_flush true = refl
  in_hand-after_flush false = refl

  in_hand-next_write :
      (stopping : Bool) (es : List (AuditEvent N)) → in_hand (next_write stopping es) ≡ es
  unfolding next_write
  in_hand-next_write stopping [] = in_hand-after_flush stopping
  in_hand-next_write stopping (e ∷ es) = refl

  quiet-Accounted :
      (rows : List (AuditEvent N)) (atm atm' : AuditTrailManager N) (logged : List (AuditEvent N))
      (tried : List (AuditEvent N × Bool))
      → in_hand atm'.flusher ++ atm'.buffer ≡ in_hand atm.flusher ++ atm.buffer
      → atm'.rows ≡ atm.rows
      → Accounted rows atm logged tried
      → Accounted rows atm' (logged ++ []) (tried ++ [])
  quiet-Accounted rows atm atm' logged tried same table (whole, kept) =
      rw (append-nil logged, append-nil tried)
        (whole ∙ ap (λ r. events_of tried ++ r) (sym same), table ∙ kept)

  takes-same :
      (stopping : Bool) (atm : AuditTrailManager N)
      → atm.flusher ≡ awake stopping
      → in_hand (take_buffer stopping atm).flusher ++ (take_buffer stopping atm).buffer
        ≡ in_hand atm.flusher ++ atm.buffer
  unfolding take_buffer
  takes-same stopping atm up = elim (List-cases atm.buffer) [
    | inl e ↦ rw (e, up, take_buffer) (simp (in_hand-after_flush stopping, e))
    | inr (c, e) ↦ rw (e, up, take_buffer) (append-nil (c.0 ∷ c.1))
  ]

  takes-rows :
      (stopping : Bool) (atm : AuditTrailManager N) → (take_buffer stopping atm).rows ≡ atm.rows
  unfolding take_buffer
  takes-rows stopping atm = elim (List-cases atm.buffer) [
    | inl e ↦ rw (e, take_buffer) refl
    | inr (c, e) ↦ rw (e, take_buffer) refl
  ]

  inserts-rows :
      (rows kept : List (AuditEvent N)) (tried : List (AuditEvent N × Bool)) (e : AuditEvent N)
      (fails : Bool)
      → kept ≡ rows ++ written tried
      → (if fails then kept else kept ++ e ∷ []) ≡ rows ++ written (tried ++ (e, fails) ∷ [])
  inserts-rows rows kept tried e true h =
      rw (written-append tried ((e, true) ∷ []), append-nil (written tried)) h
  inserts-rows rows kept tried e false h =
      rw (written-append tried ((e, false) ∷ []), h) (append_assoc rows (written tried) (e ∷ []))

  step-Accounted :
      (rows : List (AuditEvent N)) (logged : List (AuditEvent N))
      (tried : List (AuditEvent N × Bool)) {atm atm' : AuditTrailManager N}
      (st : AuditStep atm atm')
      → Accounted rows atm logged tried
      → Accounted rows atm' (logged ++ logged_by st) (tried ++ tried_by st)
  unfolding append_event signal insert_event
  step-Accounted rows logged tried (appends atm now generated e) (whole, kept) =
      simp (whole, append-nil, append_assoc) (refl, kept)
  step-Accounted rows logged tried (signals atm others h) a =
      quiet-Accounted rows atm (signal others atm) logged tried refl refl a
  step-Accounted rows logged tried (stops atm) a =
      quiet-Accounted rows atm (record atm { stop_ch = true }) logged tried refl refl a
  step-Accounted rows logged tried (wakes_to_stop atm h k) a =
      quiet-Accounted rows atm (record atm { flusher = awake true }) logged tried (rw h) refl a
  step-Accounted rows logged tried (wakes_by_signal atm h k) a =
      quiet-Accounted rows atm (record atm { flusher = awake false; flush_ch = false }) logged tried
        (rw h) refl a
  step-Accounted rows logged tried (wakes_by_tick atm h) a =
      quiet-Accounted rows atm (record atm { flusher = awake false }) logged tried (rw h) refl a
  step-Accounted rows logged tried (takes atm stopping up) a =
      quiet-Accounted rows atm (take_buffer stopping atm) logged tried (takes-same stopping atm up)
        (takes-rows stopping atm) a
  step-Accounted rows logged tried (inserts atm fails stopping e es h) (whole, kept) =
      let held : in_hand atm.flusher ≡ e ∷ es = ap in_hand h in
      (
        simp (
          append-nil,
          whole,
          held,
          in_hand-next_write stopping es,
          events_of-append,
          append_assoc,
        ),
        inserts-rows rows atm.rows tried e fails kept,
      )

  -- However callers and the flush loop are interleaved from the start of the server, the log is, in its
  -- order, what the loop has tried to write, then what it holds, then what is buffered; and the table
  -- is what stood there at the start, followed by the tried events whose INSERT did not fail.
  pub AuditRun-Accounted :
      (rows : List (AuditEvent N)) (atm : AuditTrailManager N) (logged : List (AuditEvent N))
      (tried : List (AuditEvent N × Bool))
      → AuditRun rows atm logged tried
      → (logged ≡ events_of tried ++ (in_hand atm.flusher ++ atm.buffer))
        × (atm.rows ≡ rows ++ written tried)
  unfolding new_audit_trail_manager
  AuditRun-Accounted rows _ _ _ starts = (refl, sym (append-nil rows))
  AuditRun-Accounted rows _ _ _ (goes {atm} {atm'} {logged} {tried} r st) =
      step-Accounted rows logged tried st (AuditRun-Accounted rows atm logged tried r)

-- ===== src/Audit/Flusher.antt =====
-- The buffer and the flush loop of hive-server-go/audit.go. Callers of LogEvent run beside the loop:
-- a caller appends under the lock and signals afterwards, and a flush takes the buffer under the lock
-- and writes its copy row by row. Whether an INSERT fails is the database's choice.
use ollama_local_hives_clust.Prelude.{
  ℕ, suc, ◌≡◌, String, Bool, true, false, List, [], ◌∷◌, ◌++◌, if◌then◌else◌,
}
use ollama_local_hives_clust.Audit.{AuditEvent, stamped}

-- Where flushLoop stands: in its select, before flush takes the buffer, with the copied events that
-- are still to be written, or returned. The flag says that the stop channel woke it.
pub data FlusherState (N : Type 0) : Type 0 where
  selecting : FlusherState N
  awake : Bool → FlusherState N
  writing : Bool → List (AuditEvent N) → FlusherState N
  returned : FlusherState N

pub record AuditTrailManager (N : Type 0) : Type 0 where
  pub buffer : List (AuditEvent N)
  -- a signal waits in flushCh, which has room for one
  pub flush_ch : Bool
  -- callers that have appended and not signalled yet
  pub appended : ℕ
  pub stop_ch : Bool
  pub flusher : FlusherState N
  -- request_audit_trail
  pub rows : List (AuditEvent N)

module _ {N : Type 0} where
  unfoldable pub new_audit_trail_manager : List (AuditEvent N) → AuditTrailManager N
  new_audit_trail_manager rows = record {
    buffer = [];
    flush_ch = false;
    appended = 0;
    stop_ch = false;
    flusher = selecting;
    rows = rows;
  }

  -- LogEvent up to the unlock, and its select
  unfoldable pub append_event :
      ℕ → String → AuditEvent N → AuditTrailManager N → AuditTrailManager N
  append_event now generated e atm = record atm {
    buffer = atm.buffer ++ stamped now generated e ∷ [];
    appended = suc atm.appended;
  }

  unfoldable pub signal : ℕ → AuditTrailManager N → AuditTrailManager N
  signal others atm = record atm { flush_ch = true; appended = others }

  -- flush up to the unlock: an empty buffer ends it
  unfoldable pub after_flush : Bool → FlusherState N
  after_flush stopping = if stopping then returned else selecting

  unfoldable pub take_buffer : Bool → AuditTrailManager N → AuditTrailManager N
  take_buffer stopping atm = elim atm.buffer [
    | [] ↦ record atm { flusher = after_flush stopping }
    | e ∷ es ↦ record atm { flusher = writing stopping (e ∷ es); buffer = [] }
  ]

  unfoldable pub next_write : Bool → List (AuditEvent N) → FlusherState N
  next_write stopping [] = after_flush stopping
  next_write stopping (e ∷ es) = writing stopping (e ∷ es)

  -- One round of the loop over the events
  unfoldable pub insert_event :
      Bool → Bool → AuditEvent N → List (AuditEvent N) → AuditTrailManager N → AuditTrailManager N
  insert_event fails stopping e es atm = record atm {
    rows = if fails then atm.rows else atm.rows ++ e ∷ [];
    flusher = next_write stopping es;
  }

  -- The steps, and the events that they append and try to write.
  pub data AuditStep : AuditTrailManager N → AuditTrailManager N → Type 0 where
    appends :
        (atm : AuditTrailManager N) (now : ℕ) (generated : String) (e : AuditEvent N)
        → AuditStep atm (append_event now generated e atm)
    signals :
        (atm : AuditTrailManager N) (others : ℕ)
        → atm.appended ≡ suc others
        → AuditStep atm (signal others atm)
    stops : (atm : AuditTrailManager N) → AuditStep atm (record atm { stop_ch = true })
    wakes_to_stop :
        (atm : AuditTrailManager N)
        → atm.flusher ≡ selecting
        → atm.stop_ch ≡ true
        → AuditStep atm (record atm { flusher = awake true })
    wakes_by_signal :
        (atm : AuditTrailManager N)
        → atm.flusher ≡ selecting
        → atm.flush_ch ≡ true
        → AuditStep atm (record atm { flusher = awake false; flush_ch = false })
    wakes_by_tick :
        (atm : AuditTrailManager N)
        → atm.flusher ≡ selecting
        → AuditStep atm (record atm { flusher = awake false })
    takes :
        (atm : AuditTrailManager N) (stopping : Bool)
        → atm.flusher ≡ awake stopping
        → AuditStep atm (take_buffer stopping atm)
    inserts :
        (atm : AuditTrailManager N) (fails stopping : Bool) (e : AuditEvent N)
        (es : List (AuditEvent N))
        → atm.flusher ≡ writing stopping (e ∷ es)
        → AuditStep atm (insert_event fails stopping e es atm)

  -- What a step logs: the event that it appends, as it was stamped.
  abbrev pub logged_by : {atm atm' : AuditTrailManager N} → AuditStep atm atm' → List (AuditEvent N)
  logged_by (appends _ now generated e) = stamped now generated e ∷ []
  logged_by (signals _ _ _) = []
  logged_by (stops _) = []
  logged_by (wakes_to_stop _ _ _) = []
  logged_by (wakes_by_signal _ _ _) = []
  logged_by (wakes_by_tick _ _) = []
  logged_by (takes _ _ _) = []
  logged_by (inserts _ _ _ _ _ _) = []

  -- What a step tries to write, with whether the INSERT failed.
  abbrev pub tried_by :
      {atm atm' : AuditTrailManager N} → AuditStep atm atm' → List (AuditEvent N × Bool)
  tried_by (appends _ _ _ _) = []
  tried_by (signals _ _ _) = []
  tried_by (stops _) = []
  tried_by (wakes_to_stop _ _ _) = []
  tried_by (wakes_by_signal _ _ _) = []
  tried_by (wakes_by_tick _ _) = []
  tried_by (takes _ _ _) = []
  tried_by (inserts _ fails _ e _ _) = (e, fails) ∷ []

  -- Any steps from the start over a table, with what they log and try to write.
  pub data AuditRun (rows : List (AuditEvent N))
      : AuditTrailManager N → List (AuditEvent N) → List (AuditEvent N × Bool) → Type 0 where
    starts : AuditRun rows (new_audit_trail_manager rows) [] []
    goes :
        {atm atm' : AuditTrailManager N} {logged : List (AuditEvent N)}
        {tried : List (AuditEvent N × Bool)}
        → AuditRun rows atm logged tried
        → (st : AuditStep atm atm')
        → AuditRun rows atm' (logged ++ logged_by st) (tried ++ tried_by st)

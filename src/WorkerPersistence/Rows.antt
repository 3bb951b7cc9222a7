-- ===== src/WorkerPersistence/Rows.antt =====
-- src/lws/worker_persistence.py: the rows of a snapshot, written and read back.
use localshell_web_superviso.Base.{◌≡◌, refl, some, String, List, [], ◌∷◌, ok, collect}
use localshell_web_superviso.WorkerProtocol.State.{WorkerLease, WorkerTaskState}
use localshell_web_superviso.WorkerProtocol.Validity.{IsValid, validate_of-IsValid}
use localshell_web_superviso.WorkerPersistence.Tables.{LeaseRow}
use localshell_web_superviso.WorkerPersistence.Load.{lease_from_row, state_from_rows}
use localshell_web_superviso.WorkerPersistence.Persist.{lease_values, task_values}
use localshell_web_superviso.WorkerPersistence.Compare.{lease_status_of-value, task_status_of-value}

-- `rows` are those of the leases, in their order.
pub data AreStored : List WorkerLease → List LeaseRow → Type 0 where
  no_leases : AreStored [] []
  one_more :
      {ws : List WorkerLease} {rows : List LeaseRow}
      → (w : WorkerLease) (ref : String) → w.conversation_ref ≡ some ref
      → AreStored ws rows
      → AreStored (w ∷ ws) (lease_values w ref ∷ rows)

lease_from_row-values :
    (w : WorkerLease) (ref : String)
    → w.conversation_ref ≡ some ref
    → lease_from_row (lease_values w ref) ≡ ok w
unfolding lease_from_row
lease_from_row-values w ref h = rw (lease_status_of-value w.status) (cc h)

collect-values :
    (ws : List WorkerLease) (rows : List LeaseRow)
    → AreStored ws rows
    → collect lease_from_row rows ≡ ok ws
collect-values _ _ no_leases = refl
collect-values _ _ (one_more {ws} {rows} w ref h stored) =
    rw (lease_from_row-values w ref h, collect-values ws rows stored)

-- A valid snapshot whose workers all have a conversation is read back from its rows unchanged.
pub state_from_rows-values :
    (s : WorkerTaskState) (rows : List LeaseRow)
    → IsValid s
    → AreStored s.workers rows
    → state_from_rows (task_values s) rows ≡ ok s
unfolding state_from_rows
state_from_rows-values s rows valid stored = rw (
  task_status_of-value s.task_status,
  collect-values s.workers rows stored,
  validate_of-IsValid valid,
)

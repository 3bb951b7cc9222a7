-- ===== src/WorkerPersistence/Tables.antt =====
-- src/lws/db.py, the tables that src/lws/worker_persistence.py reads and writes, and the texts of its
-- enumerations. Columns that it neither reads nor writes are left out, and so is `task_jobs`.
use localshell_web_superviso.Base.{
  ℕ, Bool, Option, is_some, String, List, ◌==◌, if◌then◌else◌, Outcome, ok, raise, value_error,
  select, find, sort_by, str_ltb,
}
use localshell_web_superviso.WorkerProtocol.State.{WorkerLeaseStatus, DurableTaskStatus, EventKind}

pub record TaskRow : Type 0 where
  pub task_id : String
  pub state : String
  pub current_worker_id : Option String
  pub updated_at : ℕ

pub record WorkerRow : Type 0 where
  pub worker_id : String
  pub task_id : String
  pub conversation_url : String
  pub conversation_id : Option String
  pub status : String
  pub started_at : ℕ
  pub last_seen_at : Option ℕ
  pub ended_at : Option ℕ

pub record ProtocolRow : Type 0 where
  pub task_id : String
  pub revision : ℕ
  pub generation : ℕ
  pub task_status : String
  pub current_worker_id : Option String
  pub handoff_target_worker_id : Option String
  pub handoff_requested_at : Option ℕ
  pub parent_task_id : Option String
  pub root_task_id : String
  pub child_key : Option String
  pub completed_at : Option ℕ
  pub completion_ref : Option String

pub record LeaseRow : Type 0 where
  pub worker_id : String
  pub task_id : String
  pub conversation_ref : String
  pub status : String
  pub registered_at : ℕ
  pub generation : Option ℕ
  pub claimed_at : Option ℕ
  pub last_heartbeat_at : Option ℕ
  pub lease_expires_at : Option ℕ
  pub ended_at : Option ℕ
  pub superseded_by : Option String

pub record EventRow : Type 0 where
  pub task_id : String
  pub revision : ℕ
  pub event_index : ℕ
  pub kind : String
  pub at : ℕ
  pub worker_id : Option String
  pub generation : Option ℕ
  pub related_worker_id : Option String
  pub ref : Option String

-- `window_bindings` are the workers with a row of `worker_window_bindings`
pub record Database : Type 0 where
  pub tasks : List TaskRow
  pub workers : List WorkerRow
  pub protocol_tasks : List ProtocolRow
  pub protocol_leases : List LeaseRow
  pub protocol_events : List EventRow
  pub window_bindings : List String

abbrev pub find_task : Database → String → Option TaskRow
find_task db id = find (λ (r : TaskRow). r.task_id == id) db.tasks

abbrev pub has_task : Database → String → Bool
has_task db id = is_some (find_task db id)

abbrev pub find_protocol : Database → String → Option ProtocolRow
find_protocol db id = find (λ (r : ProtocolRow). r.task_id == id) db.protocol_tasks

-- `WHERE task_id = ? ORDER BY worker_id`
abbrev pub worker_rows : Database → String → List WorkerRow
worker_rows db id =
    sort_by (λ (a b : WorkerRow). str_ltb a.worker_id b.worker_id)
      (select (λ (r : WorkerRow). r.task_id == id) db.workers)

abbrev pub lease_rows : Database → String → List LeaseRow
lease_rows db id =
    sort_by (λ (a b : LeaseRow). str_ltb a.worker_id b.worker_id)
      (select (λ (r : LeaseRow). r.task_id == id) db.protocol_leases)

abbrev pub find_row : String → List WorkerRow → Option WorkerRow
find_row id rows = find (λ (r : WorkerRow). r.worker_id == id) rows

-- `WorkerLeaseStatus.value`, and `WorkerLeaseStatus(value)`
abbrev pub lease_status_value : WorkerLeaseStatus → String
lease_status_value WorkerLeaseStatus.candidate = "candidate"
lease_status_value WorkerLeaseStatus.active = "active"
lease_status_value WorkerLeaseStatus.superseded = "superseded"
lease_status_value WorkerLeaseStatus.completed = "completed"
lease_status_value WorkerLeaseStatus.abandoned = "abandoned"

unfoldable pub lease_status_of : String → Outcome WorkerLeaseStatus
lease_status_of v =
    if v == "candidate"
    then ok WorkerLeaseStatus.candidate
    else if v == "active"
    then ok WorkerLeaseStatus.active
    else if v == "superseded"
    then ok WorkerLeaseStatus.superseded
    else if v == "completed"
    then ok WorkerLeaseStatus.completed
    else if v == "abandoned"
    then ok WorkerLeaseStatus.abandoned
    else raise (value_error "WorkerLeaseStatus")

abbrev pub task_status_value : DurableTaskStatus → String
task_status_value DurableTaskStatus.open_task = "open"
task_status_value DurableTaskStatus.completed_task = "completed"

unfoldable pub task_status_of : String → Outcome DurableTaskStatus
task_status_of v =
    if v == "open"
    then ok DurableTaskStatus.open_task
    else if v == "completed"
    then ok DurableTaskStatus.completed_task
    else raise (value_error "DurableTaskStatus")

abbrev pub event_kind_value : EventKind → String
event_kind_value EventKind.worker_registered = "worker_registered"
event_kind_value EventKind.lease_claimed = "lease_claimed"
event_kind_value EventKind.heartbeat_accepted = "heartbeat_accepted"
event_kind_value EventKind.handoff_requested = "handoff_requested"
event_kind_value EventKind.worker_superseded = "worker_superseded"
event_kind_value EventKind.lease_taken_over = "lease_taken_over"
event_kind_value EventKind.worker_completed = "worker_completed"
event_kind_value EventKind.worker_abandoned = "worker_abandoned"
event_kind_value EventKind.task_completed = "task_completed"

unfoldable pub event_kind_of : String → Outcome EventKind
event_kind_of v =
    if v == "worker_registered"
    then ok EventKind.worker_registered
    else if v == "lease_claimed"
    then ok EventKind.lease_claimed
    else if v == "heartbeat_accepted"
    then ok EventKind.heartbeat_accepted
    else if v == "handoff_requested"
    then ok EventKind.handoff_requested
    else if v == "worker_superseded"
    then ok EventKind.worker_superseded
    else if v == "lease_taken_over"
    then ok EventKind.lease_taken_over
    else if v == "worker_completed"
    then ok EventKind.worker_completed
    else if v == "worker_abandoned"
    then ok EventKind.worker_abandoned
    else if v == "task_completed"
    then ok EventKind.task_completed
    else raise (value_error "EventKind")

-- `_legacy_status`, as the value that is stored
abbrev pub legacy_status : WorkerLeaseStatus → String
legacy_status WorkerLeaseStatus.candidate = "parked"
legacy_status WorkerLeaseStatus.active = "active"
legacy_status WorkerLeaseStatus.superseded = "superseded"
legacy_status WorkerLeaseStatus.completed = "dead"
legacy_status WorkerLeaseStatus.abandoned = "dead"

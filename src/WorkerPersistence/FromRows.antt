-- ===== src/WorkerPersistence/FromRows.antt =====
-- src/lws/worker_persistence.py, `_state_from_legacy`: the leases of a task from its rows of `tasks`
-- and `workers`.
use localshell_web_superviso.Base.{
  ℕ, Bool, false, not, ◌||◌, Option, none, some, is_some, String, List, [], ◌∷◌, any, ◌==◌, map,
  select, is_empty, if◌then◌else◌, Outcome, ok, raise, Error, invariant_error, persistence_error,
  raise_if, ◌>>=◌, ◌>>◌, collect,
}
use localshell_web_superviso.WorkerProtocol.State.{
  WorkerLeaseStatus, DurableTaskStatus, TaskLineage, WorkerLease, WorkerTaskState,
}
use localshell_web_superviso.WorkerProtocol.Workers.{sorted_workers}
use localshell_web_superviso.WorkerProtocol.Checks.{validate_state}
use localshell_web_superviso.WorkerPersistence.Tables.{TaskRow, WorkerRow, find_row}

abbrev pub refuse {ℓ} : {A : Type ℓ} → String → Outcome A
refuse text = raise (persistence_error text)

abbrev pub refuse_if : Bool → String → Outcome (Unit {0})
refuse_if b text = raise_if b (persistence_error text)

-- `SupervisorState(value)` succeeds
abbrev is_supervisor_state : String → Bool
is_supervisor_state v =
    any (λ s. v == s)
      ("QUEUED" ∷ "STARTING" ∷ "RUNNING" ∷ "SUSPECT" ∷ "RECONCILING" ∷ "RECOVERING" ∷ "BLOCKED"
        ∷ "NEEDS_HUMAN" ∷ "COMPLETED" ∷ "ABANDONED" ∷ [])

abbrev active_ids : List WorkerRow → List String
active_ids rows =
    map (λ (r : WorkerRow). r.worker_id) (select (λ (r : WorkerRow). r.status == "active") rows)

abbrev is_only : String → List String → Bool
is_only id (x ∷ []) = x == id
is_only id _ = false

-- the tests on the current worker of the task, given its row
abbrev check_current_row : TaskRow → List WorkerRow → String → Option WorkerRow → Outcome (Unit {0})
check_current_row t rows current none =
    refuse "tasks.current_worker_id does not identify a worker in the same task"
check_current_row t rows current (some r) = do
  refuse_if (not (r.status == "active") || not (is_only current (active_ids rows)))
      "legacy current worker is not the sole ACTIVE worker"
  refuse_if (t.state == "COMPLETED") "legacy COMPLETED task cannot retain an ACTIVE current worker"

-- the tests of `_state_from_legacy` before the leases are made
unfoldable pub check_legacy : TaskRow → List WorkerRow → Outcome (Unit {0})
check_legacy t rows = do
  refuse_if (not (is_supervisor_state t.state)) "unknown legacy task state"
  refuse_if (t.state == "ABANDONED")
      "legacy ABANDONED task meaning is ambiguous for protocol bootstrap"
  refuse_if (any (λ (r : WorkerRow). r.status == "parked") rows)
      "legacy PARKED workers have ambiguous protocol authority; reconcile before bootstrap"
  elim t.current_worker_id [
    | none ↦
        refuse_if (not (is_empty (active_ids rows)))
          "legacy ACTIVE worker exists without tasks.current_worker_id"
    | some current ↦ check_current_row t rows current (find_row current rows)
  ]

abbrev last_seen : WorkerRow → ℕ
last_seen r = elim r.last_seen_at [ none ↦ r.started_at | some t ↦ t ]

-- an active worker's lease: it ends when the worker was last seen
abbrev active_lease : TaskRow → WorkerRow → WorkerLease
active_lease t r = record {
  worker_id = r.worker_id;
  task_id = t.task_id;
  conversation_ref = some r.conversation_url;
  status = WorkerLeaseStatus.active;
  registered_at = r.started_at;
  generation = some 1;
  claimed_at = some r.started_at;
  last_heartbeat_at = some (last_seen r);
  lease_expires_at = some (last_seen r);
  ended_at = none;
  superseded_by = none;
}

abbrev ended_row_lease : TaskRow → WorkerRow → WorkerLeaseStatus → ℕ → WorkerLease
ended_row_lease t r status ended = record {
  worker_id = r.worker_id;
  task_id = t.task_id;
  conversation_ref = some r.conversation_url;
  status = status;
  registered_at = r.started_at;
  generation = none;
  claimed_at = none;
  last_heartbeat_at = r.last_seen_at;
  lease_expires_at = none;
  ended_at = some ended;
  superseded_by = none;
}

abbrev ended_or_refuse : TaskRow → WorkerRow → WorkerLeaseStatus → String → Outcome WorkerLease
ended_or_refuse t r status text = elim r.ended_at [
  | none ↦ refuse text
  | some ended ↦ ok (ended_row_lease t r status ended)
]

-- the body of the loop over the rows of `workers`
unfoldable pub lease_from_legacy : TaskRow → WorkerRow → Outcome WorkerLease
lease_from_legacy t r =
    if r.status == "active"
    then if is_some r.ended_at
      then refuse "legacy ACTIVE worker unexpectedly has terminal ended_at"
      else ok (active_lease t r)
    else if r.status == "superseded"
    then ended_or_refuse t r WorkerLeaseStatus.superseded
        "legacy SUPERSEDED worker lacks terminal ended_at evidence"
    else if r.status == "dead"
    then ended_or_refuse t r WorkerLeaseStatus.abandoned
        "legacy DEAD worker lacks terminal ended_at evidence"
    else if r.status == "parked"
    then refuse "unsupported legacy worker status for bootstrap"
    else refuse "unknown legacy worker status"

-- `except ProtocolInvariantError`
abbrev pub recast_invariant : Error → Error
recast_invariant (invariant_error t) =
    persistence_error "legacy worker bootstrap is not a valid protocol snapshot"
recast_invariant e = e

abbrev pub valid_or_refuse {ℓ} : {A : Type ℓ} → Outcome A → Outcome A
valid_or_refuse (ok a) = ok a
valid_or_refuse (raise e) = raise (recast_invariant e)

abbrev pub legacy_snapshot : TaskRow → TaskLineage → List WorkerLease → WorkerTaskState
legacy_snapshot t lineage leases =
    let completed = t.state == "COMPLETED" in
    record {
      lineage = lineage;
      revision = 0;
      generation = if is_some t.current_worker_id then 1 else 0;
      task_status =
          if completed then DurableTaskStatus.completed_task else DurableTaskStatus.open_task;
      current_worker_id = t.current_worker_id;
      handoff_target_worker_id = none;
      handoff_requested_at = none;
      workers = sorted_workers leases;
      completed_at = if completed then some t.updated_at else none;
      completion_ref = if completed then some "legacy:supervisor-state:COMPLETED" else none;
    }

unfoldable pub state_from_legacy : TaskRow → List WorkerRow → TaskLineage → Outcome WorkerTaskState
state_from_legacy t rows lineage = do
  check_legacy t rows
  leases ← collect (lease_from_legacy t) rows
  let state = legacy_snapshot t lineage leases
  valid_or_refuse (validate_state state)
  ok state

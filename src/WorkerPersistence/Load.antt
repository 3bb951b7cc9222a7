-- ===== src/WorkerPersistence/Load.antt =====
-- src/lws/worker_persistence.py, `_load_worker_protocol_locked`.
use localshell_web_superviso.Base.{
  Bool, true, false, not, ◌&&◌, ◌||◌, Option, none, some, is_some, String, List, any, ◌==◌, eqb,
  if◌then◌else◌, Outcome, ok, raise, Error, value_error, invariant_error, persistence_error,
  key_error, runtime_error, action_blocked, integrity_error, pool_error, assertion_error, raise_if,
  ◌>>=◌, ◌>>◌, for_each, collect,
}
use localshell_web_superviso.WorkerProtocol.State.{
  WorkerLeaseStatus, WorkerLease, WorkerTaskState, task_id, is_open,
}
use localshell_web_superviso.WorkerProtocol.Checks.{validate_state}
use localshell_web_superviso.WorkerPersistence.Tables.{
  TaskRow, WorkerRow, ProtocolRow, LeaseRow, Database, find_task, has_task, find_protocol,
  worker_rows, lease_rows, find_row, lease_status_of, task_status_of, legacy_status,
}

-- `_lease_from_row`
unfoldable pub lease_from_row : LeaseRow → Outcome WorkerLease
lease_from_row r = do
  status ← lease_status_of r.status
  ok (record {
    worker_id = r.worker_id;
    task_id = r.task_id;
    conversation_ref = some r.conversation_ref;
    status = status;
    registered_at = r.registered_at;
    generation = r.generation;
    claimed_at = r.claimed_at;
    last_heartbeat_at = r.last_heartbeat_at;
    lease_expires_at = r.lease_expires_at;
    ended_at = r.ended_at;
    superseded_by = r.superseded_by;
  })

-- the body of the `try`
unfoldable pub state_from_rows : ProtocolRow → List LeaseRow → Outcome WorkerTaskState
state_from_rows r rows = do
  status ← task_status_of r.task_status
  leases ← collect lease_from_row rows
  let state : WorkerTaskState = record {
    lineage = record {
      task_id = r.task_id;
      parent_task_id = r.parent_task_id;
      root_task_id = r.root_task_id;
      child_key = r.child_key;
    };
    revision = r.revision;
    generation = r.generation;
    task_status = status;
    current_worker_id = r.current_worker_id;
    handoff_target_worker_id = r.handoff_target_worker_id;
    handoff_requested_at = r.handoff_requested_at;
    workers = leases;
    completed_at = r.completed_at;
    completion_ref = r.completion_ref;
  }
  validate_state state
  ok state

-- `except (ValueError, ProtocolInvariantError)`
abbrev pub recast : Error → Error
recast (value_error t) = persistence_error "persisted worker protocol is invalid"
recast (invariant_error t) = persistence_error "persisted worker protocol is invalid"
recast (runtime_error t) = runtime_error t
recast (key_error t) = key_error t
recast (action_blocked t) = action_blocked t
recast (persistence_error t) = persistence_error t
recast (integrity_error t) = integrity_error t
recast (pool_error t) = pool_error t
recast assertion_error = assertion_error

abbrev pub recast_errors {ℓ} : {A : Type ℓ} → Outcome A → Outcome A
recast_errors (ok a) = ok a
recast_errors (raise e) = raise (recast e)

abbrev parent_root : Database → String → Option String
parent_root db parent = elim (find_protocol db parent) [
  | none ↦ none
  | some r ↦ some r.root_task_id
]

unfoldable pub validate_lineage_references : Database → WorkerTaskState → Outcome (Unit {0})
validate_lineage_references db s = do
  raise_if (not (has_task db s.lineage.root_task_id))
      (persistence_error "protocol root_task_id no longer exists")
  elim s.lineage.parent_task_id [
    | none ↦ ok tt
    | some parent ↦ do
      raise_if (not (has_task db parent))
          (persistence_error "protocol parent_task_id no longer exists")
      elim (parent_root db parent) [
        | none ↦ ok tt
        | some root ↦
            raise_if (not (root == s.lineage.root_task_id))
              (persistence_error "protocol child root disagrees with parent root")
      ]
  ]

abbrev pub same_id : Option String → Option String → Bool
same_id none none = true
same_id (some a) (some b) = a == b
same_id _ _ = false

-- `status in {SUPERSEDED, COMPLETED, ABANDONED}`
abbrev pub has_ended : WorkerLeaseStatus → Bool
has_ended WorkerLeaseStatus.candidate = false
has_ended WorkerLeaseStatus.active = false
has_ended _ = true

abbrev pub protocol_has : List WorkerLease → String → Bool
protocol_has ws id = any (λ (w : WorkerLease). w.worker_id == id) ws

-- equality of the sets of worker ids
abbrev pub same_identities : List WorkerRow → List WorkerLease → Bool
same_identities rows ws =
    not (any (λ (r : WorkerRow). not (protocol_has ws r.worker_id)) rows)
    && not (any (λ (w : WorkerLease). not (is_some (find_row w.worker_id rows))) ws)

abbrev pub same_ref : Option String → String → Bool
same_ref none url = false
same_ref (some ref) url = url == ref

-- the body of the loop over the leases, from the row of the worker on
unfoldable pub validate_lease_row : List WorkerLease → WorkerLease → WorkerRow → Outcome (Unit {0})
validate_lease_row ws w r = do
  raise_if (not (r.task_id == w.task_id))
      (persistence_error "worker durable task identity mismatch")
  raise_if (not (same_ref w.conversation_ref r.conversation_url))
      (persistence_error "worker conversation reference mismatch")
  raise_if (not (eqb r.started_at w.registered_at))
      (persistence_error "worker registration timestamp mismatch")
  raise_if (not (r.status == legacy_status w.status))
      (persistence_error "legacy worker status disagrees with protocol")
  raise_if (has_ended w.status && not (is_some r.ended_at))
      (persistence_error "terminal protocol worker lacks legacy ended_at")
  elim w.superseded_by [
    | none ↦ ok tt
    | some by ↦
        raise_if (not (protocol_has ws by))
          (persistence_error "superseded_by identifies a foreign worker")
  ]

-- the body of the loop over the leases
unfoldable pub validate_lease :
    List WorkerRow → List WorkerLease → WorkerLease → Unit {0} → Outcome (Unit {0})
validate_lease rows ws w _ = elim (find_row w.worker_id rows) [
  | none ↦ raise (key_error "canonical")
  | some r ↦ validate_lease_row ws w r
]

-- the tests against the row of `tasks`
unfoldable pub validate_task_row : Database → WorkerTaskState → TaskRow → Outcome (Unit {0})
validate_task_row db s t = do
  raise_if (not (same_id t.current_worker_id s.current_worker_id))
      (persistence_error "tasks.current_worker_id disagrees with persisted worker protocol")
  raise_if (not (is_open s.task_status) && not (t.state == "COMPLETED"))
      (persistence_error "completed protocol task disagrees with canonical task state")
  raise_if (is_open s.task_status && (t.state == "COMPLETED" || t.state == "ABANDONED"))
      (persistence_error "canonical terminal task state disagrees with open worker protocol")
  let rows = worker_rows db (task_id s)
  raise_if (not (same_identities rows s.workers))
      (persistence_error "canonical workers and protocol workers do not have identical identities")
  for_each (validate_lease rows s.workers) s.workers tt

unfoldable pub validate_legacy_consistency : Database → WorkerTaskState → Outcome (Unit {0})
validate_legacy_consistency db s = elim (find_task db (task_id s)) [
  | none ↦ raise (persistence_error "canonical task row is missing")
  | some t ↦ validate_task_row db s t
]

-- from the row of `worker_protocol_tasks` on
unfoldable pub load_row : Database → String → ProtocolRow → Outcome WorkerTaskState
load_row db id r = do
  state ← recast_errors (state_from_rows r (lease_rows db id))
  validate_lineage_references db state
  validate_legacy_consistency db state
  ok state

-- `_load_worker_protocol_locked`
unfoldable pub load_worker_protocol : Database → String → Outcome WorkerTaskState
load_worker_protocol db id = elim (find_protocol db id) [
  | none ↦
      if has_task db id
      then raise (persistence_error "worker protocol is not bootstrapped for task")
      else raise (key_error "unknown task")
  | some r ↦ load_row db id r
]

-- ===== src/WorkerPersistence/Tests.antt =====
-- Calls of the registry for a task, and the theorems about them at concrete databases.
use localshell_web_superviso.Base.{
  ℕ, ◌≡◌, refl, true, ◌⊎◌, Option, none, some, String, List, [], ◌∷◌, ◌++◌, ok, arith, find, select,
  sort_by, insert_by, str_ltb, strip, ◌<◌,
}
use localshell_web_superviso.WorkerProtocol.State.{
  WorkerLeaseStatus, DurableTaskStatus, DecisionCode, EventKind, WorkerLease, WorkerTaskState,
  ProtocolEvent, ProtocolDecision, task_id, mutated,
}
use localshell_web_superviso.WorkerProtocol.Workers.{
  find_worker, active_workers, insert_worker, sorted_workers, substitute_worker, replace_worker,
  distinct_ids,
}
use localshell_web_superviso.WorkerProtocol.Checks.{
  validate_identity, check_current, validate_active, validate_handoff, validate_completion,
  validate_state, lease_is_fresh, preflight, stamp, accept, require_positive_lease,
}
use localshell_web_superviso.WorkerProtocol.Operations.{claim_worker}
use localshell_web_superviso.WorkerProtocol.Validity.{IsValid}
use localshell_web_superviso.WorkerProtocol.Spec.{claim, apply}
use localshell_web_superviso.WorkerProtocol.Traces.{Steps}
use localshell_web_superviso.WorkerProtocol.Revisions.{stale_decision}
use localshell_web_superviso.WorkerPersistence.Tables.{
  worker_rows, EventRow, TaskRow, WorkerRow, Database, lease_status_of, task_status_of,
}
use localshell_web_superviso.WorkerPersistence.Load.{
  lease_from_row, state_from_rows, validate_lineage_references, validate_lease, validate_lease_row,
  validate_task_row, validate_legacy_consistency, load_row, load_worker_protocol,
}
use localshell_web_superviso.WorkerPersistence.Persist.{
  release_window, insert_worker_row, update_worker_row, sync_worker, sync_legacy_workers,
  update_task, swap_protocol_task, upsert_protocol_lease, insert_event, append_events,
  persist_decision, task_values, lease_values,
}
use localshell_web_superviso.WorkerPersistence.Apply.{
  same_lease, same_leases, same_state, commit_decision, settle_decision, transact,
  apply_worker_protocol_transition,
}
use localshell_web_superviso.WorkerPersistence.FromRows.{
  check_legacy, lease_from_legacy, state_from_legacy,
}
use localshell_web_superviso.WorkerPersistence.Bootstrap.{
  optional_nonempty, resolve_lineage, insert_protocol_snapshot, bootstrap_task, bootstrap_new,
  bootstrap_worker_protocol,
}
use localshell_web_superviso.WorkerPersistence.Legacy.{IsSeen, bootstrap_grants_nothing}
use localshell_web_superviso.WorkerPersistence.Consistent.{load-IsValid}
use localshell_web_superviso.WorkerPersistence.Histories.{
  request, Runs, none_yet, then_request, histories_refine,
}
use localshell_web_superviso.WorkerPersistence.Writers.{
  IsWritten, calls_are_atomic, one_writer_commits,
}
use localshell_web_superviso.WorkerPersistence.Records.{Appends}
use localshell_web_superviso.WorkerPersistence.Log.{call_logs}
use localshell_web_superviso.WorkerPersistence.Rows.{no_leases, one_more, state_from_rows-values}

abbrev candidate_c : WorkerLease
candidate_c = record {
  worker_id = "c";
  task_id = "t";
  conversation_ref = some "u";
  status = WorkerLeaseStatus.candidate;
  registered_at = 10;
  generation = none;
  claimed_at = none;
  last_heartbeat_at = none;
  lease_expires_at = none;
  ended_at = none;
  superseded_by = none;
}

abbrev idle : WorkerTaskState
idle = record {
  lineage = record { task_id = "t"; parent_task_id = none; root_task_id = "t"; child_key = none };
  revision = 1;
  generation = 0;
  task_status = DurableTaskStatus.open_task;
  current_worker_id = none;
  handoff_target_worker_id = none;
  handoff_requested_at = none;
  workers = candidate_c ∷ [];
  completed_at = none;
  completion_ref = none;
}

abbrev claimed_lease : WorkerLease
claimed_lease = record candidate_c {
  status = WorkerLeaseStatus.active;
  generation = some 1;
  claimed_at = some 20;
  last_heartbeat_at = some 20;
  lease_expires_at = some 80;
}

abbrev busy : WorkerTaskState
busy = record idle {
  revision = 2;
  generation = 1;
  current_worker_id = some "c";
  workers = claimed_lease ∷ [];
}

abbrev claim_event : ProtocolEvent
claim_event = record {
  kind = EventKind.lease_claimed;
  task_id = "t";
  revision = 2;
  at = 20;
  worker_id = some "c";
  generation = some 1;
  related_worker_id = none;
  ref = none;
}

abbrev claimed : ProtocolDecision
claimed = record {
  accepted = true;
  code = DecisionCode.claimed;
  expected_revision = 1;
  state = busy;
  events = claim_event ∷ [];
}

abbrev task_row : Option String → ℕ → TaskRow
task_row current at = record {
  task_id = "t";
  state = "RUNNING";
  current_worker_id = current;
  updated_at = at;
}

abbrev worker_row : String → Option ℕ → WorkerRow
worker_row status seen = record {
  worker_id = "c";
  task_id = "t";
  conversation_url = "u";
  conversation_id = none;
  status = status;
  started_at = 10;
  last_seen_at = seen;
  ended_at = none;
}

-- a task with a registered candidate
abbrev db : Database
db = record {
  tasks = task_row none 10 ∷ [];
  workers = worker_row "parked" none ∷ [];
  protocol_tasks = task_values idle ∷ [];
  protocol_leases = lease_values candidate_c "u" ∷ [];
  protocol_events = [];
  window_bindings = [];
}

-- after the candidate has claimed the lease
abbrev claimed_db : Database
claimed_db = record {
  tasks = task_row (some "c") 20 ∷ [];
  workers = worker_row "active" (some 20) ∷ [];
  protocol_tasks = task_values busy ∷ [];
  protocol_leases = lease_values claimed_lease "u" ∷ [];
  protocol_events =
      record {
        task_id = "t";
        revision = 2;
        event_index = 0;
        kind = "lease_claimed";
        at = 20;
        worker_id = some "c";
        generation = some 1;
        related_worker_id = none;
        ref = none;
      }
      ∷ [];
  window_bindings = [];
}

loads : load_worker_protocol db "t" ≡ ok idle
unfolding load_worker_protocol load_row state_from_rows lease_from_row lease_status_of
    task_status_of validate_lineage_references validate_legacy_consistency validate_task_row
    validate_lease validate_lease_row find select sort_by insert_by str_ltb validate_state
    validate_identity validate_active check_current validate_handoff validate_completion
    active_workers distinct_ids
loads = refl

claims : request db "t" (claim "c" 20 60) 1 ≡ (ok claimed, claimed_db)
unfolding load_worker_protocol load_row state_from_rows lease_from_row lease_status_of
    task_status_of validate_lineage_references validate_legacy_consistency validate_task_row
    validate_lease validate_lease_row find select sort_by insert_by str_ltb validate_state
    validate_identity validate_active check_current validate_handoff validate_completion
    active_workers distinct_ids apply claim_worker require_positive_lease preflight accept stamp
    find_worker replace_worker sorted_workers substitute_worker insert_worker mutated
    apply_worker_protocol_transition transact settle_decision commit_decision persist_decision
    sync_legacy_workers sync_worker update_worker_row insert_worker_row release_window update_task
    swap_protocol_task upsert_protocol_lease append_events insert_event same_state same_leases
    same_lease
claims = refl

runs : Runs "t" db claimed_db
runs = then_request none_yet (claim "c" 20 60) 1 (omega arith) claims

histories_refine_example :
    (t : WorkerTaskState) × (load_worker_protocol claimed_db "t" ≡ ok t) × Steps idle t
histories_refine_example = histories_refine "t" loads runs

calls_are_atomic_example :
    ((apply_worker_protocol_transition db "t" 1 (λ s. apply s (claim "c" 20 60) 1)).1 ≡ db)
    ⊎ IsWritten "t" 1
        (apply_worker_protocol_transition db "t" 1 (λ s. apply s (claim "c" 20 60) 1)).0
        (apply_worker_protocol_transition db "t" 1 (λ s. apply s (claim "c" 20 60) 1)).1
calls_are_atomic_example = calls_are_atomic db "t" 1 (λ s. apply s (claim "c" 20 60) 1)

one_writer_commits_example :
    request claimed_db "t" (claim "c" 21 60) 1 ≡ (ok (stale_decision busy 1), claimed_db)
unfolding mutated
one_writer_commits_example =
    one_writer_commits db "t" (claim "c" 20 60) (claim "c" 21 60) 1 claims refl (omega arith)

call_logs_example :
    (rows : List EventRow) × ((apply_worker_protocol_transition db "t" 1
        (λ s. apply s (claim "c" 20 60) 1)).1.protocol_events
      ≡ db.protocol_events ++ rows)
    × Appends (apply_worker_protocol_transition db "t" 1 (λ s. apply s (claim "c" 20 60) 1)).0 rows
call_logs_example = call_logs db "t" 1 (λ s. apply s (claim "c" 20 60) 1)

idle-IsValid : IsValid idle
idle-IsValid = (load-IsValid db "t" loads).0

state_from_rows-values_example :
    state_from_rows (task_values idle) (lease_values candidate_c "u" ∷ []) ≡ ok idle
state_from_rows-values_example =
    state_from_rows-values idle (lease_values candidate_c "u" ∷ []) idle-IsValid
      (one_more candidate_c "u" refl no_leases)

-- an active worker that the registry knew before the protocol
abbrev old_db : Database
old_db = record db {
  tasks = task_row (some "c") 10 ∷ [];
  workers = worker_row "active" (some 30) ∷ [];
  protocol_tasks = [];
  protocol_leases = [];
}

abbrev old_lease : WorkerLease
old_lease = record candidate_c {
  status = WorkerLeaseStatus.active;
  generation = some 1;
  claimed_at = some 10;
  last_heartbeat_at = some 30;
  lease_expires_at = some 30;
}

abbrev old : WorkerTaskState
old = record idle {
  revision = 0;
  generation = 1;
  current_worker_id = some "c";
  workers = old_lease ∷ [];
}

abbrev old_after : Database
old_after = record old_db {
  protocol_tasks = task_values old ∷ [];
  protocol_leases = lease_values old_lease "u" ∷ [];
}

bootstraps : bootstrap_worker_protocol old_db "t" none none none ≡ (ok old, old_after)
unfolding find select sort_by insert_by str_ltb strip validate_state validate_identity
    validate_active check_current validate_handoff validate_completion active_workers distinct_ids
    sorted_workers insert_worker upsert_protocol_lease bootstrap_worker_protocol bootstrap_new
    bootstrap_task resolve_lineage optional_nonempty state_from_legacy check_legacy
    lease_from_legacy insert_protocol_snapshot
bootstraps = refl

bootstrap_grants_nothing_example :
    (seen : ℕ) × IsSeen (worker_rows old_db "t") "c" seen × (29 < seen)
unfolding lease_is_fresh find_worker find
bootstrap_grants_nothing_example =
    bootstrap_grants_nothing old_db "t" none none none "c" 29 refl bootstraps refl

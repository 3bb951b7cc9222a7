-- ===== src/WorkerPersistence/Persist.antt =====
-- src/lws/worker_persistence.py, `_persist_decision_locked` and what it calls. The constraints of
-- src/lws/db.py (keys, foreign keys) that a statement may violate raise `IntegrityError`.
use localshell_web_superviso.Base.{
  ℕ, suc, max, Bool, true, false, not, ◌&&◌, ◌||◌, Option, none, some, String, List, [], ◌∷◌, ◌++◌,
  any, map, select, ◌==◌, eqb, if◌then◌else◌, Outcome, ok, raise, persistence_error,
  integrity_error, raise_if, ◌>>=◌, ◌>>◌, for_each,
}
use localshell_web_superviso.WorkerProtocol.State.{
  TaskLineage, WorkerLease, WorkerTaskState, ProtocolEvent, ProtocolDecision, task_id, is_candidate,
  is_active, is_open,
}
use localshell_web_superviso.WorkerPersistence.Tables.{
  TaskRow, WorkerRow, ProtocolRow, LeaseRow, EventRow, Database, find_task, has_task, worker_rows,
  find_row, lease_status_value, task_status_value, event_kind_value, legacy_status,
}
use localshell_web_superviso.WorkerPersistence.Load.{same_id, same_identities}

-- `UPDATE ... WHERE test`
abbrev pub update_where {ℓ} : {A : Type ℓ} → (A → Bool) → (A → A) → List A → List A
update_where test change rows = map (λ r. if test r then change r else r) rows

abbrev pub has_worker : Database → String → Bool
has_worker db id = any (λ (r : WorkerRow). r.worker_id == id) db.workers

-- a nullable reference to `workers`, or to `tasks`
abbrev worker_reference : Database → Option String → Bool
worker_reference db none = true
worker_reference db (some id) = has_worker db id

abbrev task_reference : Database → Option String → Bool
task_reference db none = true
task_reference db (some id) = has_task db id

abbrev same_url : Option String → String → Bool
same_url none url = false
same_url (some ref) url = url == ref

-- `DELETE FROM worker_window_bindings`, for a worker that is not active
unfoldable pub release_window : WorkerLease → Database → Database
release_window w db =
    if is_active w.status
    then db
    else record db { window_bindings = select (λ id. not (id == w.worker_id)) db.window_bindings }

unfoldable pub insert_worker_row : WorkerLease → Database → Outcome Database
insert_worker_row w db = elim w.conversation_ref [
  | none ↦
      raise
        (persistence_error "only a registered protocol candidate may create a canonical worker row")
  | some url ↦ do
    raise_if (not (is_candidate w.status) || url == "")
        (persistence_error "only a registered protocol candidate may create a canonical worker row")
    raise_if (has_worker db w.worker_id || not (has_task db w.task_id)) (integrity_error "workers")
    ok (record db {
      workers =
          db.workers
          ++ record {
            worker_id = w.worker_id;
            task_id = w.task_id;
            conversation_url = url;
            conversation_id = none;
            status = legacy_status w.status;
            started_at = w.registered_at;
            last_seen_at = w.last_heartbeat_at;
            ended_at = w.ended_at;
          }
            ∷ [];
    })
]

unfoldable pub update_worker_row : String → WorkerRow → WorkerLease → Database → Outcome Database
update_worker_row id row w db = do
  raise_if (not (row.task_id == w.task_id))
      (persistence_error "worker id already belongs to another task")
  raise_if (not (same_url w.conversation_ref row.conversation_url))
      (persistence_error "protocol transition may not change canonical conversation URL")
  ok (record db {
    workers =
        update_where (λ (r : WorkerRow). r.worker_id == w.worker_id && r.task_id == id)
          (λ (r : WorkerRow). record r {
            status = legacy_status w.status;
            last_seen_at = w.last_heartbeat_at;
            ended_at = w.ended_at;
          })
          db.workers;
  })

abbrev pub write_worker_row : String → Option WorkerRow → WorkerLease → Database → Outcome Database
write_worker_row id none w db = insert_worker_row w db
write_worker_row id (some row) w db = update_worker_row id row w db

-- the body of the loop over the leases; `existing` are the rows before the loop
unfoldable pub sync_worker : String → List WorkerRow → WorkerLease → Database → Outcome Database
unfolding release_window
sync_worker id existing w db =
    write_worker_row id (find_row w.worker_id existing) w db >>= λ synced.
    ok (release_window w synced)

unfoldable pub sync_legacy_workers : WorkerTaskState → Database → Outcome Database
sync_legacy_workers s db = do
  synced ← for_each (sync_worker (task_id s) (worker_rows db (task_id s))) s.workers db
  raise_if (not (same_identities (worker_rows synced (task_id s)) s.workers))
      (persistence_error "protocol transition cannot ignore or delete canonical worker identities")
  ok synced

-- the latest of `t` and the times of the events
abbrev pub latest : ℕ → List ProtocolEvent → ℕ
latest t [] = t
latest t (e ∷ es) = latest (max t e.at) es

unfoldable pub update_task : ProtocolDecision → Database → Outcome Database
update_task d db = elim (find_task db (task_id d.state)) [
  | none ↦ raise (persistence_error "canonical task disappeared during transition")
  | some t ↦
      let state = if is_open d.state.task_status then t.state else "COMPLETED" in
      let at = latest t.updated_at d.events in
      ok (record db {
        tasks =
            update_where (λ (r : TaskRow). r.task_id == task_id d.state)
              (λ (r : TaskRow). record r {
                current_worker_id = d.state.current_worker_id;
                state = state;
                updated_at = at;
              })
              db.tasks;
      })
]

-- `WHERE task_id = ? AND revision = ?`
abbrev pub is_row_at : String → ℕ → ProtocolRow → Bool
is_row_at id rev r = r.task_id == id && eqb r.revision rev

-- `_task_values`
abbrev pub task_values : WorkerTaskState → ProtocolRow
task_values s = record {
  task_id = task_id s;
  revision = s.revision;
  generation = s.generation;
  task_status = task_status_value s.task_status;
  current_worker_id = s.current_worker_id;
  handoff_target_worker_id = s.handoff_target_worker_id;
  handoff_requested_at = s.handoff_requested_at;
  parent_task_id = s.lineage.parent_task_id;
  root_task_id = s.lineage.root_task_id;
  child_key = s.lineage.child_key;
  completed_at = s.completed_at;
  completion_ref = s.completion_ref;
}

abbrev pub references_hold : Database → WorkerTaskState → Bool
references_hold db s =
    worker_reference db s.current_worker_id
    && worker_reference db s.handoff_target_worker_id
    && task_reference db s.lineage.parent_task_id
    && has_task db s.lineage.root_task_id

-- The update finds one row of this task at the expected revision, or it fails.
unfoldable pub swap_protocol_task : WorkerTaskState → ℕ → Database → Outcome Database
swap_protocol_task s rev db = do
  raise_if (not (any (is_row_at (task_id s) rev) db.protocol_tasks))
      (persistence_error "worker protocol revision compare-and-swap failed during commit")
  raise_if (not (references_hold db s)) (integrity_error "worker_protocol_tasks")
  ok (record db {
    protocol_tasks =
        update_where (is_row_at (task_id s) rev) (λ _. task_values s) db.protocol_tasks;
  })

abbrev pub lease_values : WorkerLease → String → LeaseRow
lease_values w ref = record {
  worker_id = w.worker_id;
  task_id = w.task_id;
  conversation_ref = ref;
  status = lease_status_value w.status;
  registered_at = w.registered_at;
  generation = w.generation;
  claimed_at = w.claimed_at;
  last_heartbeat_at = w.last_heartbeat_at;
  lease_expires_at = w.lease_expires_at;
  ended_at = w.ended_at;
  superseded_by = w.superseded_by;
}

-- `INSERT ... ON CONFLICT(worker_id) DO UPDATE`
abbrev pub put_lease : LeaseRow → List LeaseRow → List LeaseRow
put_lease r [] = r ∷ []
put_lease r (x ∷ xs) = if x.worker_id == r.worker_id then r ∷ xs else x ∷ put_lease r xs

unfoldable pub upsert_protocol_lease : WorkerLease → Database → Outcome Database
upsert_protocol_lease w db = elim w.conversation_ref [
  | none ↦
      raise
        (persistence_error "persisted worker protocol requires a canonical conversation reference")
  | some ref ↦ do
    raise_if (ref == "")
        (persistence_error "persisted worker protocol requires a canonical conversation reference")
    raise_if
        (not (
          has_worker db w.worker_id
          && has_task db w.task_id
          && worker_reference db w.superseded_by))
        (integrity_error "worker_protocol_leases")
    ok (record db { protocol_leases = put_lease (lease_values w ref) db.protocol_leases })
]

abbrev pub event_values : ProtocolEvent → ℕ → EventRow
event_values e index = record {
  task_id = e.task_id;
  revision = e.revision;
  event_index = index;
  kind = event_kind_value e.kind;
  at = e.at;
  worker_id = e.worker_id;
  generation = e.generation;
  related_worker_id = e.related_worker_id;
  ref = e.ref;
}

-- UNIQUE(task_id, revision, event_index)
abbrev pub same_slot : EventRow → EventRow → Bool
same_slot a b =
    a.task_id == b.task_id && eqb a.revision b.revision && eqb a.event_index b.event_index

unfoldable pub insert_event : EventRow → Database → Outcome Database
insert_event r db = do
  raise_if (any (same_slot r) db.protocol_events || not (has_task db r.task_id))
      (integrity_error "worker_protocol_events")
  ok (record db { protocol_events = db.protocol_events ++ r ∷ [] })

-- `by_revision.get(revision, 0)`: how many of the events `before` have this revision
abbrev pub count_at : ℕ → List ProtocolEvent → ℕ
count_at rev [] = 0
count_at rev (e ∷ es) = let rest = count_at rev es in if eqb e.revision rev then suc rest else rest

-- the loop; `before` are the events already written
unfoldable pub append_events : List ProtocolEvent → List ProtocolEvent → Database → Outcome Database
append_events before [] db = ok db
append_events before (e ∷ es) db =
    insert_event (event_values e (count_at e.revision before)) db >>= append_events (e ∷ before) es

abbrev pub same_lineage : TaskLineage → TaskLineage → Bool
same_lineage a b =
    a.task_id == b.task_id
    && same_id a.parent_task_id b.parent_task_id
    && a.root_task_id == b.root_task_id
    && same_id a.child_key b.child_key

unfoldable pub persist_decision :
    WorkerTaskState → ProtocolDecision → ℕ → Database → Outcome Database
persist_decision previous d rev db = do
  synced ← sync_legacy_workers d.state db
  updated ← update_task d synced
  swapped ← swap_protocol_task d.state rev updated
  leased ← for_each upsert_protocol_lease d.state.workers swapped
  appended ← append_events [] d.events leased
  raise_if (not (same_lineage previous.lineage d.state.lineage))
      (persistence_error "pure transition may not mutate task lineage")
  ok appended

-- ===== src/WorkerPersistence/Apply.antt =====
-- src/lws/worker_persistence.py, `apply_worker_protocol_transition`: one transition, written or
-- rolled back. The transaction begins with BEGIN IMMEDIATE, so the runs of it follow one another.
use localshell_web_superviso.Base.{
  ℕ, ◌+◌, min, max, Bool, true, false, not, ◌&&◌, ◌||◌, Option, none, some, is_some, String, List,
  [], ◌∷◌, any, is_empty, select, take, sort_by, ltb, ◌==◌, eqb, if◌then◌else◌, Outcome, ok, raise,
  persistence_error, raise_if, ◌>>=◌, ◌>>◌, collect,
}
use localshell_web_superviso.WorkerProtocol.State.{
  WorkerLease, WorkerTaskState, ProtocolEvent, ProtocolDecision, task_id, mutated,
}
use localshell_web_superviso.WorkerProtocol.Checks.{validate_state}
use localshell_web_superviso.WorkerPersistence.Tables.{
  EventRow, Database, find_protocol, lease_status_value, task_status_value, event_kind_of,
}
use localshell_web_superviso.WorkerPersistence.Load.{same_id, load_worker_protocol}
use localshell_web_superviso.WorkerPersistence.Persist.{same_lineage, persist_decision}

abbrev pub same_number : Option ℕ → Option ℕ → Bool
same_number none none = true
same_number (some a) (some b) = eqb a b
same_number _ _ = false

-- `==` on the dataclasses; members of an enumeration are compared by their values
unfoldable pub same_lease : WorkerLease → WorkerLease → Bool
same_lease a b =
    a.worker_id == b.worker_id
    && a.task_id == b.task_id
    && same_id a.conversation_ref b.conversation_ref
    && lease_status_value a.status == lease_status_value b.status
    && eqb a.registered_at b.registered_at
    && same_number a.generation b.generation
    && same_number a.claimed_at b.claimed_at
    && same_number a.last_heartbeat_at b.last_heartbeat_at
    && same_number a.lease_expires_at b.lease_expires_at
    && same_number a.ended_at b.ended_at
    && same_id a.superseded_by b.superseded_by

unfoldable pub same_leases : List WorkerLease → List WorkerLease → Bool
same_leases [] [] = true
same_leases (a ∷ rest) (b ∷ others) = same_lease a b && same_leases rest others
same_leases _ _ = false

unfoldable pub same_state : WorkerTaskState → WorkerTaskState → Bool
same_state a b =
    same_lineage a.lineage b.lineage
    && eqb a.revision b.revision
    && eqb a.generation b.generation
    && task_status_value a.task_status == task_status_value b.task_status
    && same_id a.current_worker_id b.current_worker_id
    && same_id a.handoff_target_worker_id b.handoff_target_worker_id
    && same_number a.handoff_requested_at b.handoff_requested_at
    && same_leases a.workers b.workers
    && same_number a.completed_at b.completed_at
    && same_id a.completion_ref b.completion_ref

abbrev pub protocol_state_exists : Database → String → Bool
protocol_state_exists db id = is_some (find_protocol db id)

-- the checks of an accepted mutation, and the writes
unfoldable pub commit_decision :
    Database → String → ℕ → WorkerTaskState → ProtocolDecision → Outcome Database
commit_decision db id rev s d = do
  raise_if (not d.accepted) (persistence_error "rejected transition cannot be a mutation")
  raise_if (not (eqb d.state.revision (rev + 1)))
      (persistence_error "accepted mutation must advance one revision")
  raise_if (is_empty d.events) (persistence_error "accepted protocol mutation must append an event")
  raise_if
      (any (λ (e : ProtocolEvent). not (e.task_id == id) || not (eqb e.revision d.state.revision))
        d.events)
      (persistence_error "protocol event task/revision mismatch")
  validate_state d.state
  persisted ← persist_decision s d rev db
  reloaded ← load_worker_protocol persisted id
  raise_if (not (same_state reloaded d.state))
      (persistence_error "persisted worker protocol does not round-trip to the accepted pure state")
  ok persisted

-- the rest of the `try`, from the decision on; a decision that is no mutation is rolled back
unfoldable pub settle_decision :
    Database
    → String
    → ℕ
    → WorkerTaskState
    → ProtocolDecision
    → Outcome (ProtocolDecision × Database)
settle_decision db id rev s d = do
  raise_if (not (eqb d.expected_revision rev))
      (persistence_error "transition decision expected_revision does not match registry request")
  raise_if (not (task_id d.state == id))
      (persistence_error "transition changed durable task identity")
  (if mutated d
      then (commit_decision db id rev s d >>= λ committed. ok (d, committed))
      else ok (d, db))

-- the body of the `try`
unfoldable pub transact :
    Database
    → String
    → ℕ
    → (WorkerTaskState → Outcome ProtocolDecision)
    → Outcome (ProtocolDecision × Database)
transact db id rev transition = do
  s ← load_worker_protocol db id
  d ← transition s
  settle_decision db id rev s d

-- `except BaseException`: roll back, and raise again
abbrev pub or_rollback {ℓ} : {A : Type ℓ} → Database → Outcome (A × Database) → Outcome A × Database
or_rollback db (ok (a, committed)) = (ok a, committed)
or_rollback db (raise e) = (raise e, db)

unfoldable pub apply_worker_protocol_transition :
    Database
    → String
    → ℕ
    → (WorkerTaskState → Outcome ProtocolDecision)
    → Outcome ProtocolDecision × Database
unfolding transact
apply_worker_protocol_transition db id rev transition =
    or_rollback db (transact db id rev transition)

abbrev event_from_row : EventRow → Outcome ProtocolEvent
event_from_row r = do
  kind ← event_kind_of r.kind
  ok (record {
    kind = kind;
    task_id = r.task_id;
    revision = r.revision;
    at = r.at;
    worker_id = r.worker_id;
    generation = r.generation;
    related_worker_id = r.related_worker_id;
    ref = r.ref;
  })

-- `ORDER BY revision ASC, event_index ASC`
abbrev event_before : EventRow → EventRow → Bool
event_before a b =
    ltb a.revision b.revision || (eqb a.revision b.revision && ltb a.event_index b.event_index)

unfoldable pub worker_protocol_events : Database → String → ℕ → Outcome (List ProtocolEvent)
worker_protocol_events db id limit = collect event_from_row (
    take (max 1 (min limit 2000))
      (sort_by event_before (select (λ (r : EventRow). r.task_id == id) db.protocol_events)))

-- ===== src/WorkerProtocol/Checks.antt =====
-- src/lws/worker_protocol.py, the checks that every operation makes: the invariant of a snapshot, the
-- revision, the authority of the calling worker, and the freshness of its lease.
use localshell_web_superviso.Base.{
  ℕ, ◌+◌, Bool, true, false, not, ◌&&◌, ◌||◌, Option, none, some, is_some, String, List, [], ◌∷◌,
  length, is_empty, any, ◌==◌, ltb, eqb, max, if◌then◌else◌, Outcome, ok, raise, value_error,
  invariant_error, raise_if, ◌>>◌,
}
use localshell_web_superviso.WorkerProtocol.State.{
  DecisionCode, WorkerLease, WorkerTaskState, ProtocolEvent, ProtocolDecision, task_id,
  is_candidate, is_active, is_open,
}
use localshell_web_superviso.WorkerProtocol.Workers.{worker_by_id, active_workers, distinct_ids}

-- equality of an optional id or number with a given one; `None` equals no value
abbrev pub is_id : Option String → String → Bool
is_id none id = false
is_id (some a) id = a == id

abbrev pub is_number : Option ℕ → ℕ → Bool
is_number none n = false
is_number (some a) n = eqb a n

abbrev pub text_empty : Option String → Bool
text_empty none = true
text_empty (some t) = t == ""

-- the tests on `current_worker_id` against the list `active` of the active workers
unfoldable pub check_current : Option String → ℕ → List WorkerLease → Outcome (Unit {0})
check_current none generation active =
    raise_if (not (is_empty active))
      (invariant_error "active worker exists without current_worker_id")
check_current (some current) generation (w ∷ []) = do
  raise_if (not (w.worker_id == current))
      (invariant_error "current_worker_id must identify exactly one active worker")
  raise_if (not (is_number w.generation generation) || not (ltb 0 generation))
      (invariant_error "current worker must own the current positive generation")
  raise_if (not (is_some w.lease_expires_at))
      (invariant_error "current worker requires a lease expiry")
check_current (some current) generation _ =
    raise (invariant_error "current_worker_id must identify exactly one active worker")

unfoldable pub validate_active : WorkerTaskState → Outcome (Unit {0})
validate_active s = check_current s.current_worker_id s.generation (active_workers s.workers)

unfoldable pub validate_handoff : WorkerTaskState → Outcome (Unit {0})
validate_handoff s = elim s.handoff_target_worker_id [
  | none ↦
      raise_if (is_some s.handoff_requested_at)
        (invariant_error "handoff timestamp cannot exist without a target")
  | some target_id ↦ do
    raise_if (not (is_some s.current_worker_id) || not (is_some s.handoff_requested_at))
        (invariant_error "handoff requires a current worker and request timestamp")
    elim (worker_by_id s target_id) [
      | none ↦ raise (invariant_error "handoff target must be a registered candidate")
      | some target ↦
          raise_if (not (is_candidate target.status))
            (invariant_error "handoff target must be a registered candidate")
    ]
]

unfoldable pub validate_completion : WorkerTaskState → Outcome (Unit {0})
validate_completion s = if is_open s.task_status then ok tt else do
  raise_if (is_some s.current_worker_id)
      (invariant_error "completed durable task cannot retain an active worker")
  raise_if (not (is_some s.completed_at) || text_empty s.completion_ref)
      (invariant_error "completed durable task requires completion metadata")

unfoldable pub validate_identity : WorkerTaskState → Outcome (Unit {0})
validate_identity s = do
  raise_if (not (is_some s.lineage.parent_task_id) && not (s.lineage.root_task_id == task_id s))
      (invariant_error "root task must name itself as root_task_id")
  raise_if (not (eqb (distinct_ids s.workers) (length s.workers)))
      (invariant_error "worker ids must be unique per durable task")
  raise_if (any (λ (w : WorkerLease). not (w.task_id == task_id s)) s.workers)
      (invariant_error "every worker must be registered against this durable task")

unfoldable pub validate_state : WorkerTaskState → Outcome (Unit {0})
validate_state s = do
  validate_identity s
  validate_active s
  validate_handoff s
  validate_completion s

unfoldable pub reject : WorkerTaskState → DecisionCode → ProtocolDecision
reject s code = record {
  accepted = false;
  code = code;
  expected_revision = s.revision;
  state = s;
  events = [];
}

-- Either the decision with which an operation returns at once, or the rest of the operation.
abbrev pub unless_rejected :
    Option ProtocolDecision → Outcome ProtocolDecision → Outcome ProtocolDecision
unless_rejected none rest = rest
unless_rejected (some decision) rest = ok decision

unfoldable pub preflight : WorkerTaskState → ℕ → Outcome (Option ProtocolDecision)
preflight s expected_revision = do
  validate_state s
  ok (
      if eqb expected_revision s.revision
      then none
      else some (record {
        accepted = false;
        code = DecisionCode.stale_revision;
        expected_revision = expected_revision;
        state = s;
        events = [];
      }))

unfoldable pub lease_is_fresh : WorkerTaskState → String → ℕ → Bool
lease_is_fresh s worker_id now = elim (worker_by_id s worker_id) [
  | none ↦ false
  | some w ↦
      is_open s.task_status
      && is_id s.current_worker_id worker_id
      && is_active w.status
      && is_number w.generation s.generation
      && elim w.lease_expires_at [ none ↦ false | some expires ↦ ltb now expires ]
]

-- `timeline and now < max(timeline)`, over the two optional times
abbrev pub before_timeline : ℕ → Option ℕ → Option ℕ → Bool
before_timeline now none none = false
before_timeline now (some c) none = ltb now c
before_timeline now none (some h) = ltb now h
before_timeline now (some c) (some h) = ltb now (max c h)

unfoldable pub authority_rejection : WorkerTaskState → String → ℕ → ℕ → Option ProtocolDecision
unfolding reject
authority_rejection s worker_id generation now =
    if not (is_open s.task_status)
    then some (reject s DecisionCode.task_closed)
    else elim (worker_by_id s worker_id) [
      | none ↦ some (reject s DecisionCode.unknown_worker)
      | some w ↦
          if not (is_id s.current_worker_id worker_id) || not (is_active w.status)
          then some (reject s DecisionCode.fenced_worker)
          else if not (eqb generation s.generation) || not (is_number w.generation generation)
          then some (reject s DecisionCode.stale_generation)
          else if before_timeline now w.claimed_at w.last_heartbeat_at
          then some (reject s DecisionCode.clock_rollback)
          else if not (lease_is_fresh s worker_id now)
          then some (reject s DecisionCode.lease_expired)
          else none
    ]

-- the event with the revision of the new snapshot
unfoldable pub stamp : ℕ → List ProtocolEvent → List ProtocolEvent
stamp revision [] = []
stamp revision (e ∷ es) = record e { revision = revision } ∷ stamp revision es

unfoldable pub accept :
    WorkerTaskState → WorkerTaskState → DecisionCode → List ProtocolEvent → Outcome ProtocolDecision
accept previous target code events =
    let revision = previous.revision + 1 in
    let next_state = record target { revision = revision } in
    validate_state next_state
    >> ok (record {
      accepted = true;
      code = code;
      expected_revision = previous.revision;
      state = next_state;
      events = stamp revision events;
    })

unfoldable pub require_positive_lease : ℕ → Outcome (Unit {0})
require_positive_lease lease_seconds =
    raise_if (not (ltb 0 lease_seconds)) (value_error "lease_seconds must be positive")

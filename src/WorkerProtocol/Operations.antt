-- ===== src/WorkerProtocol/Operations.antt =====
-- src/lws/worker_protocol.py, the operations: each maps a snapshot to a decision, or raises.
use localshell_web_superviso.Base.{
  ℕ, ◌+◌, Bool, true, false, not, ◌&&◌, ◌||◌, Option, none, some, is_some, String, [], ◌∷◌, ◌++◌,
  strip, ◌==◌, if◌then◌else◌, Outcome, ok, raise, value_error, raise_if, assert_some, ◌>>=◌, ◌>>◌,
}
use localshell_web_superviso.WorkerProtocol.State.{
  WorkerLeaseStatus, DurableTaskStatus, DecisionCode, EventKind, TakeoverReason, WorkerLease,
  WorkerTaskState, task_id, ProtocolEvent, ProtocolDecision, TakeoverEligibility, is_candidate,
  is_open,
}
use localshell_web_superviso.WorkerProtocol.Workers.{worker_by_id, sorted_workers, replace_worker}
use localshell_web_superviso.WorkerProtocol.Checks.{
  is_id, validate_state, reject, unless_rejected, preflight, lease_is_fresh, authority_rejection,
  accept, require_positive_lease,
}

-- the snapshot that a lineage starts with: the field defaults of the dataclass
unfoldable pub initial_state : String → Option String → String → Option String → WorkerTaskState
initial_state id parent root child_key = record {
  lineage = record {
    task_id = id;
    parent_task_id = parent;
    root_task_id = root;
    child_key = child_key;
  };
  revision = 0;
  generation = 0;
  task_status = DurableTaskStatus.open_task;
  current_worker_id = none;
  handoff_target_worker_id = none;
  handoff_requested_at = none;
  workers = [];
  completed_at = none;
  completion_ref = none;
}

-- the branches on `parent_task_id`, which give the parent and the root
unfoldable pub resolve_root :
    String → Option String → Option String → Outcome (Option String × String)
resolve_root id none root_task_id = do
  raise_if (is_some root_task_id && not (is_id root_task_id id))
      (value_error "a root task's root_task_id must equal task_id")
  ok (none, id)
resolve_root id (some parent) root_task_id = do
  raise_if (strip parent == "") (value_error "parent_task_id must be non-empty when supplied")
  elim root_task_id [
    | none ↦ raise (value_error "child tasks require an explicit root_task_id")
    | some root ↦ do
      raise_if (root == "" || strip root == "")
          (value_error "child tasks require an explicit root_task_id")
      ok (some (strip parent), strip root)
  ]

unfoldable pub new_task_state :
    String → Option String → Option String → Option String → Outcome WorkerTaskState
new_task_state task_id parent_task_id root_task_id child_key = do
  let id = strip task_id
  raise_if (id == "") (value_error "task_id must be non-empty")
  (parent, root) ← resolve_root id parent_task_id root_task_id
  let s = initial_state id parent root child_key
  validate_state s
  ok s

-- the eligibility of a candidate, once the snapshot has been validated
unfoldable pub eligibility_of : WorkerTaskState → String → ℕ → TakeoverEligibility
eligibility_of s candidate_worker_id now =
    if not (is_open s.task_status)
    then verdict false TakeoverReason.task_closed
    else elim (worker_by_id s candidate_worker_id) [
      | none ↦ verdict false TakeoverReason.unknown_candidate
      | some candidate ↦
          if not (is_candidate candidate.status)
          then verdict false TakeoverReason.not_candidate
          else elim s.current_worker_id [
            | none ↦ verdict false TakeoverReason.no_active_worker
            | some current ↦
                if is_id s.handoff_target_worker_id candidate_worker_id
                then verdict true TakeoverReason.handoff
                else if not (lease_is_fresh s current now)
                then verdict true TakeoverReason.lease_expired
                else verdict false TakeoverReason.active_lease_fresh
          ]
    ]
  where
    verdict : Bool → TakeoverReason → TakeoverEligibility
    verdict eligible reason = record {
      eligible = eligible;
      reason = reason;
      active_worker_id = s.current_worker_id;
      generation = s.generation;
    }

unfoldable pub takeover_eligibility : WorkerTaskState → String → ℕ → Outcome TakeoverEligibility
takeover_eligibility s candidate_worker_id now = do
  validate_state s
  ok (eligibility_of s candidate_worker_id now)

-- an event as the operations build it, with revision 0
abbrev pub event :
    WorkerTaskState
    → EventKind
    → ℕ
    → Option String
    → Option ℕ
    → Option String
    → Option String
    → ProtocolEvent
event s kind now worker_id generation related_worker_id ref = record {
  kind = kind;
  task_id = task_id s;
  revision = 0;
  at = now;
  worker_id = worker_id;
  generation = generation;
  related_worker_id = related_worker_id;
  ref = ref;
}

abbrev pub new_candidate : WorkerTaskState → String → Option String → ℕ → WorkerLease
new_candidate s worker_id conversation_ref now = record {
  worker_id = worker_id;
  task_id = task_id s;
  conversation_ref = conversation_ref;
  status = WorkerLeaseStatus.candidate;
  registered_at = now;
  generation = none;
  claimed_at = none;
  last_heartbeat_at = none;
  lease_expires_at = none;
  ended_at = none;
  superseded_by = none;
}

unfoldable pub register_worker :
    WorkerTaskState → String → Option String → ℕ → ℕ → Outcome ProtocolDecision
register_worker s worker_id conversation_ref now expected_revision = do
  rejected ← preflight s expected_revision
  unless_rejected rejected (
      if not (is_open s.task_status) then ok (reject s DecisionCode.task_closed) else do
        let id = strip worker_id
        raise_if (id == "") (value_error "worker_id must be non-empty")
        elim (worker_by_id s id) [
          | some existing ↦ ok (record {
            accepted = true;
            code = DecisionCode.already_registered;
            expected_revision = s.revision;
            state = s;
            events = [];
          })
          | none ↦
              accept s
                (record s {
                  workers =
                      sorted_workers (s.workers ++ new_candidate s id conversation_ref now ∷ []);
                })
                DecisionCode.registered
                (event s EventKind.worker_registered now (some id) none none none ∷ [])
        ])

-- a lease that becomes the active one
abbrev pub claim_lease : WorkerLease → ℕ → ℕ → ℕ → WorkerLease
claim_lease w generation now lease_seconds = record w {
  status = WorkerLeaseStatus.active;
  generation = some generation;
  claimed_at = some now;
  last_heartbeat_at = some now;
  lease_expires_at = some (now + lease_seconds);
}

unfoldable pub claim_worker : WorkerTaskState → String → ℕ → ℕ → ℕ → Outcome ProtocolDecision
claim_worker s worker_id now lease_seconds expected_revision = do
  require_positive_lease lease_seconds
  rejected ← preflight s expected_revision
  unless_rejected rejected (
      if not (is_open s.task_status)
      then ok (reject s DecisionCode.task_closed)
      else elim (worker_by_id s worker_id) [
        | none ↦ ok (reject s DecisionCode.unknown_worker)
        | some worker ↦
            if not (is_candidate worker.status)
            then ok (reject s DecisionCode.not_candidate)
            else if is_some s.current_worker_id
            then ok (reject s DecisionCode.active_worker_present)
            else (let generation = s.generation + 1 in
                accept s
                  (record s {
                    generation = generation;
                    current_worker_id = some worker_id;
                    handoff_target_worker_id = none;
                    handoff_requested_at = none;
                    workers =
                        replace_worker s.workers (claim_lease worker generation now lease_seconds);
                  })
                  DecisionCode.claimed
                  (event s EventKind.lease_claimed now (some worker_id) (some generation) none none
                    ∷ []))
      ])

unfoldable pub heartbeat_worker :
    WorkerTaskState → String → ℕ → ℕ → ℕ → ℕ → Outcome ProtocolDecision
heartbeat_worker s worker_id generation now lease_seconds expected_revision = do
  require_positive_lease lease_seconds
  rejected ← preflight s expected_revision
  unless_rejected rejected (
      unless_rejected (authority_rejection s worker_id generation now) (do
        worker ← assert_some (worker_by_id s worker_id)
        accept s
            (record s {
              workers = replace_worker s.workers (record worker {
                last_heartbeat_at = some now;
                lease_expires_at = some (now + lease_seconds);
              });
            })
            DecisionCode.heartbeat_recorded
            (event s EventKind.heartbeat_accepted now (some worker_id) (some generation) none none
              ∷ [])))

unfoldable pub request_handoff :
    WorkerTaskState → String → String → ℕ → ℕ → ℕ → Outcome ProtocolDecision
request_handoff s worker_id target_worker_id generation now expected_revision = do
  rejected ← preflight s expected_revision
  unless_rejected rejected (
      unless_rejected (authority_rejection s worker_id generation now)
        (elim (worker_by_id s target_worker_id) [
          | none ↦ ok (reject s DecisionCode.invalid_handoff_target)
          | some target ↦
              if not (is_candidate target.status)
              then ok (reject s DecisionCode.invalid_handoff_target)
              else accept s
                  (record s {
                    handoff_target_worker_id = some target_worker_id;
                    handoff_requested_at = some now;
                  })
                  DecisionCode.handoff_requested
                  (event s EventKind.handoff_requested now (some worker_id) (some generation)
                      (some target_worker_id) none
                    ∷ [])
        ]))

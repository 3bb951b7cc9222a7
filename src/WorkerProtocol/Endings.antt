-- ===== src/WorkerProtocol/Endings.antt =====
-- src/lws/worker_protocol.py, the operations that end a lease: takeover, completion, abandonment.
use localshell_web_superviso.Base.{
  ℕ, ◌+◌, not, ◌||◌, none, some, is_some, String, [], ◌∷◌, strip, ◌==◌, eqb, if◌then◌else◌, Outcome,
  ok, assert_some, ◌>>=◌, ◌>>◌,
}
use localshell_web_superviso.WorkerProtocol.State.{
  WorkerLeaseStatus, DurableTaskStatus, DecisionCode, EventKind, TakeoverReason,
  takeover_reason_value, WorkerLease, WorkerTaskState, ProtocolDecision, is_active, is_open,
}
use localshell_web_superviso.WorkerProtocol.Workers.{worker_by_id, replace_worker}
use localshell_web_superviso.WorkerProtocol.Checks.{
  is_id, is_number, reject, unless_rejected, preflight, authority_rejection, accept,
  require_positive_lease,
}
use localshell_web_superviso.WorkerProtocol.Operations.{event, claim_lease, takeover_eligibility}

-- the code with which an ineligible takeover is rejected
abbrev pub rejection_code : TakeoverReason → DecisionCode
rejection_code TakeoverReason.task_closed = DecisionCode.task_closed
rejection_code TakeoverReason.unknown_candidate = DecisionCode.unknown_worker
rejection_code TakeoverReason.not_candidate = DecisionCode.not_candidate
rejection_code TakeoverReason.no_active_worker = DecisionCode.no_active_worker
rejection_code TakeoverReason.active_lease_fresh = DecisionCode.takeover_not_eligible
rejection_code TakeoverReason.handoff = DecisionCode.takeover_not_eligible
rejection_code TakeoverReason.lease_expired = DecisionCode.takeover_not_eligible

-- a lease that a takeover ends
abbrev pub superseded_lease : WorkerLease → ℕ → String → WorkerLease
superseded_lease w now successor = record w {
  status = WorkerLeaseStatus.superseded;
  ended_at = some now;
  superseded_by = some successor;
}

-- a lease that its worker, or the supervisor, ends
abbrev pub ended_lease : WorkerLease → WorkerLeaseStatus → ℕ → WorkerLease
ended_lease w status now = record w {
  status = status;
  ended_at = some now;
  lease_expires_at = some now;
}

-- the granted takeover
unfoldable pub grant_takeover :
    WorkerTaskState → String → ℕ → ℕ → TakeoverReason → Outcome ProtocolDecision
grant_takeover s candidate_worker_id now lease_seconds reason = do
  old_worker_id ← assert_some s.current_worker_id
  old_worker ← assert_some (worker_by_id s old_worker_id)
  candidate ← assert_some (worker_by_id s candidate_worker_id)
  let generation = s.generation + 1
  let fenced = replace_worker s.workers (superseded_lease old_worker now candidate_worker_id)
  accept s
      (record s {
        generation = generation;
        current_worker_id = some candidate_worker_id;
        handoff_target_worker_id = none;
        handoff_requested_at = none;
        workers = replace_worker fenced (claim_lease candidate generation now lease_seconds);
      })
      DecisionCode.takeover_granted
      (event s EventKind.worker_superseded now (some old_worker_id) old_worker.generation
          (some candidate_worker_id) none
        ∷ event s EventKind.lease_taken_over now (some candidate_worker_id) (some generation)
            (some old_worker_id) (some (takeover_reason_value reason))
        ∷ [])

unfoldable pub takeover_worker : WorkerTaskState → String → ℕ → ℕ → ℕ → Outcome ProtocolDecision
takeover_worker s candidate_worker_id now lease_seconds expected_revision = do
  require_positive_lease lease_seconds
  rejected ← preflight s expected_revision
  unless_rejected rejected (do
    eligibility ← takeover_eligibility s candidate_worker_id now
    if not eligibility.eligible
        then ok (reject s (rejection_code eligibility.reason))
        else grant_takeover s candidate_worker_id now lease_seconds eligibility.reason)

-- the snapshot without a current worker, in which `ended` stands for the lease that has ended
abbrev pub without_current : WorkerTaskState → WorkerLease → WorkerTaskState
without_current s ended = record s {
  current_worker_id = none;
  handoff_target_worker_id = none;
  handoff_requested_at = none;
  workers = replace_worker s.workers ended;
}

unfoldable pub complete_worker : WorkerTaskState → String → ℕ → ℕ → ℕ → Outcome ProtocolDecision
complete_worker s worker_id generation now expected_revision = do
  rejected ← preflight s expected_revision
  unless_rejected rejected (
      unless_rejected (authority_rejection s worker_id generation now) (do
        worker ← assert_some (worker_by_id s worker_id)
        accept s (without_current s (ended_lease worker WorkerLeaseStatus.completed now))
            DecisionCode.worker_completed
            (event s EventKind.worker_completed now (some worker_id) (some generation) none none
              ∷ [])))

unfoldable pub abandon_worker : WorkerTaskState → String → ℕ → ℕ → ℕ → Outcome ProtocolDecision
abandon_worker s worker_id generation now expected_revision = do
  rejected ← preflight s expected_revision
  unless_rejected rejected (
      if not (is_open s.task_status)
      then ok (reject s DecisionCode.task_closed)
      else elim (worker_by_id s worker_id) [
        | none ↦ ok (reject s DecisionCode.unknown_worker)
        | some worker ↦
            if not (is_id s.current_worker_id worker_id) || not (is_active worker.status)
            then ok (reject s DecisionCode.fenced_worker)
            else if not (eqb generation s.generation)
                || not (is_number worker.generation generation)
            then ok (reject s DecisionCode.stale_generation)
            else accept s (without_current s (ended_lease worker WorkerLeaseStatus.abandoned now))
                DecisionCode.worker_abandoned
                (event s EventKind.worker_abandoned now (some worker_id) (some generation) none none
                  ∷ [])
      ])

unfoldable pub complete_task : WorkerTaskState → String → ℕ → ℕ → Outcome ProtocolDecision
complete_task s completion_ref now expected_revision = do
  rejected ← preflight s expected_revision
  unless_rejected rejected (
      if not (is_open s.task_status)
      then ok (reject s DecisionCode.task_closed)
      else if is_some s.current_worker_id
      then ok (reject s DecisionCode.active_worker_must_end)
      else if strip completion_ref == ""
      then ok (reject s DecisionCode.completion_ref_required)
      else accept s
          (record s {
            task_status = DurableTaskStatus.completed_task;
            completed_at = some now;
            completion_ref = some (strip completion_ref);
          })
          DecisionCode.task_completed
          (event s EventKind.task_completed now none (some s.generation) none
              (some (strip completion_ref))
            ∷ []))

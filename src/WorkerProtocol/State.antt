-- ===== src/WorkerProtocol/State.antt =====
-- src/lws/worker_protocol.py, the data of the protocol: statuses, decision codes, leases, snapshots.
-- Times are whole milliseconds; revisions and generations are ℕ, so that the test for a negative
-- one in `validate_state` cannot fail here.
use localshell_web_superviso.Base.{ℕ, ◌+◌, Bool, true, false, ◌&&◌, Option, String, List, eqb}

pub data WorkerLeaseStatus : Type 0 where
  candidate active superseded completed abandoned : WorkerLeaseStatus

pub data DurableTaskStatus : Type 0 where
  open_task completed_task : DurableTaskStatus

pub data DecisionCode : Type 0 where
  registered already_registered claimed heartbeat_recorded handoff_requested takeover_granted
        worker_completed worker_abandoned task_completed stale_revision task_closed unknown_worker
        not_candidate active_worker_present no_active_worker fenced_worker stale_generation
        lease_expired clock_rollback invalid_handoff_target takeover_not_eligible
        active_worker_must_end completion_ref_required :
      DecisionCode

pub data EventKind : Type 0 where
  worker_registered lease_claimed heartbeat_accepted handoff_requested worker_superseded
        lease_taken_over worker_completed worker_abandoned task_completed :
      EventKind

pub data TakeoverReason : Type 0 where
  handoff lease_expired active_lease_fresh no_active_worker unknown_candidate not_candidate
        task_closed :
      TakeoverReason

-- `TakeoverReason.value`
abbrev pub takeover_reason_value : TakeoverReason → String
takeover_reason_value TakeoverReason.handoff = "handoff"
takeover_reason_value TakeoverReason.lease_expired = "lease_expired"
takeover_reason_value TakeoverReason.active_lease_fresh = "active_lease_fresh"
takeover_reason_value TakeoverReason.no_active_worker = "no_active_worker"
takeover_reason_value TakeoverReason.unknown_candidate = "unknown_candidate"
takeover_reason_value TakeoverReason.not_candidate = "not_candidate"
takeover_reason_value TakeoverReason.task_closed = "task_closed"

pub record TaskLineage : Type 0 where
  pub task_id : String
  pub parent_task_id : Option String
  pub root_task_id : String
  pub child_key : Option String

pub record WorkerLease : Type 0 where
  pub worker_id : String
  pub task_id : String
  pub conversation_ref : Option String
  pub status : WorkerLeaseStatus
  pub registered_at : ℕ
  pub generation : Option ℕ
  pub claimed_at : Option ℕ
  pub last_heartbeat_at : Option ℕ
  pub lease_expires_at : Option ℕ
  pub ended_at : Option ℕ
  pub superseded_by : Option String

pub record WorkerTaskState : Type 0 where
  pub lineage : TaskLineage
  pub revision : ℕ
  pub generation : ℕ
  pub task_status : DurableTaskStatus
  pub current_worker_id : Option String
  pub handoff_target_worker_id : Option String
  pub handoff_requested_at : Option ℕ
  pub workers : List WorkerLease
  pub completed_at : Option ℕ
  pub completion_ref : Option String

-- the property `WorkerTaskState.task_id`
abbrev pub task_id : WorkerTaskState → String
task_id s = s.lineage.task_id

pub record ProtocolEvent : Type 0 where
  pub kind : EventKind
  pub task_id : String
  pub revision : ℕ
  pub at : ℕ
  pub worker_id : Option String
  pub generation : Option ℕ
  pub related_worker_id : Option String
  pub ref : Option String

pub record ProtocolDecision : Type 0 where
  pub accepted : Bool
  pub code : DecisionCode
  pub expected_revision : ℕ
  pub state : WorkerTaskState
  pub events : List ProtocolEvent

-- the property `ProtocolDecision.mutated`
unfoldable pub mutated : ProtocolDecision → Bool
mutated d = d.accepted && eqb d.state.revision (d.expected_revision + 1)

pub record TakeoverEligibility : Type 0 where
  pub eligible : Bool
  pub reason : TakeoverReason
  pub active_worker_id : Option String
  pub generation : ℕ

-- `status == WorkerLeaseStatus.CANDIDATE`
abbrev pub is_candidate : WorkerLeaseStatus → Bool
is_candidate WorkerLeaseStatus.candidate = true
is_candidate _ = false

-- `status == WorkerLeaseStatus.ACTIVE`
abbrev pub is_active : WorkerLeaseStatus → Bool
is_active WorkerLeaseStatus.active = true
is_active _ = false

-- `task_status == DurableTaskStatus.OPEN`
abbrev pub is_open : DurableTaskStatus → Bool
is_open DurableTaskStatus.open_task = true
is_open DurableTaskStatus.completed_task = false

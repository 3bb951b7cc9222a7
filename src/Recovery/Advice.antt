-- ===== src/Recovery/Advice.antt =====
-- src/lws/recovery.py: when a continuation is proposed.
use localshell_web_superviso.Base.{
  ◌<◌, Bool, true, false, Option, some, is_some, String, ◌≡◌, ◌↔◌, arith,
}
use localshell_web_superviso.Models.Task.{TaskRecord, SupervisorState, Assessment}
use localshell_web_superviso.Models.Observation.{LsmObservation, WorkspaceObservation}
use localshell_web_superviso.Watcher.Evidence.{Evidence, truthy}
use localshell_web_superviso.Watcher.Assess.{is_true, is_completed, is_abandoned}
use localshell_web_superviso.Recovery.Recommend.{recommend}

-- The states from which a continuation may be proposed.
abbrev pub may_continue : SupervisorState → Bool
may_continue SupervisorState.queued = true
may_continue SupervisorState.suspect = true
may_continue SupervisorState.reconciling = true
may_continue _ = false

-- The session and its observation are there, and show no durable work.
abbrev pub IsQuiet : Option String → Option LsmObservation → Type 0
IsQuiet (some session) (some l) =
    (l.in_flight_calls ≡ 0) × (l.active_jobs ≡ 0) × (is_true l.continuation_pending ≡ false)
IsQuiet _ _ = ⊥

-- What a proposal to continue takes.
pub MayContinue : TaskRecord → Assessment Evidence → Option LsmObservation → Type 0
MayContinue task assessment lsm =
    (is_completed task.state ≡ false)
    × (is_abandoned task.state ≡ false)
    × (may_continue assessment.state ≡ true)
    × (task.recovery_attempts < task.max_recovery_attempts)
    × IsQuiet (truthy task.lsm_session_id) lsm

-- A recommendation carries a prompt exactly when the task is open, its assessment is queued,
-- suspect or reconciling, attempts are left, and its session is observed without tracked calls,
-- jobs or a pending continuation.
pub prompt_iff :
    (task : TaskRecord) (assessment : Assessment Evidence) (lsm : Option LsmObservation)
    (workspace : Option WorkspaceObservation)
    → (is_some (recommend task assessment lsm workspace).prompt ≡ true)
      ↔ MayContinue task assessment lsm
unfolding recommend MayContinue
prompt_iff task assessment lsm workspace = ground arith

-- No recommendation may be dispatched by the supervisor itself; it is for the task it is given and
-- keeps the evidence of the assessment.
pub never_dispatched :
    (task : TaskRecord) (assessment : Assessment Evidence) (lsm : Option LsmObservation)
    (workspace : Option WorkspaceObservation)
    → ((recommend task assessment lsm workspace).safe_to_dispatch ≡ false)
      × ((recommend task assessment lsm workspace).task_id ≡ task.task_id)
      × ((recommend task assessment lsm workspace).evidence ≡ assessment.evidence)
unfolding recommend
never_dispatched task assessment lsm workspace = ground arith

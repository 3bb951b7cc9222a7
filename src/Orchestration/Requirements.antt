-- ===== src/Orchestration/Requirements.antt =====
-- src/lws/orchestration.py: what each stage of `evaluate_task` asks of the evidence, as a predicate,
-- and the stage at that evidence.
use localshell_web_superviso.Base.{
  ℕ, ◌+◌, ◌≤◌, ◌<◌, true, false, Option, none, some, String, [], eq_iff, max, ◌≡◌, ◌↔◌, arith,
}
use localshell_web_superviso.Models.Observation.{LsmObservation}
use localshell_web_superviso.Watcher.Assess.{says, is_true}
use localshell_web_superviso.Orchestration.Input.{
  OrchestrationPolicy, TaskOrchestrationInput, Checks, same_text,
}
use localshell_web_superviso.Orchestration.Gates.{Guards, IsAdvisory, Anything, if-Guards}
use localshell_web_superviso.Orchestration.Stages.{
  state_stage, blocker_stage, lsm_checks, lsm_from, owns_session, in_recovery, needs_person,
  is_terminal, probe_blocks, attempt_blocks,
}

-- observed at most `max_age` ago, of which a second is always granted
abbrev pub IsRecent : ℕ → ℕ → ℕ → Type 0
IsRecent observed_at now max_age = (observed_at ≤ now) × (now ≤ observed_at + max 1000 max_age)

module _ (item : TaskOrchestrationInput) (now : ℕ) (policy : OrchestrationPolicy) where
  -- The assessment sees a stall and the task waits for no person and has not ended.
  abbrev pub StateAllows : Type 0
  StateAllows =
      (in_recovery item.assessment.state ≡ true)
      × (needs_person item.task.state ≡ false)
      × (is_terminal item.task.state ≡ false)

  pub state_stage-Guards :
      (backoff : ℕ) → Guards item StateAllows Anything (state_stage item now policy backoff)
  unfolding state_stage Guards IsAdvisory
  state_stage-Guards backoff = ground arith

  -- Nothing is unresolved, attempts are left, and the caller names no blocker.
  abbrev pub NothingBlocks : Type 0
  NothingBlocks =
      (probe_blocks item.unresolved_probe_mutation ≡ false)
      × (attempt_blocks item.unresolved_action ≡ false)
      × (item.task.recovery_attempts < item.task.max_recovery_attempts)
      × (item.human_blockers ≡ [])
      × (item.reconcile_blockers ≡ [])

  pub blocker_stage-Guards :
      (backoff : ℕ) (c : Checks)
      → Guards item NothingBlocks Anything (blocker_stage item now policy backoff c)
  unfolding blocker_stage Guards IsAdvisory
  blocker_stage-Guards backoff c = ground arith

  -- The task's own session, seen recently, still open and without tracked work.
  abbrev pub IsIdle : LsmObservation → Type 0
  IsIdle l =
      IsRecent l.observed_at now policy.max_lsm_observation_age
      × (says l.session_status "completed" ≡ false)
      × (says l.session_status "cancelled" ≡ false)
      × (says l.plan_status "blocked" ≡ false)
      × (l.in_flight_calls ≡ 0)
      × (l.active_jobs ≡ 0)
      × (is_true l.continuation_pending ≡ false)

  lsm_checks-Guards :
      (backoff : ℕ) (l : LsmObservation) (c : Checks)
      → Guards item (IsIdle l) Anything (lsm_checks item now policy backoff c l)
  unfolding lsm_checks Guards IsAdvisory
  lsm_checks-Guards backoff l c = ground arith

  abbrev pub SessionIdle : Option LsmObservation → Type 0
  SessionIdle none = ⊥
  SessionIdle (some l) =
      ((l.task_id ≡ item.task.task_id) × (l.session_id ≡ item.task.lsm_session_id)) × IsIdle l

pub same_text_iff : (a b : Option String) → (same_text a b ≡ true) ↔ (a ≡ b)
same_text_iff none none = ground arith
same_text_iff none (some b) = ground arith
same_text_iff (some a) none = ground arith
same_text_iff (some a) (some b) = ground (arith, eq_iff a b)

owns_session_iff :
    (item : TaskOrchestrationInput) (now : ℕ) (policy : OrchestrationPolicy) (backoff : ℕ)
    (l : LsmObservation)
    → (owns_session item now policy backoff l ≡ true)
      ↔ ((l.task_id ≡ item.task.task_id) × (l.session_id ≡ item.task.lsm_session_id))
owns_session_iff item now policy backoff l =
    ground (
      arith,
      eq_iff l.task_id item.task.task_id,
      same_text_iff l.session_id item.task.lsm_session_id,
    )

pub lsm_stage-Guards :
    (item : TaskOrchestrationInput) (now : ℕ) (policy : OrchestrationPolicy) (backoff : ℕ)
    (o : Option LsmObservation) (c : Checks)
    → Guards item (SessionIdle item now policy o) Anything (lsm_from item now policy backoff o c)
unfolding Guards IsAdvisory
lsm_stage-Guards item now policy backoff none c = ground arith
lsm_stage-Guards item now policy backoff (some l) c =
    if-Guards item _ _ Anything _ _ _ (owns_session_iff item now policy backoff l)
      (lsm_checks-Guards item now policy backoff l _) (ground arith)

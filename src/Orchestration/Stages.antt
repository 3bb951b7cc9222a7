-- ===== src/Orchestration/Stages.antt =====
-- src/lws/orchestration.py, `evaluate_task`, one definition per group of its early returns.
use localshell_web_superviso.Base.{
  ℕ, Bool, true, false, not, ◌&&◌, ◌||◌, Option, none, some, List, [], ◌∷◌, ◌++◌, map, is_empty,
  ◌==◌, ltb, eqb, if◌then◌else◌,
}
use localshell_web_superviso.Models.Task.{SupervisorState}
use localshell_web_superviso.Models.Observation.{LsmObservation}
use localshell_web_superviso.Models.Mutation.{
  ProbeMutationOperation, ActionAttempt, probe_unresolved, action_unresolved,
}
use localshell_web_superviso.Watcher.Assess.{says, is_true, is_completed, is_abandoned}
use localshell_web_superviso.Recovery.Recommend.{needs_human, is_blocked}
use localshell_web_superviso.Orchestration.Input.{
  DecisionKind, OrchestrationPolicy, TaskOrchestrationInput, Reason, Blocker, Checks, decision,
  age_is_fresh, same_text,
}
use localshell_web_superviso.Orchestration.Gates.{Gate, stop, pass}

-- `_RECOVERY_STATES`
abbrev pub in_recovery : SupervisorState → Bool
in_recovery SupervisorState.suspect = true
in_recovery SupervisorState.reconciling = true
in_recovery SupervisorState.recovering = true
in_recovery _ = false

abbrev pub needs_person : SupervisorState → Bool
needs_person s = is_blocked s || needs_human s

abbrev pub is_terminal : SupervisorState → Bool
is_terminal s = is_completed s || is_abandoned s

abbrev pub not_yet_stalled : SupervisorState → Bool
not_yet_stalled SupervisorState.running = true
not_yet_stalled SupervisorState.starting = true
not_yet_stalled SupervisorState.queued = true
not_yet_stalled _ = false

abbrev pub probe_blocks : Option ProbeMutationOperation → Bool
probe_blocks none = false
probe_blocks (some operation) = probe_unresolved operation.state

abbrev pub probe_blockers : Option ProbeMutationOperation → List Blocker
probe_blockers none = []
probe_blockers (some operation) =
    Blocker.unresolved_probe operation.operation_id operation.state ∷ []

abbrev pub attempt_blocks : Option ActionAttempt → Bool
attempt_blocks none = false
attempt_blocks (some attempt) = action_unresolved attempt.state

abbrev pub attempt_blockers : Option ActionAttempt → List Blocker
attempt_blockers none = []
attempt_blockers (some attempt) = Blocker.unresolved_attempt attempt.attempt_id attempt.state ∷ []

module _ (item : TaskOrchestrationInput) (now : ℕ) (policy : OrchestrationPolicy)
    (backoff : ℕ) where
  -- the states of the task and of its assessment
  unfoldable pub state_stage : Gate Checks
  state_stage =
      if needs_person item.task.state
      then stop
          (decision item DecisionKind.blocked_human (Reason.task_state item.task.state) [] [] none)
      else if needs_person item.assessment.state
      then stop (
          decision item DecisionKind.blocked_human (Reason.assessment_state item.assessment.state)
            [] [] none)
      else if is_terminal item.task.state || is_terminal item.assessment.state
      then stop (
          decision item DecisionKind.observe
            (Reason.text "task is terminal; no recovery scheduling is appropriate") [] [] none)
      else if not_yet_stalled item.assessment.state
      then stop (
          decision item DecisionKind.observe
            (Reason.text "current assessment still indicates live or not-yet-stalled work") [] []
            (some backoff))
      else if not (in_recovery item.task.state) && not (in_recovery item.assessment.state)
      then stop (
          decision item DecisionKind.observe
            (Reason.text "task is not in a recovery-eligible state") [] [] (some backoff))
      else pass []

  -- unresolved mutations, the budget and the blockers that the caller names
  unfoldable pub blocker_stage : Checks → Gate Checks
  blocker_stage c0 =
      let c1 =
        c0
        ++ (("no_unresolved_probe_mutation", not (probe_blocks item.unresolved_probe_mutation))
            ∷ []) in
      let c2 =
        c1
        ++ (("no_unresolved_action_attempt", not (attempt_blocks item.unresolved_action)) ∷ []) in
      let c3 =
        c2
        ++ ((
          "recovery_budget_available",
          ltb item.task.recovery_attempts item.task.max_recovery_attempts,
        )
            ∷ []) in
      let c4 = c3 ++ (("no_external_human_blockers", is_empty item.human_blockers) ∷ []) in
      let c5 = c4 ++ (("no_external_reconcile_blockers", is_empty item.reconcile_blockers) ∷ []) in
      if probe_blocks item.unresolved_probe_mutation
      then stop (
          decision item DecisionKind.blocked_human
            (Reason.text
              "a global probe-window mutation outcome is unresolved; do not overlap recovery mutation")
            c1 (probe_blockers item.unresolved_probe_mutation) none)
      else if attempt_blocks item.unresolved_action
      then stop (
          decision item DecisionKind.blocked_human
            (Reason.text
              "a prior external action outcome is unresolved; never replay an ambiguous action")
            c2 (attempt_blockers item.unresolved_action) none)
      else if not (ltb item.task.recovery_attempts item.task.max_recovery_attempts)
      then stop (
          decision item DecisionKind.blocked_human (Reason.text "recovery budget is exhausted") c3
            (Blocker.blocker "recovery-attempt budget exhausted" ∷ []) none)
      else if not (is_empty item.human_blockers)
      then stop (
          decision item DecisionKind.blocked_human
            (Reason.text "external durable evidence requires explicit human resolution") c4
            (map Blocker.blocker item.human_blockers) none)
      else if not (is_empty item.reconcile_blockers)
      then stop (
          decision item DecisionKind.reconcile
            (Reason.text "external durable evidence must be reconciled before recovery") c5
            (map Blocker.blocker item.reconcile_blockers) (some backoff))
      else pass c5

  -- an observation of the task's own session
  unfoldable pub lsm_checks : Checks → LsmObservation → Gate Checks
  lsm_checks c1 l =
      let fresh = age_is_fresh l.observed_at now policy.max_lsm_observation_age in
      let c2 = c1 ++ (("lsm_fresh", fresh) ∷ []) in
      let c3 =
        c2
        ++ (("lsm_no_inflight_calls", eqb l.in_flight_calls 0)
            ∷ ("lsm_no_active_jobs", eqb l.active_jobs 0)
            ∷ ("lsm_no_continuation_pending", not (is_true l.continuation_pending))
            ∷ []) in
      if not fresh
      then stop (
          decision item DecisionKind.reconcile
            (Reason.text "LSM evidence is stale; refresh durable runtime state before recovery") c2
            [] (some backoff))
      else if says l.session_status "completed" || says l.session_status "cancelled"
      then stop (
          decision item DecisionKind.observe (Reason.session_is_already l.session_status) c2 []
            none)
      else if says l.plan_status "blocked"
      then stop (
          decision item DecisionKind.blocked_human (Reason.text "durable Goal plan is blocked") c2
            [] none)
      else if not (eqb l.in_flight_calls 0) || not (eqb l.active_jobs 0)
      then stop (
          decision item DecisionKind.observe
            (Reason.text "durable Local Shell work is still active; do not compete with it") c3 []
            (some backoff))
      else if is_true l.continuation_pending
      then stop (
          decision item DecisionKind.observe
            (Reason.text "LSM continuation is already pending; supervisor must not race it") c3 []
            (some backoff))
      else pass c3

  abbrev pub owns_session : LsmObservation → Bool
  owns_session l =
      (l.task_id == item.task.task_id) && same_text l.session_id item.task.lsm_session_id

  abbrev lsm_missing : Checks → Gate Checks
  lsm_missing c0 = stop (
      decision item DecisionKind.reconcile
        (Reason.text "durable LSM session evidence is missing or belongs to another session")
        (c0 ++ (("lsm_present", false) ∷ [])) [] (some backoff))

  abbrev pub lsm_from : Option LsmObservation → Checks → Gate Checks
  lsm_from none c0 = lsm_missing c0
  lsm_from (some l) c0 =
      if owns_session l then lsm_checks (c0 ++ (("lsm_present", true) ∷ [])) l else lsm_missing c0

  unfoldable pub lsm_stage : Checks → Gate Checks
  lsm_stage c0 = lsm_from item.lsm c0

-- ===== src/Orchestration/Ownership.antt =====
-- src/lws/orchestration.py, `evaluate_task`: the workspace, the worker's lease and the cooldown.
use localshell_web_superviso.Base.{
  ℕ, ◌-◌, Bool, true, false, not, ◌&&◌, ◌||◌, Option, none, some, is_some, String, [], ◌∷◌, ◌++◌,
  ◌==◌, ltb, eqb, min, max, if◌then◌else◌,
}
use localshell_web_superviso.Models.Task.{TaskRecord, WorkerRecord, WorkerStatus, checkpoint_get}
use localshell_web_superviso.Models.Observation.{WorkspaceObservation}
use localshell_web_superviso.Watcher.Evidence.{truthy}
use localshell_web_superviso.Watcher.Assess.{says}
use localshell_web_superviso.Orchestration.Input.{
  Letters, DecisionKind, OrchestrationPolicy, TaskOrchestrationInput, Reason, Checks, decision,
  age_is_fresh, same_directory,
}
use localshell_web_superviso.Orchestration.Gates.{Gate, stop, pass}

-- `not checkpoint_head or str(checkpoint_head) == workspace.git_head`
abbrev pub head_matches : Option String → Option String → Bool
head_matches none head = true
head_matches (some expected) head = says head expected

-- `task.current_worker_id and worker.worker_id == task.current_worker_id and ...`
abbrev pub owns_task : TaskRecord → WorkerRecord → Bool
owns_task task w = says (truthy task.current_worker_id) w.worker_id && (w.task_id == task.task_id)

abbrev pub is_active : WorkerStatus → Bool
is_active WorkerStatus.active = true
is_active _ = false

-- `expires_at is not None and expires_at > now`
abbrev pub lease_fresh : Option ℕ → ℕ → Bool
lease_fresh none now = false
lease_fresh (some expires_at) now = ltb now expires_at

module _ (item : TaskOrchestrationInput) (now : ℕ) (policy : OrchestrationPolicy)
    (backoff : ℕ) where
  -- the workspace that was observed
  unfoldable pub workspace_checks : Letters → Checks → WorkspaceObservation → Gate Checks
  workspace_checks letters c1 w =
      let task_matches = w.task_id == item.task.task_id in
      let cwd_matches = same_directory letters w.cwd item.task.cwd in
      let fresh = age_is_fresh w.observed_at now policy.max_workspace_observation_age in
      let head =
        head_matches (truthy (checkpoint_get item.task.checkpoint "git_head")) w.git_head in
      let c2 =
        c1
        ++ (("workspace_task_matches", task_matches)
            ∷ ("workspace_cwd_matches", cwd_matches)
            ∷ []) in
      let c3 = c2 ++ (("workspace_fresh", fresh) ∷ []) in
      let c4 = c3 ++ (("workspace_exists", w.cwd_exists) ∷ []) in
      let c5 = c4 ++ (("workspace_probe_clean", not (is_some w.error)) ∷ []) in
      let c6 = c5 ++ (("checkpoint_git_head_matches", head) ∷ []) in
      if not task_matches || not cwd_matches
      then stop (
          decision item DecisionKind.reconcile
            (Reason.text "workspace evidence belongs to a different task or working directory") c2
            [] (some backoff))
      else if not fresh
      then stop (
          decision item DecisionKind.reconcile (Reason.text "workspace/Git evidence is stale") c3 []
            (some backoff))
      else if not w.cwd_exists
      then stop (
          decision item DecisionKind.blocked_human
            (Reason.text "registered workspace no longer exists") c4 [] none)
      else if is_some w.error
      then stop (
          decision item DecisionKind.reconcile (Reason.text "workspace/Git probe reported an error")
            c5 [] (some backoff))
      else if not head
      then stop (
          decision item DecisionKind.reconcile
            (Reason.text "Git HEAD changed relative to the durable task checkpoint") c6 []
            (some backoff))
      else pass c6

  abbrev pub workspace_from : Letters → Option WorkspaceObservation → Checks → Gate Checks
  workspace_from letters none c0 = stop (
      decision item DecisionKind.reconcile (Reason.text "workspace/Git evidence is missing")
        (c0 ++ (("workspace_present", false) ∷ [])) [] (some backoff))
  workspace_from letters (some w) c0 =
      workspace_checks letters (c0 ++ (("workspace_present", true) ∷ [])) w

  unfoldable pub workspace_stage : Letters → Checks → Gate Checks
  workspace_stage letters c0 = workspace_from letters item.workspace c0

  abbrev worker_checks : Checks → Bool → Bool → Bool → Checks
  worker_checks c0 present current active =
      c0
      ++ (("worker_present", present)
          ∷ ("worker_is_current", current)
          ∷ ("worker_active", active)
          ∷ ("worker_lease_fresh", lease_fresh item.worker_lease_expires_at now)
          ∷ [])

  abbrev no_lease : Checks → Gate (Checks × WorkerRecord)
  no_lease checks = stop (
      decision item DecisionKind.reconcile
        (Reason.text "current worker lease is missing, stale, or no longer owns the task") checks []
        (some backoff))

  abbrev pub worker_from : Option WorkerRecord → Checks → Gate (Checks × WorkerRecord)
  worker_from none c0 = no_lease (worker_checks c0 false false false)
  worker_from (some w) c0 =
      let checks = worker_checks c0 true (owns_task item.task w) (is_active w.status) in
      if owns_task item.task w && is_active w.status && lease_fresh item.worker_lease_expires_at now
      then pass (checks, w)
      else no_lease checks

  -- the worker that holds the task's lease
  unfoldable pub worker_stage : Checks → Gate (Checks × WorkerRecord)
  worker_stage c0 = worker_from item.worker c0

  abbrev pub cooldown_from : Option ℕ → Checks → Gate Checks
  cooldown_from none c0 = pass (c0 ++ (("recovery_cooldown_elapsed", true) ∷ []))
  cooldown_from (some last) c0 =
      let remaining = policy.recovery_cooldown - (now - last) in
      let c1 = c0 ++ (("recovery_cooldown_elapsed", eqb remaining 0) ∷ []) in
      if ltb now last
      then stop (
          decision item DecisionKind.reconcile
            (Reason.text "recorded recovery timestamp is in the future") c0 [] (some backoff))
      else if ltb 0 remaining
      then stop (
          decision item DecisionKind.wait_cooldown (Reason.text "recovery cooldown has not elapsed")
            c1 [] (some (min remaining (max 100 policy.max_backoff))))
      else pass c1

  unfoldable pub cooldown_stage : Checks → Gate Checks
  cooldown_stage c0 = cooldown_from item.last_recovery_at c0

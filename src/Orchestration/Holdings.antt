-- ===== src/Orchestration/Holdings.antt =====
-- src/lws/orchestration.py: what the workspace, worker and cooldown stages of `evaluate_task` ask.
use localshell_web_superviso.Base.{
  ℕ, ◌+◌, ◌≤◌, ◌<◌, true, Option, none, some, String, eq_iff, ◌≡◌, ◌↔◌, arith,
}
use localshell_web_superviso.Models.Task.{WorkerRecord, WorkerStatus, checkpoint_get}
use localshell_web_superviso.Models.Observation.{WorkspaceObservation}
use localshell_web_superviso.Watcher.Evidence.{truthy}
use localshell_web_superviso.Watcher.Assess.{says}
use localshell_web_superviso.Orchestration.Input.{
  Letters, OrchestrationPolicy, TaskOrchestrationInput, Checks, same_directory,
}
use localshell_web_superviso.Orchestration.Gates.{Guards, IsAdvisory, Anything}
use localshell_web_superviso.Orchestration.Requirements.{IsRecent}
use localshell_web_superviso.Orchestration.Ownership.{
  head_matches, owns_task, workspace_checks, workspace_from, worker_from, cooldown_from,
}

-- The recorded head, if there is one, is the head that was seen.
abbrev pub HeadAgrees : Option String → Option String → Type 0
HeadAgrees none head = Unit
HeadAgrees (some expected) head = head ≡ some expected

head_matches_iff :
    (expected head : Option String) → (head_matches expected head ≡ true) ↔ HeadAgrees expected head
head_matches_iff none head = ground arith
head_matches_iff (some e) none = ground arith
head_matches_iff (some e) (some h) = ground (arith, eq_iff h e)

says_iff : (o : Option String) (s : String) → (says o s ≡ true) ↔ (o ≡ some s)
says_iff none s = ground arith
says_iff (some t) s = ground (arith, eq_iff t s)

-- The value that the stage passes on is the worker.
abbrev pub GivesWorker : Option WorkerRecord → Checks × WorkerRecord → Type 0
GivesWorker o (c, w) = o ≡ some w

module _ (item : TaskOrchestrationInput) (now : ℕ) (policy : OrchestrationPolicy) where
  -- The task's own directory, seen recently, still there, without an error and at its checkpoint.
  abbrev pub IsSound : Letters → WorkspaceObservation → Type 0
  IsSound letters w =
      (w.task_id ≡ item.task.task_id)
      × (same_directory letters w.cwd item.task.cwd ≡ true)
      × IsRecent w.observed_at now policy.max_workspace_observation_age
      × (w.cwd_exists ≡ true)
      × (w.error ≡ none)
      × HeadAgrees (truthy (checkpoint_get item.task.checkpoint "git_head")) w.git_head

  workspace_checks-Guards :
      (backoff : ℕ) (letters : Letters) (w : WorkspaceObservation) (c : Checks)
      → Guards item
          (IsSound letters w)
          Anything
          (workspace_checks item now policy backoff letters c w)
  unfolding workspace_checks Guards IsAdvisory
  workspace_checks-Guards backoff letters w c = ground (
    arith,
    eq_iff w.task_id item.task.task_id,
    head_matches_iff (truthy (checkpoint_get item.task.checkpoint "git_head")) w.git_head,
  )

  abbrev pub WorkspaceSound : Letters → Option WorkspaceObservation → Type 0
  WorkspaceSound letters none = ⊥
  WorkspaceSound letters (some w) = IsSound letters w

  pub workspace_stage-Guards :
      (backoff : ℕ) (letters : Letters) (o : Option WorkspaceObservation) (c : Checks)
      → Guards item
          (WorkspaceSound letters o)
          Anything
          (workspace_from item now policy backoff letters o c)
  unfolding Guards IsAdvisory
  workspace_stage-Guards backoff letters none c = ground arith
  workspace_stage-Guards backoff letters (some w) c = workspace_checks-Guards backoff letters w _

  -- The task's current worker, active, with a lease that has not run out.
  abbrev pub HoldsLease : Option WorkerRecord → Option ℕ → Type 0
  HoldsLease (some w) (some expires_at) =
      (truthy item.task.current_worker_id ≡ some w.worker_id)
      × (w.task_id ≡ item.task.task_id)
      × (w.status ≡ WorkerStatus.active)
      × (now < expires_at)
  HoldsLease _ _ = ⊥

  owns_task_iff :
      (w : WorkerRecord)
      → (owns_task item.task w ≡ true) ↔ (
          (truthy item.task.current_worker_id ≡ some w.worker_id) × (w.task_id ≡ item.task.task_id))
  owns_task_iff w = ground (
    arith,
    says_iff (truthy item.task.current_worker_id) w.worker_id,
    eq_iff w.task_id item.task.task_id,
  )

  -- The cooldown since the last recovery is over.
  abbrev pub CooledDown : Option ℕ → Type 0
  CooledDown none = Unit
  CooledDown (some last) = (last ≤ now) × (last + policy.recovery_cooldown ≤ now)

  pub cooldown_stage-Guards :
      (backoff : ℕ) (o : Option ℕ) (c : Checks)
      → Guards item (CooledDown o) Anything (cooldown_from item now policy backoff o c)
  unfolding Guards IsAdvisory
  cooldown_stage-Guards backoff none c = ground arith
  cooldown_stage-Guards backoff (some last) c = ground arith

pub worker_stage-Guards :
    (item : TaskOrchestrationInput) (now : ℕ) (policy : OrchestrationPolicy) (backoff : ℕ)
    (o : Option WorkerRecord) (c : Checks)
    → Guards item
        (HoldsLease item now policy o item.worker_lease_expires_at)
        (GivesWorker o)
        (worker_from item now policy backoff o c)
unfolding Guards IsAdvisory
worker_stage-Guards item now policy backoff none c = ground arith
worker_stage-Guards item now policy backoff (some w) c =
    ground (arith, owns_task_iff item now policy w)

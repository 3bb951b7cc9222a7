-- ===== src/Orchestration/Tests.antt =====
-- A concrete task with every gate open, and the theorems on the decisions at it.
use localshell_web_superviso.Base.{
  ℕ, ◌≤◌, true, false, none, some, String, [], ◌∷◌, max, ◌≡◌, ◌≢◌, ◌↔◌, refl, inl, arith,
}
use localshell_web_superviso.Models.Task.{
  TaskRecord, SupervisorState, Assessment, WorkerRecord, WorkerStatus, WorkerWindowBinding,
  ReconciliationRecord, PageCapabilityKind, checkpoint_get, binding_is_fresh,
}
use localshell_web_superviso.Models.Observation.{LsmObservation, WorkspaceObservation}
use localshell_web_superviso.Watcher.Evidence.{Evidence}
use localshell_web_superviso.Watcher.Assess.{verdict, assess, default_policy}
use localshell_web_superviso.Recovery.Recommend.{recommend}
use localshell_web_superviso.Orchestration.Input as Orchestration
use localshell_web_superviso.Orchestration.Input.{
  Letters, DecisionKind, OrchestrationPolicy, TaskOrchestrationInput, OrchestrationDecision,
  bounded_backoff, same_directory,
}
use localshell_web_superviso.Orchestration.Stages.{
  state_stage, blocker_stage, lsm_checks, lsm_stage,
}
use localshell_web_superviso.Orchestration.Ownership.{
  workspace_checks, workspace_stage, worker_stage, cooldown_stage,
}
use localshell_web_superviso.Orchestration.Samples.{
  samples_agree, sample_checks, reconciliation_stage, binding_stage, capability_stage,
}
use localshell_web_superviso.Orchestration.Evaluate.{gates, evaluate_task}
use localshell_web_superviso.Orchestration.Decisions.{PermitsRecovery, recommend_exactly}
use localshell_web_superviso.Orchestration.Backoff.{backoff_bounded}
use localshell_web_superviso.Orchestration.Caution.{live_work_observed, live_work_unraced}

abbrev pub letters : Letters
letters = record { lower = λ s. s; casefold = λ s. s }

abbrev pub policy : OrchestrationPolicy
policy = Orchestration.default_policy

abbrev pub task : TaskRecord
task = record {
  task_id = "t";
  project = "p";
  objective = "o";
  cwd = "C:\\work\\";
  state = SupervisorState.suspect;
  lsm_session_id = some "s";
  checkpoint = ("git_head", "abc") ∷ [];
  current_worker_id = some "w";
  recovery_attempts = 0;
  max_recovery_attempts = 2;
  created_at = 0;
  updated_at = 0;
}

abbrev session : ℕ → LsmObservation
session in_flight = record {
  task_id = "t";
  observed_at = 990000;
  session_id = some "s";
  session_status = none;
  active_run_id = none;
  plan_status = some "active";
  plan_last_agent_activity = none;
  continuation_due = none;
  continuation_pending = none;
  in_flight_calls = in_flight;
  freshest_in_flight_heartbeat = none;
  active_jobs = 0;
  failed_jobs = 0;
  succeeded_jobs = 0;
  recent_event_type = none;
  recent_event_at = none;
  completed_steps = none;
  total_steps = none;
}

abbrev directory : WorkspaceObservation
directory = record {
  task_id = "t";
  observed_at = 990000;
  cwd = "C:/work";
  cwd_exists = true;
  is_git_repo = some true;
  git_root = none;
  git_head = some "abc";
  git_branch = none;
  git_dirty = some false;
  git_status_hash = none;
  git_status_entries = [];
  error = none;
}

abbrev worker : WorkerRecord
worker = record {
  worker_id = "w";
  task_id = "t";
  conversation_url = "https://chat/1";
  conversation_id = none;
  status = WorkerStatus.active;
  started_at = 0;
  last_seen_at = none;
  ended_at = none;
}

abbrev sample : String → ℕ → ReconciliationRecord
sample id created_at = record {
  reconcile_id = id;
  task_id = "t";
  created_at = created_at;
  state = SupervisorState.suspect;
  confidence = "high";
  reason = "silent";
  requires_reconcile = true;
  current_worker_id = some "w";
  fence_token = "f";
  fence_version = 1;
}

abbrev window : WorkerWindowBinding
window = record {
  worker_id = "w";
  window_handle = 1;
  browser_pid = 2;
  chrome_executable = "chrome";
  conversation_url = "https://chat/1";
  source = "uia";
  bound_at = 900000;
  observed_at = 990000;
  expires_at = 1100000;
}

abbrev ready : Assessment Evidence → LsmObservation → TaskOrchestrationInput
ready assessment l = record {
  task = task;
  assessment = assessment;
  worker = some worker;
  lsm = some l;
  workspace = some directory;
  previous_reconciliation = some (sample "r1" 980000);
  current_reconciliation = some (sample "r2" 990000);
  unresolved_action = none;
  unresolved_probe_mutation = none;
  worker_lease_expires_at = some 1050000;
  last_recovery_at = some 500000;
  last_scheduled_at = none;
  consecutive_waits = 1;
  requires_exact_window_binding = true;
  window_binding = some window;
  page_continuity_relevant = false;
  page_capability = none;
  capability_context = none;
  page_capability_kind = PageCapabilityKind.generation;
  reconcile_blockers = [];
  human_blockers = [];
  scheduling_history_known = true;
}

abbrev pub stalled : TaskOrchestrationInput
stalled = ready (verdict SupervisorState.suspect "silent" "high" [] true) (session 0)

stalled_recommended :
    (evaluate_task letters stalled 1000000 policy).kind ≡ DecisionKind.recommend_action
unfolding evaluate_task gates state_stage blocker_stage lsm_checks lsm_stage workspace_checks
    workspace_stage worker_stage cooldown_stage samples_agree sample_checks reconciliation_stage
    binding_stage capability_stage checkpoint_get binding_is_fresh same_directory bounded_backoff
stalled_recommended = refl

recommend_exactly_example :
    ((evaluate_task letters stalled 1000000 policy).kind ≡ DecisionKind.recommend_action)
    ↔ PermitsRecovery letters stalled 1000000 policy
recommend_exactly_example = recommend_exactly letters stalled 1000000 policy

backoff_bounded_example :
    (max 100 policy.base_backoff ≤ bounded_backoff policy 1)
    × (bounded_backoff policy 1 ≤ max (max 100 policy.base_backoff) policy.max_backoff)
    × (bounded_backoff policy 1 ≤ bounded_backoff policy 4)
backoff_bounded_example = backoff_bounded policy 1 4 (ground arith)

abbrev running : Assessment Evidence
running = assess task none (some (session 1)) none none 1000000 default_policy

live_work_observed_example : (recommend task running (some (session 1)) none).action ≡ "observe"
live_work_observed_example =
    live_work_observed task none (session 1) none none 1000000 default_policy (refl, refl)
      (refl, refl, refl, inl (ground arith))

live_work_unraced_example :
    (evaluate_task letters (ready running (session 1)) 1000000 policy).kind
    ≢ DecisionKind.recommend_action
live_work_unraced_example =
    live_work_unraced letters (ready running (session 1)) 1000000 policy none (session 1) none none
      default_policy (refl, refl) (refl, refl, refl, inl (ground arith)) refl

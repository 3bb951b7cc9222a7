-- ===== src/Watcher/Tests.antt =====
-- Concrete observations, and the theorems on `assess` at them.
use localshell_web_superviso.Base.{ℕ, true, Option, none, some, String, [], ◌≡◌, ◌⊎◌, refl}
use localshell_web_superviso.Models.Task.{TaskRecord, SupervisorState}
use localshell_web_superviso.Models.Observation.{BrowserObservation, LsmObservation}
use localshell_web_superviso.Watcher.Evidence.{
  lsm_evidence, workspace_evidence, browser_evidence, network_evidence, silence_evidence,
}
use localshell_web_superviso.Watcher.Assess.{
  assess_liveness, contradictory, continuation_verdict, stall_verdict, quiet_verdict, assess,
  default_policy, lsm_verdict, durable_verdict, is_completed,
}
use localshell_web_superviso.Watcher.Caution.{IsCautious, assess-IsCautious}
use localshell_web_superviso.Watcher.Truth.{completion_durable, ShowsCompletion}

abbrev pub task : TaskRecord
task = record {
  task_id = "t";
  project = "p";
  objective = "o";
  cwd = "C:/work";
  state = SupervisorState.suspect;
  lsm_session_id = some "s";
  checkpoint = [];
  current_worker_id = some "w";
  recovery_attempts = 0;
  max_recovery_attempts = 2;
  created_at = 0;
  updated_at = 0;
}

-- an idle session of which the last event was at 100 s
abbrev pub session : ℕ → Option String → LsmObservation
session in_flight status = record {
  task_id = "t";
  observed_at = 990000;
  session_id = some "s";
  session_status = status;
  active_run_id = none;
  plan_status = some "active";
  plan_last_agent_activity = none;
  continuation_due = none;
  continuation_pending = none;
  in_flight_calls = in_flight;
  freshest_in_flight_heartbeat = none;
  active_jobs = 0;
  failed_jobs = 0;
  succeeded_jobs = 0;
  recent_event_type = none;
  recent_event_at = some 100000;
  completed_steps = none;
  total_steps = none;
}

-- a page that has not changed since 200 s
abbrev pub page : Option String → BrowserObservation
page error = record {
  worker_id = "w";
  observed_at = 990000;
  url = none;
  generating = none;
  send_button_ready = some true;
  pending_tool_calls = none;
  visible_error = error;
  last_dom_change_at = some 200000;
  message_signature = none;
}

assess-IsCautious_example :
    IsCautious
      (assess task (some (page none)) (some (session 0 none)) none none 1000000 default_policy)
assess-IsCautious_example =
    assess-IsCautious task (some (page none)) (some (session 0 none)) none none 1000000
      default_policy

completed_run :
    is_completed
      (assess task none
        (some (session 1 (some "completed")))
        none
        none
        1000000
        default_policy).state
    ≡ true
unfolding assess lsm_verdict durable_verdict lsm_evidence workspace_evidence
completed_run = refl

completion_durable_example :
    (is_completed task.state ≡ true) ⊎ ShowsCompletion (some (session 1 (some "completed")))
completion_durable_example =
    completion_durable task none (some (session 1 (some "completed"))) none none 1000000
      default_policy completed_run

-- both have been silent for ten minutes
suspect_run :
    (assess task
      (some (page none))
      (some (session 0 (some "open")))
      none
      none
      1000000
      default_policy).confidence
    ≡ "high"
unfolding assess lsm_verdict durable_verdict assess_liveness contradictory continuation_verdict
    stall_verdict lsm_evidence workspace_evidence browser_evidence network_evidence silence_evidence
    quiet_verdict
suspect_run = refl

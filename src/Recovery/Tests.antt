-- ===== src/Recovery/Tests.antt =====
-- Concrete recommendations.
use localshell_web_superviso.Base.{true, none, some, is_some, [], ◌≡◌, ◌↔◌, refl}
use localshell_web_superviso.Models.Task.{TaskRecord, SupervisorState, Assessment}
use localshell_web_superviso.Models.Observation.{LsmObservation}
use localshell_web_superviso.Watcher.Evidence.{Evidence}
use localshell_web_superviso.Watcher.Assess.{verdict}
use localshell_web_superviso.Recovery.Recommend.{recommend}
use localshell_web_superviso.Recovery.Advice.{MayContinue, prompt_iff}

abbrev stalled : TaskRecord
stalled = record {
  task_id = "t";
  project = "p";
  objective = "o";
  cwd = "C:/work";
  state = SupervisorState.suspect;
  lsm_session_id = some "s";
  checkpoint = [];
  current_worker_id = some "w";
  recovery_attempts = 0;
  max_recovery_attempts = 2;
  created_at = 0;
  updated_at = 0;
}

abbrev seen : LsmObservation
seen = record {
  task_id = "t";
  observed_at = 990000;
  session_id = some "s";
  session_status = none;
  active_run_id = none;
  plan_status = some "active";
  plan_last_agent_activity = none;
  continuation_due = none;
  continuation_pending = none;
  in_flight_calls = 0;
  freshest_in_flight_heartbeat = none;
  active_jobs = 0;
  failed_jobs = 0;
  succeeded_jobs = 0;
  recent_event_type = none;
  recent_event_at = none;
  completed_steps = none;
  total_steps = none;
}

abbrev suspicion : Assessment Evidence
suspicion = verdict SupervisorState.suspect "silent" "high" [] true

proposes : is_some (recommend stalled suspicion (some seen) none).prompt ≡ true
unfolding recommend
proposes = refl

prompt_iff_example :
    (is_some (recommend stalled suspicion (some seen) none).prompt ≡ true)
    ↔ MayContinue stalled suspicion (some seen)
prompt_iff_example = prompt_iff stalled suspicion (some seen) none

-- ===== src/Models/Observation.antt =====
-- src/lws/models.py: what is observed of the browser, the network, the Local Shell and the workspace.
use localshell_web_superviso.Base.{ℕ, Bool, Option, String, List}

pub record BrowserObservation : Type 0 where
  pub worker_id : String
  pub observed_at : ℕ
  pub url : Option String
  pub generating : Option Bool
  pub send_button_ready : Option Bool
  pub pending_tool_calls : Option ℕ
  pub visible_error : Option String
  pub last_dom_change_at : Option ℕ
  pub message_signature : Option String

pub record NetworkObservation : Type 0 where
  pub worker_id : String
  pub observed_at : ℕ
  pub source : String
  pub sample_started_at : ℕ
  pub sample_ended_at : ℕ
  pub page_url : Option String
  pub event_count : ℕ
  pub request_count : ℕ
  pub response_count : ℕ
  pub data_event_count : ℕ
  pub encoded_data_bytes : ℕ
  pub loading_finished : ℕ
  pub loading_failed : ℕ
  pub websocket_frames : ℕ
  pub last_activity_at : Option ℕ
  pub quiet_since_at : Option ℕ
  pub inflight_requests : ℕ

pub record LsmObservation : Type 0 where
  pub task_id : String
  pub observed_at : ℕ
  pub session_id : Option String
  pub session_status : Option String
  pub active_run_id : Option String
  pub plan_status : Option String
  pub plan_last_agent_activity : Option ℕ
  pub continuation_due : Option Bool
  pub continuation_pending : Option Bool
  pub in_flight_calls : ℕ
  pub freshest_in_flight_heartbeat : Option ℕ
  pub active_jobs : ℕ
  pub failed_jobs : ℕ
  pub succeeded_jobs : ℕ
  pub recent_event_type : Option String
  pub recent_event_at : Option ℕ
  pub completed_steps : Option ℕ
  pub total_steps : Option ℕ

pub record WorkspaceObservation : Type 0 where
  pub task_id : String
  pub observed_at : ℕ
  pub cwd : String
  pub cwd_exists : Bool
  pub is_git_repo : Option Bool
  pub git_root : Option String
  pub git_head : Option String
  pub git_branch : Option String
  pub git_dirty : Option Bool
  pub git_status_hash : Option String
  pub git_status_entries : List String
  pub error : Option String

-- ===== src/Models/Task.antt =====
-- src/lws/models.py: tasks, workers, window bindings, capabilities, assessments, reconciliations.
-- Times are whole milliseconds; the free-form `metadata`, `raw` and `snapshot` are left out, and of
-- a checkpoint only the entries whose value is a text are kept.
use localshell_web_superviso.Base.{
  ℕ, Bool, ◌&&◌, Option, none, some, String, List, [], ◌∷◌, ◌==◌, ltb, leb, if◌then◌else◌,
}

pub data SupervisorState : Type 0 where
  queued starting running suspect reconciling recovering blocked needs_human completed abandoned :
      SupervisorState

pub data WorkerStatus : Type 0 where
  active parked superseded dead : WorkerStatus

pub record TaskRecord : Type 0 where
  pub task_id : String
  pub project : String
  pub objective : String
  pub cwd : String
  pub state : SupervisorState
  pub lsm_session_id : Option String
  pub checkpoint : List (String × String)
  pub current_worker_id : Option String
  pub recovery_attempts : ℕ
  pub max_recovery_attempts : ℕ
  pub created_at : ℕ
  pub updated_at : ℕ

-- `checkpoint.get(key)`
unfoldable pub checkpoint_get : List (String × String) → String → Option String
checkpoint_get [] key = none
checkpoint_get ((k, v) ∷ entries) key = if k == key then some v else checkpoint_get entries key

pub record WorkerRecord : Type 0 where
  pub worker_id : String
  pub task_id : String
  pub conversation_url : String
  pub conversation_id : Option String
  pub status : WorkerStatus
  pub started_at : ℕ
  pub last_seen_at : Option ℕ
  pub ended_at : Option ℕ

pub record WorkerWindowBinding : Type 0 where
  pub worker_id : String
  pub window_handle : ℕ
  pub browser_pid : ℕ
  pub chrome_executable : String
  pub conversation_url : String
  pub source : String
  pub bound_at : ℕ
  pub observed_at : ℕ
  pub expires_at : ℕ

unfoldable pub binding_is_fresh : WorkerWindowBinding → ℕ → Bool
binding_is_fresh b now =
    (leb b.bound_at b.observed_at && leb b.observed_at now && ltb now b.expires_at)
    && leb b.observed_at b.expires_at

pub data PageCapabilityKind : Type 0 where
  generation tool_execution : PageCapabilityKind

pub record PageCapabilityRecord : Type 0 where
  pub capability_id : String
  pub kind : PageCapabilityKind
  pub scope_host : String
  pub browser_family : String
  pub browser_major : ℕ
  pub platform : String
  pub surface : String
  pub isolation_mode : String
  pub evaluator_version : String
  pub evidence_digest : String
  pub source_experiment_id : String
  pub observed_at : ℕ
  pub recorded_at : ℕ
  pub expires_at : ℕ

unfoldable pub capability_is_fresh : PageCapabilityRecord → ℕ → Bool
capability_is_fresh c now = leb c.observed_at now && ltb now c.expires_at

pub record Assessment (E : Type 0) : Type 0 where
  pub state : SupervisorState
  pub reason : String
  pub confidence : String
  pub evidence : List E
  pub requires_reconcile : Bool
  pub may_auto_continue : Bool

-- `state` is the value of a `SupervisorState`, kept as the member itself
pub record ReconciliationRecord : Type 0 where
  pub reconcile_id : String
  pub task_id : String
  pub created_at : ℕ
  pub state : SupervisorState
  pub confidence : String
  pub reason : String
  pub requires_reconcile : Bool
  pub current_worker_id : Option String
  pub fence_token : String
  pub fence_version : ℕ

pub data ProbeMutationState : Type 0 where
  armed close_submitted ready_to_open open_submitted reconcile_required completed_probe failed
        cancelled :
      ProbeMutationState

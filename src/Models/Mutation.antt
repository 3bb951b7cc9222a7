-- ===== src/Models/Mutation.antt =====
-- src/lws/models.py and src/lws/actions.py: external actions whose outcome may be unknown. Of an
-- action's `metadata` the entries that the code reads or writes by name are kept, as fields.
use localshell_web_superviso.Base.{ℕ, Bool, true, false, Option, List, String}
use localshell_web_superviso.Models.Task.{ProbeMutationState}

pub data ProbeMutationKind : Type 0 where
  open_probe rotate_probe close_probe : ProbeMutationKind

pub record ProbeWindowSlotBinding : Type 0 where
  pub slot_id : String
  pub owner_token : String
  pub target_worker_id : String
  pub target_conversation_url : String
  pub actual_url : String
  pub window_handle : ℕ
  pub browser_pid : ℕ
  pub chrome_executable : String
  pub source : String
  pub bound_at : ℕ
  pub observed_at : ℕ
  pub expires_at : ℕ

-- a value of a JSON object: a text, a whole number, or a time in milliseconds
pub data Scalar : Type 0 where
  text : String → Scalar
  whole : ℕ → Scalar
  moment : ℕ → Scalar

abbrev pub Snapshot : Type 0
Snapshot = List (String × Scalar)

pub record ProbeMutationOperation : Type 0 where
  pub operation_id : String
  pub nonce : String
  pub kind : ProbeMutationKind
  pub state : ProbeMutationState
  pub slot_id : String
  pub target_task_id : String
  pub target_worker_id : String
  pub target_conversation_url : String
  pub owner_token : String
  pub expected_actual_url : String
  pub expected_chrome_executable : String
  pub source : String
  pub prior_slot : Option Snapshot
  pub created_at : ℕ
  pub updated_at : ℕ
  pub slot_ttl : ℕ
  pub reconcile_attempts : ℕ
  pub last_reconcile_at : Option ℕ
  pub last_outcome : Option String
  pub last_error : Option String
  pub resume_state : Option String

-- src/lws/probe_ops.py, `UNRESOLVED_PROBE_MUTATION_STATES`
abbrev pub probe_unresolved : ProbeMutationState → Bool
probe_unresolved ProbeMutationState.armed = true
probe_unresolved ProbeMutationState.close_submitted = true
probe_unresolved ProbeMutationState.ready_to_open = true
probe_unresolved ProbeMutationState.open_submitted = true
probe_unresolved ProbeMutationState.reconcile_required = true
probe_unresolved _ = false

pub data ActionAttemptState : Type 0 where
  armed submitted reconcile_required acknowledged failed cancelled : ActionAttemptState

-- src/lws/actions.py, `UNRESOLVED_ACTION_STATES`
abbrev pub action_unresolved : ActionAttemptState → Bool
action_unresolved ActionAttemptState.armed = true
action_unresolved ActionAttemptState.submitted = true
action_unresolved ActionAttemptState.reconcile_required = true
action_unresolved _ = false

pub record ActionAttempt : Type 0 where
  pub attempt_id : String
  pub task_id : String
  pub worker_id : String
  pub action : String
  pub fence_token : String
  pub fence_version : ℕ
  pub prompt_hash : String
  pub nonce : String
  pub state : ActionAttemptState
  pub created_at : ℕ
  pub updated_at : ℕ
  pub pre_action_signature : Option String
  pub transport_name : Option String
  pub submitted_at : Option ℕ
  pub acknowledged_at : Option ℕ
  pub acknowledgement_kind : Option String
  pub acknowledgement_hash : Option String
  pub last_error : Option String
  pub prompt_protocol : Option String
  pub ack_uia_text_signature : Option String
  pub ack_browser_signature : Option String

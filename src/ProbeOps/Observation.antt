-- ===== src/ProbeOps/Observation.antt =====
-- src/lws/probe_ops.py: what is observed of the probe windows, the decision that it leads to, and
-- `_effective_state`.
use localshell_web_superviso.Base.{
  ℕ, Bool, false, Option, none, some, String, List, ◌==◌, if◌then◌else◌,
}
use localshell_web_superviso.Models.Task.{ProbeMutationState}
use localshell_web_superviso.Models.Mutation.{ProbeWindowSlotBinding, ProbeMutationOperation}

pub data ProbeReconcileOutcome : Type 0 where
  exact_target_absent exact_unique_owned_target_present old_target_still_present
        both_old_and_new_present multiple_matches stale_or_changed_identity unknown_observation :
      ProbeReconcileOutcome

pub record ProbeWindowMatch : Type 0 where
  pub window_handle : ℕ
  pub browser_pid : ℕ
  pub chrome_executable : String
  pub actual_url : String

pub record ProbeMutationObservation : Type 0 where
  pub observed_at : ℕ
  pub old_matches : List ProbeWindowMatch
  pub new_matches : List ProbeWindowMatch
  pub complete : Bool
  pub error : Option String

pub record ProbeReconcileDecision : Type 0 where
  pub outcome : ProbeReconcileOutcome
  pub next_state : ProbeMutationState
  pub reason : String
  pub may_close : Bool
  pub may_open : Bool
  pub adopt_binding : Option ProbeWindowSlotBinding

-- a decision that grants nothing
abbrev pub keep : ProbeReconcileOutcome → ProbeMutationState → String → ProbeReconcileDecision
keep outcome next_state reason = record {
  outcome = outcome;
  next_state = next_state;
  reason = reason;
  may_close = false;
  may_open = false;
  adopt_binding = none;
}

-- one that leaves the operation to be reconciled
abbrev pub fenced : ProbeReconcileOutcome → String → ProbeReconcileDecision
fenced outcome reason = keep outcome ProbeMutationState.reconcile_required reason

-- `ProbeMutationState(value)`, where `none` is a ValueError
unfoldable pub state_of_value : String → Option ProbeMutationState
state_of_value v =
    if v == "ARMED"
    then some ProbeMutationState.armed
    else if v == "CLOSE_SUBMITTED"
    then some ProbeMutationState.close_submitted
    else if v == "READY_TO_OPEN"
    then some ProbeMutationState.ready_to_open
    else if v == "OPEN_SUBMITTED"
    then some ProbeMutationState.open_submitted
    else if v == "RECONCILE_REQUIRED"
    then some ProbeMutationState.reconcile_required
    else if v == "COMPLETED"
    then some ProbeMutationState.completed_probe
    else if v == "FAILED"
    then some ProbeMutationState.failed
    else if v == "CANCELLED"
    then some ProbeMutationState.cancelled
    else none

abbrev pub resumed : Option String → ProbeMutationState
resumed none = ProbeMutationState.reconcile_required
resumed (some v) = elim (state_of_value v) [
  | none ↦ ProbeMutationState.reconcile_required
  | some s ↦ s
]

abbrev pub effective : ProbeMutationState → Option String → ProbeMutationState
effective ProbeMutationState.reconcile_required resume_state = resumed resume_state
effective s resume_state = s

-- `_effective_state`: an empty text has no state either
unfoldable pub effective_state : ProbeMutationOperation → ProbeMutationState
unfolding state_of_value
effective_state operation = effective operation.state operation.resume_state

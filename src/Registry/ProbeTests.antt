-- ===== src/Registry/ProbeTests.antt =====
-- The theorem about probe mutations at a concrete operation.
use localshell_web_superviso.Base.{
  ◌≡◌, refl, none, true, [], ◌∷◌, raise, ok, runtime_error, Letters,
}
use localshell_web_superviso.Models.Task.{ProbeMutationState}
use localshell_web_superviso.Models.Mutation.{ProbeMutationKind, ProbeMutationOperation}
use localshell_web_superviso.ProbeOps.Slots.{Conversions}
use localshell_web_superviso.ProbeOps.Observation.{ProbeMutationObservation}
use localshell_web_superviso.Registry.Probes.{open_phase}
use localshell_web_superviso.Registry.Once.{reconcile, after_calls}
use localshell_web_superviso.Registry.Opened.{opens_once}

abbrev letters : Letters
letters = record { lower = λ s. s; casefold = λ s. s }

abbrev conversions : Conversions
conversions = record {
  str_of_int = λ n. "";
  str_of_float = λ n. "";
  int_of_text = λ s. none;
  float_of_text = λ s. none;
}

abbrev armed : ProbeMutationOperation
armed = record {
  operation_id = "op";
  nonce = "n";
  kind = ProbeMutationKind.open_probe;
  state = ProbeMutationState.armed;
  slot_id = "s";
  target_task_id = "t";
  target_worker_id = "w";
  target_conversation_url = "u";
  owner_token = "o";
  expected_actual_url = "u";
  expected_chrome_executable = "chrome";
  source = "uia";
  prior_slot = none;
  created_at = 1;
  updated_at = 1;
  slot_ttl = 5000;
  reconcile_attempts = 0;
  last_reconcile_at = none;
  last_outcome = none;
  last_error = none;
  resume_state = none;
}

abbrev submitted : ProbeMutationOperation
submitted = record armed { state = ProbeMutationState.open_submitted; updated_at = 5 }

-- no window was seen after the launch
abbrev nothing : ProbeMutationObservation
nothing = record {
  observed_at = 8;
  old_matches = [];
  new_matches = [];
  complete = true;
  error = none;
}

submits : open_phase 5 armed ≡ ok submitted
unfolding open_phase
submits = refl

opens_once_example :
    open_phase 9 (after_calls letters conversions (reconcile nothing 8 ∷ []) (submitted, [])).0
    ≡ raise (runtime_error "probe operation is not ready for OPEN")
opens_once_example =
    opens_once letters conversions (reconcile nothing 8 ∷ []) [] armed submitted 5 9 submits

-- ===== src/ProbeOps/Tests.antt =====
-- A rotation of a probe window, observed.
use localshell_web_superviso.Base.{
  true, none, some, String, List, [], ◌∷◌, ◌≡◌, refl, arith, Returns, Letters, rstrip_slash,
}
use localshell_web_superviso.Models.Task.{ProbeMutationState}
use localshell_web_superviso.Models.Mutation.{
  ProbeMutationKind, ProbeWindowSlotBinding, ProbeMutationOperation,
}
use localshell_web_superviso.ProbeOps.Slots.{Conversions, snapshot_probe_slot}
use localshell_web_superviso.ProbeOps.Observation.{
  ProbeWindowMatch, ProbeMutationObservation, ProbeReconcileDecision, effective_state,
}
use localshell_web_superviso.ProbeOps.Decide.{
  decide_probe_reconciliation, match_is_exact_new, from_matches, by_presence,
  binding_from_new_match,
}
use localshell_web_superviso.ProbeOps.Authority.{Grants, authority_exactly}

abbrev letters : Letters
letters = record { lower = λ s. s; casefold = λ s. s }

abbrev conversions : Conversions
conversions = record {
  str_of_int = λ n. "0";
  str_of_float = λ n. "0.0";
  int_of_text = λ s. none;
  float_of_text = λ s. none;
}

abbrev slot : ProbeWindowSlotBinding
slot = record {
  slot_id = "slot";
  owner_token = "owner";
  target_worker_id = "w1";
  target_conversation_url = "https://chat/1";
  actual_url = "https://chat/1#lws";
  window_handle = 7;
  browser_pid = 9;
  chrome_executable = "chrome.exe";
  source = "uia";
  bound_at = 1000;
  observed_at = 2000;
  expires_at = 90000;
}

abbrev rotation : ProbeMutationState → ProbeMutationOperation
rotation state = record {
  operation_id = "op";
  nonce = "n";
  kind = ProbeMutationKind.rotate_probe;
  state = state;
  slot_id = "slot";
  target_task_id = "t";
  target_worker_id = "w2";
  target_conversation_url = "https://chat/2";
  owner_token = "owner";
  expected_actual_url = "https://chat/2#lws/";
  expected_chrome_executable = "chrome.exe";
  source = "uia";
  prior_slot = snapshot_probe_slot (some slot);
  created_at = 3000;
  updated_at = 3000;
  slot_ttl = 120000;
  reconcile_attempts = 0;
  last_reconcile_at = none;
  last_outcome = none;
  last_error = none;
  resume_state = some "OPEN_SUBMITTED";
}

abbrev window : String → ProbeWindowMatch
window url = record {
  window_handle = 8;
  browser_pid = 9;
  chrome_executable = "chrome.exe";
  actual_url = url;
}

abbrev seen : List ProbeWindowMatch → ProbeMutationObservation
seen news = record {
  observed_at = 5000;
  old_matches = [];
  new_matches = news;
  complete = true;
  error = none;
}

-- the interrupted rotation adopts its new window
rotation_adopts :
    Returns
      (λ (d : ProbeReconcileDecision).
        d.adopt_binding
        ≡ some (
            binding_from_new_match
              (rotation ProbeMutationState.reconcile_required)
              (window "https://chat/2#lws")
              5000))
      (decide_probe_reconciliation letters conversions
        (rotation ProbeMutationState.reconcile_required)
        (seen (window "https://chat/2#lws" ∷ []))
        6000)
unfolding decide_probe_reconciliation from_matches by_presence match_is_exact_new effective_state
    rstrip_slash
rotation_adopts = refl

authority_exactly_example :
    Returns
      (Grants letters
        (some slot)
        (rotation ProbeMutationState.open_submitted)
        []
        (window "https://chat/2#lws" ∷ []))
      (decide_probe_reconciliation letters conversions
        (rotation ProbeMutationState.open_submitted)
        (seen (window "https://chat/2#lws" ∷ []))
        6000)
authority_exactly_example =
    authority_exactly letters conversions (some slot) (rotation ProbeMutationState.open_submitted)
      (seen (window "https://chat/2#lws" ∷ [])) 6000 refl (ground arith, refl, refl)

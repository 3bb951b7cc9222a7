-- ===== src/ProbeOps/Decide.antt =====
-- src/lws/probe_ops.py, `decide_probe_reconciliation`. Its branch for a kind that is not one of the
-- three has no counterpart.
use localshell_web_superviso.Base.{
  ℕ, ◌+◌, Bool, true, false, not, ◌&&◌, ◌||◌, Option, none, some, is_some, String, List, [], ◌∷◌,
  length, ◌==◌, ltb, eqb, max, if◌then◌else◌, Outcome, ok, ◌>>=◌, rstrip_slash, Letters,
}
use localshell_web_superviso.Models.Task.{ProbeMutationState}
use localshell_web_superviso.Models.Mutation.{
  ProbeMutationKind, ProbeWindowSlotBinding, ProbeMutationOperation,
}
use localshell_web_superviso.ProbeOps.Slots.{Conversions, slot_from_snapshot}
use localshell_web_superviso.ProbeOps.Observation.{
  ProbeMutationObservation, ProbeReconcileDecision, ProbeReconcileOutcome, ProbeWindowMatch,
  effective_state, fenced, keep,
}

module _ (letters : Letters) where
  unfoldable pub match_is_exact_new : ProbeMutationOperation → ProbeWindowMatch → Bool
  match_is_exact_new operation m =
      ltb 0 m.window_handle
      && (ltb 0 m.browser_pid
          && ((rstrip_slash m.actual_url == rstrip_slash operation.expected_actual_url)
              && (letters.casefold m.chrome_executable
                  == letters.casefold operation.expected_chrome_executable)))

  abbrev pub matches_slot : Option ProbeWindowSlotBinding → ProbeWindowMatch → Bool
  matches_slot none m = false
  matches_slot (some prior) m =
      eqb m.window_handle prior.window_handle
      && (eqb m.browser_pid prior.browser_pid
          && ((rstrip_slash m.actual_url == rstrip_slash prior.actual_url)
              && (letters.casefold m.chrome_executable
                  == letters.casefold prior.chrome_executable)))

  unfoldable pub match_is_exact_old :
      Conversions → ProbeMutationOperation → ProbeWindowMatch → Outcome Bool
  match_is_exact_old c operation m =
      slot_from_snapshot c operation.prior_slot >>= λ prior. ok (matches_slot prior m)

abbrev pub binding_from_new_match :
    ProbeMutationOperation → ProbeWindowMatch → ℕ → ProbeWindowSlotBinding
binding_from_new_match operation m observed_at = record {
  slot_id = operation.slot_id;
  owner_token = operation.owner_token;
  target_worker_id = operation.target_worker_id;
  target_conversation_url = operation.target_conversation_url;
  actual_url = operation.expected_actual_url;
  window_handle = m.window_handle;
  browser_pid = m.browser_pid;
  chrome_executable = operation.expected_chrome_executable;
  source = operation.source;
  bound_at = observed_at;
  observed_at = observed_at;
  expires_at = observed_at + max 1000 operation.slot_ttl;
}

abbrev pub is_armed : ProbeMutationState → Bool
is_armed ProbeMutationState.armed = true
is_armed _ = false

abbrev pub is_open_submitted : ProbeMutationState → Bool
is_open_submitted ProbeMutationState.open_submitted = true
is_open_submitted _ = false

-- `effective_state in {ARMED, CLOSE_SUBMITTED, READY_TO_OPEN}`
abbrev pub before_open : ProbeMutationState → Bool
before_open ProbeMutationState.armed = true
before_open ProbeMutationState.close_submitted = true
before_open ProbeMutationState.ready_to_open = true
before_open _ = false

abbrev adopt : ProbeMutationOperation → ProbeWindowMatch → ℕ → String → ProbeReconcileDecision
adopt operation m observed_at reason =
    record (keep ProbeReconcileOutcome.exact_unique_owned_target_present
      ProbeMutationState.completed_probe reason) {
        adopt_binding = some (binding_from_new_match operation m observed_at);
      }

-- kind OPEN
abbrev open_decision :
    ProbeMutationOperation → ℕ → Bool → Option ProbeWindowMatch → ProbeReconcileDecision
open_decision operation at true new =
    fenced ProbeReconcileOutcome.stale_or_changed_identity
      "OPEN operation unexpectedly observed a prior target"
open_decision operation at false (some m) =
    if is_open_submitted (effective_state operation)
    then adopt operation m at "exactly one expected LWS-owned probe target is present; adopt it"
    else fenced ProbeReconcileOutcome.stale_or_changed_identity
        "expected target appeared before durable OPEN authority was issued"
open_decision operation at false none =
    if is_armed (effective_state operation)
    then record (keep ProbeReconcileOutcome.exact_target_absent ProbeMutationState.armed
        "no target exists and no OPEN authority has been issued") { may_open = true }
    else fenced ProbeReconcileOutcome.exact_target_absent
        "target is absent after OPEN authority was issued; do not replay blindly"

-- kind CLOSE
abbrev close_decision :
    ProbeMutationOperation → ℕ → Bool → Option ProbeWindowMatch → ProbeReconcileDecision
close_decision operation at old (some m) =
    fenced ProbeReconcileOutcome.stale_or_changed_identity
      "CLOSE operation unexpectedly observed a replacement target"
close_decision operation at false none =
    keep ProbeReconcileOutcome.exact_target_absent ProbeMutationState.completed_probe
      "the exact old LWS-owned probe target is absent; close is reconciled"
close_decision operation at true none =
    if is_armed (effective_state operation)
    then record (keep ProbeReconcileOutcome.old_target_still_present ProbeMutationState.armed
        "the exact old target remains and no CLOSE authority has been issued") { may_close = true }
    else fenced ProbeReconcileOutcome.old_target_still_present
        "old target remains after CLOSE authority was issued; do not replay blindly"

-- kind ROTATE
abbrev rotate_decision :
    ProbeMutationOperation → ℕ → Bool → Option ProbeWindowMatch → ProbeReconcileDecision
rotate_decision operation at old (some m) =
    if is_open_submitted (effective_state operation)
    then adopt operation m at
        "replacement is the unique expected owned target and the old target is absent; adopt it"
    else fenced ProbeReconcileOutcome.stale_or_changed_identity
        "replacement appeared before durable OPEN authority was issued"
rotate_decision operation at true none =
    if is_armed (effective_state operation)
    then record (keep ProbeReconcileOutcome.old_target_still_present ProbeMutationState.armed
        "old target remains and no CLOSE authority has been issued") { may_close = true }
    else fenced ProbeReconcileOutcome.old_target_still_present
        "old target remains after CLOSE/OPEN progress; do not replay blindly"
rotate_decision operation at false none =
    if before_open (effective_state operation)
    then record (keep ProbeReconcileOutcome.exact_target_absent ProbeMutationState.ready_to_open
        "old target is absent and replacement has not appeared; replacement may be opened once") {
          may_open = true;
        }
    else fenced ProbeReconcileOutcome.exact_target_absent
        "both targets are absent after OPEN authority was issued; do not replay blindly"

abbrev by_kind :
    ProbeMutationKind
    → ProbeMutationOperation
    → ℕ
    → Bool
    → Option ProbeWindowMatch
    → ProbeReconcileDecision
by_kind ProbeMutationKind.open_probe operation at old new = open_decision operation at old new
by_kind ProbeMutationKind.close_probe operation at old new = close_decision operation at old new
by_kind ProbeMutationKind.rotate_probe operation at old new = rotate_decision operation at old new

-- the decision from the presence of the old window and the new one, both exact
unfoldable pub by_presence :
    ProbeMutationOperation → ℕ → Bool → Option ProbeWindowMatch → ProbeReconcileDecision
by_presence operation at old new =
    if old && is_some new
    then fenced ProbeReconcileOutcome.both_old_and_new_present
        "both old and replacement probe targets are present"
    else by_kind operation.kind operation at old new

-- `matches[0]`, if there is one
abbrev pub first : List ProbeWindowMatch → Option ProbeWindowMatch
first [] = none
first (m ∷ ms) = some m

-- the truth of an optional text
abbrev pub has_error : Option String → Bool
has_error none = false
has_error (some e) = not (e == "")

module _ (letters : Letters) (c : Conversions) where
  abbrev pub old_is_exact : ProbeMutationOperation → Option ProbeWindowMatch → Outcome Bool
  old_is_exact operation none = ok true
  old_is_exact operation (some m) = match_is_exact_old letters c operation m

  abbrev pub new_is_exact : ProbeMutationOperation → Option ProbeWindowMatch → Bool
  new_is_exact operation none = true
  new_is_exact operation (some m) = match_is_exact_new letters operation m

  abbrev pub by_identity :
      ProbeMutationOperation
      → ℕ
      → Option ProbeWindowMatch
      → Option ProbeWindowMatch
      → Bool
      → ProbeReconcileDecision
  by_identity operation at old new old_exact =
      if not old_exact
      then fenced ProbeReconcileOutcome.stale_or_changed_identity
          "old ownership tag no longer matches its durable HWND/PID/executable identity"
      else if not (new_is_exact operation new)
      then fenced ProbeReconcileOutcome.stale_or_changed_identity
          "new ownership tag no longer matches the expected executable/target identity"
      else by_presence operation at (is_some old) new

  -- the rest, from a complete observation
  unfoldable pub from_matches :
      ProbeMutationOperation
      → ℕ
      → List ProbeWindowMatch
      → List ProbeWindowMatch
      → Outcome ProbeReconcileDecision
  from_matches operation at olds news =
      if ltb 1 (length olds) || ltb 1 (length news)
      then ok (
          fenced ProbeReconcileOutcome.multiple_matches
            "more than one window matched an ownership tag")
      else (old_is_exact operation (first olds) >>= λ exact.
          ok (by_identity operation at (first olds) (first news) exact))

  unfoldable pub decide_probe_reconciliation :
      ProbeMutationOperation → ProbeMutationObservation → ℕ → Outcome ProbeReconcileDecision
  decide_probe_reconciliation operation seen now =
      if ltb now seen.observed_at
      then ok (
          fenced ProbeReconcileOutcome.unknown_observation
            "probe observation timestamp is in the future")
      else if not seen.complete || has_error seen.error
      then ok (
          fenced ProbeReconcileOutcome.unknown_observation
            "probe observation was incomplete or failed")
      else from_matches operation seen.observed_at seen.old_matches seen.new_matches

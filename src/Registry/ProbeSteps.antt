-- ===== src/Registry/ProbeSteps.antt =====
-- src/lws/registry.py, the completion and the reconciliation of a probe mutation, and the calls on it.
use localshell_web_superviso.Base.{
  ℕ, suc, max, Bool, true, false, not, Option, none, some, is_some, String, List, [], ◌∷◌, find,
  select, ◌==◌, take_text, if◌then◌else◌, Outcome, ok, raise, value_error, runtime_error, raise_if,
  ◌>>=◌, ◌>>◌, Letters,
}
use localshell_web_superviso.Models.Task.{ProbeMutationState}
use localshell_web_superviso.Models.Mutation.{
  ProbeWindowSlotBinding, ProbeMutationOperation, probe_unresolved,
}
use localshell_web_superviso.ProbeOps.Slots.{Conversions, slot_from_snapshot}
use localshell_web_superviso.ProbeOps.Observation.{
  ProbeReconcileOutcome, ProbeMutationObservation, ProbeReconcileDecision,
}
use localshell_web_superviso.ProbeOps.Decide.{is_open_submitted, decide_probe_reconciliation}
use localshell_web_superviso.Registry.Actions.{or_key_error}
use localshell_web_superviso.Registry.Probes.{
  Slots, ProbeStore, state_value, is_close, is_open, same_slot, current_slot, close_phase,
  open_phase, fail_phase, validate_probe_completion_binding,
}

-- the tests on the binding: one is there exactly for an OPEN or a ROTATE
abbrev pub check_completion :
    Letters → ProbeMutationOperation → Option ProbeWindowSlotBinding → Bool → Outcome (Unit {0})
check_completion letters o none true = ok tt
check_completion letters o (some b) true =
    raise (value_error "CLOSE completion must not provide a replacement binding")
check_completion letters o none false =
    raise (value_error "OPEN/ROTATE completion requires an exact observed binding")
check_completion letters o (some b) false = validate_probe_completion_binding letters o b

-- the tests on the slot, which must be as it was when the operation was armed
unfoldable pub check_slot_unchanged :
    Conversions → ProbeMutationOperation → Option ProbeWindowSlotBinding → Outcome (Unit {0})
check_slot_unchanged c o current =
    if is_open o.kind
    then raise_if (is_some current)
        (runtime_error "durable probe slot appeared while OPEN was unresolved")
    else (slot_from_snapshot c o.prior_slot >>= λ prior.
        raise_if (not (same_slot current prior))
          (runtime_error "durable probe slot changed while mutation was unresolved"))

-- `INSERT ... ON CONFLICT(slot_id) DO UPDATE`
unfoldable pub put_slot : ProbeWindowSlotBinding → Slots → Slots
put_slot b [] = b ∷ []
put_slot b (x ∷ xs) = if x.slot_id == b.slot_id then b ∷ xs else x ∷ put_slot b xs

-- the deletion of the slot, or its new row
abbrev pub publish : String → Option ProbeWindowSlotBinding → Slots → Slots
publish id none slots = select (λ (s : ProbeWindowSlotBinding). not (s.slot_id == id)) slots
publish id (some b) slots = put_slot b slots

abbrev pub shown : Option String → Option String → Option String
shown none last = last
shown (some outcome) last = some (take_text 200 outcome)

-- the operation after its completion
unfoldable pub completed :
    ProbeMutationOperation → ℕ → Option String → Bool → ProbeMutationOperation
completed o at outcome reconciled = record o {
  state = ProbeMutationState.completed_probe;
  resume_state = none;
  updated_at = at;
  last_outcome = shown outcome o.last_outcome;
  reconcile_attempts = if reconciled then suc o.reconcile_attempts else o.reconcile_attempts;
  last_reconcile_at = if reconciled then some at else o.last_reconcile_at;
  last_error = none;
}

-- What a call makes of the operation and the slots.
abbrev pub Result : Type 0
Result = Outcome (ProbeMutationOperation × Slots)

-- `_complete_probe_mutation_locked`
unfoldable pub complete_locked :
    Letters
    → Conversions
    → Slots
    → ProbeMutationOperation
    → Option ProbeWindowSlotBinding
    → ℕ
    → Option String
    → Bool
    → Result
complete_locked letters c slots o binding at outcome reconciled = do
  check_completion letters o binding (is_close o.kind)
  current ← current_slot slots
  check_slot_unchanged c o current
  ok (completed o at outcome reconciled, publish o.slot_id binding slots)

abbrev pub is_completed : ProbeMutationState → Bool
is_completed ProbeMutationState.completed_probe = true
is_completed _ = false

abbrev pub is_close_submitted : ProbeMutationState → Bool
is_close_submitted ProbeMutationState.close_submitted = true
is_close_submitted _ = false

-- the state in which the transport's result may complete the operation
abbrev pub may_complete : ProbeMutationOperation → Bool
may_complete o = if is_close o.kind then is_close_submitted o.state else is_open_submitted o.state

-- `complete_probe_mutation_operation`
unfoldable pub complete_phase :
    Letters
    → Conversions
    → Option ProbeWindowSlotBinding
    → Option String
    → ℕ
    → Slots
    → ProbeMutationOperation
    → Result
unfolding complete_locked
complete_phase letters c binding outcome at slots o =
    if is_completed o.state
    then ok (o, slots)
    else if not (probe_unresolved o.state)
    then raise (runtime_error "probe operation is already terminal")
    else if not (may_complete o)
    then raise (runtime_error "completion only after the durable authority for it")
    else complete_locked letters c slots o binding at outcome false

abbrev pub outcome_value : ProbeReconcileOutcome → String
outcome_value ProbeReconcileOutcome.exact_target_absent = "EXACT_TARGET_ABSENT"
outcome_value ProbeReconcileOutcome.exact_unique_owned_target_present =
    "EXACT_UNIQUE_OWNED_TARGET_PRESENT"
outcome_value ProbeReconcileOutcome.old_target_still_present = "OLD_TARGET_STILL_PRESENT"
outcome_value ProbeReconcileOutcome.both_old_and_new_present = "BOTH_OLD_AND_NEW_PRESENT"
outcome_value ProbeReconcileOutcome.multiple_matches = "MULTIPLE_MATCHES"
outcome_value ProbeReconcileOutcome.stale_or_changed_identity = "STALE_OR_CHANGED_IDENTITY"
outcome_value ProbeReconcileOutcome.unknown_observation = "UNKNOWN_OBSERVATION"

abbrev pub is_fenced : ProbeMutationState → Bool
is_fenced ProbeMutationState.reconcile_required = true
is_fenced _ = false

-- what the operation resumes from: it is kept while the operation waits to be reconciled
abbrev pub resume_of : ProbeMutationState → ProbeMutationState → Option String → Option String
resume_of next ProbeMutationState.reconcile_required resume =
    if is_fenced next then resume else none
resume_of next state resume = if is_fenced next then some (state_value state) else none

-- the operation after a decision that does not complete it
unfoldable pub reconciled :
    ProbeMutationOperation → ProbeReconcileDecision → ℕ → ProbeMutationOperation
reconciled o d observed_at = record o {
  resume_state = resume_of d.next_state o.state o.resume_state;
  last_error = if is_fenced d.next_state then some (take_text 1000 d.reason) else none;
  state = d.next_state;
  updated_at = max o.updated_at observed_at;
  reconcile_attempts = suc o.reconcile_attempts;
  last_reconcile_at = some observed_at;
  last_outcome = some (outcome_value d.outcome);
}

abbrev pub after_decision :
    Letters
    → Conversions
    → ProbeMutationObservation
    → Slots
    → ProbeMutationOperation
    → ProbeReconcileDecision
    → Result
after_decision letters c seen slots o d =
    if is_completed d.next_state
    then complete_locked letters c slots o d.adopt_binding (max o.updated_at seen.observed_at)
        (some (outcome_value d.outcome)) true
    else ok (reconciled o d seen.observed_at, slots)

-- `reconcile_probe_mutation_operation`, at the time `now`
unfoldable pub reconcile_phase :
    Letters → Conversions → ProbeMutationObservation → ℕ → Slots → ProbeMutationOperation → Result
unfolding complete_locked reconciled
reconcile_phase letters c seen now slots o =
    if not (probe_unresolved o.state)
    then ok (o, slots)
    else (decide_probe_reconciliation letters c o seen now
        >>= after_decision letters c seen slots o)

-- `_save_probe_mutation_operation`; `operation_id` is the key
unfoldable pub put_operation :
    ProbeMutationOperation → List ProbeMutationOperation → List ProbeMutationOperation
put_operation o [] = []
put_operation o (x ∷ xs) =
    if x.operation_id == o.operation_id then o ∷ xs else x ∷ put_operation o xs

abbrev pub operation_of : ProbeStore → String → Option ProbeMutationOperation
operation_of st id = find (λ (o : ProbeMutationOperation). o.operation_id == id) st.operations

-- the transaction around each call: the operation is read, changed and saved, or nothing is written
unfoldable pub with_operation :
    ProbeStore → String → (Slots → ProbeMutationOperation → Result) → Outcome ProbeStore
with_operation st id change = do
  o ← or_key_error "unknown probe mutation operation" (operation_of st id)
  changed ← change st.slots o
  ok (record st { slots = changed.1; operations = put_operation changed.0 st.operations })

abbrev pub keeping_slots :
    (ProbeMutationOperation → Outcome ProbeMutationOperation)
    → Slots
    → ProbeMutationOperation
    → Result
keeping_slots change slots o = change o >>= λ changed. ok (changed, slots)

abbrev pub authorize_probe_close : ProbeStore → String → ℕ → Outcome ProbeStore
authorize_probe_close st id now = with_operation st id (keeping_slots (close_phase now))

abbrev pub authorize_probe_open : ProbeStore → String → ℕ → Outcome ProbeStore
authorize_probe_open st id now = with_operation st id (keeping_slots (open_phase now))

-- The source reads the operation outside of a transaction here, and `_save_probe_mutation_operation` writes
-- it: this is the call with no other writer between the two.
abbrev pub fail_probe_mutation_operation : ProbeStore → String → String → ℕ → Outcome ProbeStore
fail_probe_mutation_operation st id reason now =
    with_operation st id (keeping_slots (fail_phase reason now))

abbrev pub complete_probe_mutation_operation :
    Letters
    → Conversions
    → ProbeStore
    → String
    → Option ProbeWindowSlotBinding
    → Option String
    → ℕ
    → Outcome ProbeStore
complete_probe_mutation_operation letters c st id binding outcome at =
    with_operation st id (complete_phase letters c binding outcome at)

abbrev pub reconcile_probe_mutation_operation :
    Letters → Conversions → ProbeStore → String → ProbeMutationObservation → ℕ → Outcome ProbeStore
reconcile_probe_mutation_operation letters c st id seen now =
    with_operation st id (reconcile_phase letters c seen now)

-- `clear_probe_window_slot`: whether a slot was there
unfoldable pub clear_probe_window_slot : ProbeStore → String → Outcome (Bool × ProbeStore)
clear_probe_window_slot st id = do
  raise_if (is_some (find (λ (o : ProbeMutationOperation). probe_unresolved o.state) st.operations))
      (runtime_error "probe slot is fenced by unresolved mutation")
  ok (
    is_some (find (λ (s : ProbeWindowSlotBinding). s.slot_id == id) st.slots),
    record st { slots = publish id none st.slots },
  )

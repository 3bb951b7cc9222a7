-- ===== src/Registry/Once.antt =====
-- src/lws/registry.py: a probe mutation is given the authority to open a window once.
use localshell_web_superviso.Base.{
  ℕ, ◌≡◌, refl, subst, Bool, true, false, not, inl, inr, Option, String, List, [], ◌∷◌,
  if_inversion, Outcome, ok, raise, runtime_error, ◌||◌, raise_if, bind-eq-ok, ok-cancel, arith,
  Letters, Bool-cases, is_some, ltb, length, ◌>>=◌,
}
use localshell_web_superviso.Models.Task.{ProbeMutationState}
use localshell_web_superviso.Models.Mutation.{
  ProbeMutationKind, ProbeWindowSlotBinding, ProbeMutationOperation,
}
use localshell_web_superviso.ProbeOps.Slots.{Conversions}
use localshell_web_superviso.ProbeOps.Observation.{
  ProbeMutationObservation, ProbeReconcileDecision, ProbeWindowMatch, state_of_value, effective,
  effective_state,
}
use localshell_web_superviso.ProbeOps.Decide.{
  is_armed, before_open, decide_probe_reconciliation, by_presence, from_matches, by_identity, first,
  has_error, new_is_exact, old_is_exact,
}
use localshell_web_superviso.Registry.Probes.{
  Slots, close_phase, open_phase, fail_phase, may_submit_open, current_slot, is_close,
}
use localshell_web_superviso.Registry.ProbeSteps.{
  Result, completed, complete_locked, complete_phase, check_completion, check_slot_unchanged,
  is_completed, is_fenced, resume_of, reconcile_phase, keeping_slots,
}

-- The authority to open has been given, or the operation is over.
abbrev pub HasOpened : ProbeMutationOperation → Type 0
HasOpened o = before_open (effective_state o) ≡ false

-- `RECONCILE_REQUIRED` with nothing to resume from counts as well.
pub open_phase-opened :
    (o : ProbeMutationOperation) (now : ℕ) {after : ProbeMutationOperation}
    → open_phase now o ≡ ok after
    → HasOpened after
unfolding open_phase effective_state
open_phase-opened o now {after} h =
    let (u, e, h1) = bind-eq-ok (raise_if (not (may_submit_open o.kind o.state)) _) _ h in
    subst (λ (x : ProbeMutationOperation). before_open (effective x.state x.resume_state) ≡ false)
      (ok-cancel h1) refl

submit-before :
    (kind : ProbeMutationKind) (state : ProbeMutationState) (resume : Option String)
    → before_open (effective state resume) ≡ false
    → may_submit_open kind state ≡ false
submit-before kind state resume h = ground arith

pub armed-before :
    (state : ProbeMutationState) (resume : Option String)
    → before_open (effective state resume) ≡ false
    → is_armed state ≡ false
armed-before state resume h = ground arith

pub open_refused :
    (o : ProbeMutationOperation) (now : ℕ)
    → HasOpened o
    → open_phase now o ≡ raise (runtime_error "probe operation is not ready for OPEN")
unfolding open_phase effective_state
open_refused o now opened = rw (submit-before o.kind o.state o.resume_state opened)

-- The state that is kept while the operation waits is read back as it was.
pub resumed-opened :
    (state : ProbeMutationState) (resume : Option String)
    → before_open (effective state resume) ≡ false
    → before_open (
        effective ProbeMutationState.reconcile_required
          (resume_of ProbeMutationState.reconcile_required state resume))
      ≡ false
unfolding state_of_value
resumed-opened ProbeMutationState.armed resume h = cc
resumed-opened ProbeMutationState.close_submitted resume h = cc
resumed-opened ProbeMutationState.ready_to_open resume h = cc
resumed-opened ProbeMutationState.open_submitted resume h = refl
resumed-opened ProbeMutationState.reconcile_required resume h = h
resumed-opened ProbeMutationState.completed_probe resume h = refl
resumed-opened ProbeMutationState.failed resume h = refl
resumed-opened ProbeMutationState.cancelled resume h = refl

-- The decision fences the operation or completes it.
abbrev pub ends : ProbeMutationState → Bool
ends s = is_fenced s || is_completed s

by_presence-ends :
    (o : ProbeMutationOperation) (at : ℕ) (old : Bool) (new : Option ProbeWindowMatch)
    → HasOpened o
    → ends (by_presence o at old new).next_state ≡ true
unfolding by_presence
by_presence-ends o at old new opened = ground arith

module _ (letters : Letters) (c : Conversions) where
  by_identity-ends :
      (o : ProbeMutationOperation) (at : ℕ) (old new : Option ProbeWindowMatch) (exact : Bool)
      → HasOpened o
      → ends (by_identity letters c o at old new exact).next_state ≡ true
  by_identity-ends o at old new false opened = refl
  by_identity-ends o at old new true opened = elim (Bool-cases (new_is_exact letters c o new)) [
    | inl t ↦ rw (t) (by_presence-ends o at (is_some old) new opened)
    | inr f ↦ rw (f) refl
  ]

  from_matches-ends :
      (o : ProbeMutationOperation) (at : ℕ) (olds news : List ProbeWindowMatch)
      {d : ProbeReconcileDecision}
      → HasOpened o
      → from_matches letters c o at olds news ≡ ok d
      → ends d.next_state ≡ true
  unfolding from_matches
  from_matches-ends o at olds news {d} opened h =
      elim (if_inversion (ltb 1 (length olds) || ltb 1 (length news)) h) [
        | inl (t, e) ↦
            subst (λ (x : ProbeReconcileDecision). ends x.next_state ≡ true) (ok-cancel e) refl
        | inr (f, e) ↦
            let (exact, e1, e2) = bind-eq-ok (old_is_exact letters c o (first olds)) _ e in
            subst (λ (x : ProbeReconcileDecision). ends x.next_state ≡ true) (ok-cancel e2)
              (by_identity-ends o at (first olds) (first news) exact opened)
      ]

  pub decide-ends :
      (o : ProbeMutationOperation) (seen : ProbeMutationObservation) (now : ℕ)
      {d : ProbeReconcileDecision}
      → HasOpened o
      → decide_probe_reconciliation letters c o seen now ≡ ok d
      → ends d.next_state ≡ true
  unfolding decide_probe_reconciliation
  decide-ends o seen now {d} opened h = elim (if_inversion (ltb now seen.observed_at) h) [
    | inl (t, e) ↦
        subst (λ (x : ProbeReconcileDecision). ends x.next_state ≡ true) (ok-cancel e) refl
    | inr (f, e) ↦ elim (if_inversion (not seen.complete || has_error seen.error) e) [
      | inl (t, g) ↦
          subst (λ (x : ProbeReconcileDecision). ends x.next_state ≡ true) (ok-cancel g) refl
      | inr (k, g) ↦ from_matches-ends o seen.observed_at seen.old_matches seen.new_matches opened g
    ]
  ]

-- The calls on an operation that was read.
pub data Call : Type 0 where
  authorize_close authorize_open : ℕ → Call
  fail : String → ℕ → Call
  complete : Option ProbeWindowSlotBinding → Option String → ℕ → Call
  reconcile : ProbeMutationObservation → ℕ → Call

unfoldable pub run_call : Letters → Conversions → Call → Slots → ProbeMutationOperation → Result
run_call letters c (authorize_close now) = keeping_slots (close_phase now)
run_call letters c (authorize_open now) = keeping_slots (open_phase now)
run_call letters c (fail reason now) = keeping_slots (fail_phase reason now)
run_call letters c (complete binding outcome at) = complete_phase letters c binding outcome at
run_call letters c (reconcile seen now) = reconcile_phase letters c seen now

-- one that raises changes nothing
abbrev pub or_same : ProbeMutationOperation × Slots → Result → ProbeMutationOperation × Slots
or_same before (ok after) = after
or_same before (raise e) = before

abbrev pub after_calls :
    Letters
    → Conversions
    → List Call
    → ProbeMutationOperation × Slots
    → ProbeMutationOperation × Slots
after_calls letters c [] p = p
after_calls letters c (x ∷ xs) p =
    after_calls letters c xs (or_same p (run_call letters c x p.1 p.0))

-- If the call returned, the operation has opened still.
abbrev pub Stays : Result → Type 0
Stays (ok p) = HasOpened p.0
Stays (raise e) = Unit

pub keeping-Stays :
    (r : Outcome ProbeMutationOperation) (slots : Slots)
    → ((after : ProbeMutationOperation) → r ≡ ok after → HasOpened after)
    → Stays (r >>= λ changed. ok (changed, slots))
keeping-Stays (ok after) slots h = h after refl
keeping-Stays (raise e) slots h = tt

completed-HasOpened :
    (o : ProbeMutationOperation) (at : ℕ) (outcome : Option String) (b : Bool)
    → HasOpened (completed o at outcome b)
unfolding completed effective_state
completed-HasOpened o at outcome b = refl

pub complete-Stays :
    (letters : Letters) (c : Conversions) (slots : Slots) (o : ProbeMutationOperation)
    (binding : Option ProbeWindowSlotBinding) (at : ℕ) (outcome : Option String) (b : Bool)
    → (r : Result) → complete_locked letters c slots o binding at outcome b ≡ r
    → Stays r
unfolding complete_locked
complete-Stays letters c slots o binding at outcome b (raise e) h = tt
complete-Stays letters c slots o binding at outcome b (ok p) h =
    let (u, e1, h1) = bind-eq-ok (check_completion letters o binding (is_close o.kind)) _ h in
    let (current, e2, h2) = bind-eq-ok (current_slot slots) _ h1 in
    let (v, e3, h3) = bind-eq-ok (check_slot_unchanged c o current) _ h2 in
    subst (λ (x : ProbeMutationOperation × Slots). HasOpened x.0) (ok-cancel h3)
      (completed-HasOpened o at outcome b)

-- ===== src/Registry/Opened.antt =====
-- src/lws/registry.py: no call on a probe mutation gives it the authority to open a second window.
use localshell_web_superviso.Base.{
  ℕ, ◌≡◌, refl, sym, subst, Bool, true, false, not, String, List, [], ◌∷◌, if◌then◌else◌, Outcome,
  ok, raise, runtime_error, raise_if, raise_if-ok, bind-eq-ok, arith, Letters, ◌>>=◌,
}
use localshell_web_superviso.Models.Task.{ProbeMutationState}
use localshell_web_superviso.Models.Mutation.{ProbeMutationOperation, probe_unresolved}
use localshell_web_superviso.ProbeOps.Slots.{Conversions}
use localshell_web_superviso.ProbeOps.Observation.{
  ProbeMutationObservation, ProbeReconcileDecision, effective, effective_state,
}
use localshell_web_superviso.ProbeOps.Decide.{is_armed, before_open, decide_probe_reconciliation}
use localshell_web_superviso.Registry.Probes.{Slots, close_phase, open_phase, fail_phase, is_open}
use localshell_web_superviso.Registry.ProbeSteps.{
  Result, complete_phase, may_complete, is_completed, is_fenced, resume_of, reconciled,
  after_decision, reconcile_phase,
}
use localshell_web_superviso.Registry.Once.{
  HasOpened, open_refused, armed-before, resumed-opened, decide-ends, Call, authorize_close,
  authorize_open, fail, complete, reconcile, run_call, or_same, after_calls, Stays, keeping-Stays,
  complete-Stays, open_phase-opened,
}

close_phase-Stays :
    (o : ProbeMutationOperation) (now : ℕ) {after : ProbeMutationOperation}
    → HasOpened o
    → close_phase now o ≡ ok after
    → HasOpened after
unfolding close_phase effective_state
close_phase-Stays o now opened h =
    let (u, e1, h1) = bind-eq-ok (raise_if (is_open o.kind) _) _ h in
    let (v, e2, h2) = bind-eq-ok (raise_if (not (is_armed o.state)) _) _ h1 in
    cc (raise_if-ok _ _ e2, armed-before o.state o.resume_state opened)

fail_phase-Stays :
    (o : ProbeMutationOperation) (reason : String) (now : ℕ) {after : ProbeMutationOperation}
    → HasOpened o
    → fail_phase reason now o ≡ ok after
    → HasOpened after
unfolding fail_phase effective_state
fail_phase-Stays o reason now opened h =
    let (v, e2, h2) = bind-eq-ok (raise_if (not (is_armed o.state)) _) _ h in
    cc (raise_if-ok _ _ e2, armed-before o.state o.resume_state opened)

reconciled-HasOpened :
    (o : ProbeMutationOperation) (d : ProbeReconcileDecision) (at : ℕ)
    → HasOpened o
    → is_fenced d.next_state ≡ true
    → HasOpened (reconciled o d at)
unfolding reconciled effective_state
reconciled-HasOpened o d at opened fenced =
    subst (λ s. before_open (effective s (resume_of s o.state o.resume_state)) ≡ false)
      (sym (fenced-eq d.next_state fenced)) (resumed-opened o.state o.resume_state opened)
  where
    fenced-eq :
        (s : ProbeMutationState) → is_fenced s ≡ true → s ≡ ProbeMutationState.reconcile_required
    fenced-eq s h = ground arith

if-Stays :
    (b : Bool) (x y : Result)
    → (b ≡ true → Stays x)
    → (b ≡ false → Stays y)
    → Stays (if b then x else y)
if-Stays true x y h k = h refl
if-Stays false x y h k = k refl

module _ (letters : Letters) (c : Conversions) where
  decision-Stays :
      (seen : ProbeMutationObservation) (now : ℕ) (slots : Slots) (o : ProbeMutationOperation)
      (r : Outcome ProbeReconcileDecision)
      → HasOpened o
      → decide_probe_reconciliation letters c o seen now ≡ r
      → Stays (r >>= after_decision letters c seen slots o)
  decision-Stays seen now slots o (raise e) opened h = tt
  decision-Stays seen now slots o (ok d) opened h =
      if-Stays (is_completed d.next_state) _ _
        (λ t. complete-Stays letters c slots o d.adopt_binding _ _ true _ refl)
        (λ f.
          let ended = decide-ends letters c o seen now opened h in
          reconciled-HasOpened o d seen.observed_at opened (ground arith))

  call-Stays :
      (x : Call) (slots : Slots) (o : ProbeMutationOperation)
      → HasOpened o
      → Stays (run_call letters c x slots o)
  unfolding run_call complete_phase reconcile_phase
  call-Stays (authorize_close now) slots o opened =
      keeping-Stays (close_phase now o) slots (λ after e. close_phase-Stays o now opened e)
  call-Stays (authorize_open now) slots o opened =
      keeping-Stays (open_phase now o) slots (λ after e. open_phase-opened o now e)
  call-Stays (fail reason now) slots o opened =
      keeping-Stays (fail_phase reason now o) slots
        (λ after e. fail_phase-Stays o reason now opened e)
  call-Stays (complete binding outcome at) slots o opened =
      if-Stays (is_completed o.state) _ _ (λ t. opened)
        (λ f.
          if-Stays (not (probe_unresolved o.state)) _ _ (λ t. tt)
            (λ g.
              if-Stays (not (may_complete o)) _ _ (λ t. tt)
                (λ k. complete-Stays letters c slots o binding at outcome false _ refl)))
  call-Stays (reconcile seen now) slots o opened =
      if-Stays (not (probe_unresolved o.state)) _ _ (λ t. opened)
        (λ f. decision-Stays seen now slots o _ opened refl)

  or_same-Stays :
      (p : ProbeMutationOperation × Slots) (r : Result)
      → HasOpened p.0
      → Stays r
      → HasOpened (or_same p r).0
  or_same-Stays p (ok q) opened h = h
  or_same-Stays p (raise e) opened h = opened

  calls-HasOpened :
      (xs : List Call) (p : ProbeMutationOperation × Slots)
      → HasOpened p.0
      → HasOpened (after_calls letters c xs p).0
  calls-HasOpened [] p opened = opened
  calls-HasOpened (x ∷ xs) p opened =
      calls-HasOpened xs (or_same p (run_call letters c x p.1 p.0))
        (or_same-Stays p (run_call letters c x p.1 p.0) opened (call-Stays x p.1 p.0 opened))

-- The authority to open a window is given to an operation at most once: after a call that gave it,
-- whatever calls follow on the operation one after another, reconciliations with any observations among
-- them, another request for it is refused.
pub opens_once :
    (letters : Letters) (c : Conversions) (xs : List Call) (slots : Slots)
    (o opened : ProbeMutationOperation) (at now : ℕ)
    → open_phase at o ≡ ok opened
    → open_phase now (after_calls letters c xs (opened, slots)).0
      ≡ raise (runtime_error "probe operation is not ready for OPEN")
opens_once letters c xs slots o opened at now h =
    open_refused (after_calls letters c xs (opened, slots)).0 now
      (calls-HasOpened letters c xs (opened, slots) (open_phase-opened o at h))

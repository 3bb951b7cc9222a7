-- ===== src/Registry/Attempts.antt =====
-- src/lws/registry.py, the action attempts under any calls of the registry, one after another.
use localshell_web_superviso.Base.{
  ℕ, ◌≤◌, ◌≡◌, refl, sym, subst, true, false, ◌⊎◌, inl, inr, Option, none, String, List, [], ◌∷◌,
  Outcome, ok, raise, arith,
}
use localshell_web_superviso.Models.Mutation.{ActionAttempt, action_unresolved}
use localshell_web_superviso.Registry.Actions.{
  Store, ActionAcknowledgement, record_action_attempt, record_current_worker_action_attempt,
  record_recovery_action_attempt,
}
use localshell_web_superviso.Registry.Updates.{
  mark_action_submitted, mark_action_reconcile_required, fail_action_attempt, cancel_action_attempt,
  acknowledge_action, record_action_ack_browser_signature,
}
use localshell_web_superviso.Registry.Pending.{count, insert-count, put-count}
use localshell_web_superviso.Registry.Changes.{
  Change, added, replaced, update-Change, submitted-IsStep, settled-IsStep, acknowledged-IsStep,
  signature-Change, recorded-Change, current-Change, recovery-Change,
}

-- The registry's operations on action attempts.
pub data Call : Type 0 where
  record_any record_current record_recovery : ActionAttempt → Call
  submit : String → String → ℕ → Call
  require_reconcile fail : String → String → Option String → ℕ → Call
  cancel : String → String → ℕ → Call
  acknowledge : ActionAcknowledgement → Call
  sign : String → String → Call

unfoldable pub run_call : Store → Call → Outcome Store
run_call st (record_any a) = record_action_attempt st a
run_call st (record_current a) = record_current_worker_action_attempt st a
run_call st (record_recovery a) = record_recovery_action_attempt st a
run_call st (submit id transport now) = mark_action_submitted st id transport now
run_call st (require_reconcile id error transport now) =
    mark_action_reconcile_required st id error transport now
run_call st (fail id error transport now) = fail_action_attempt st id error transport now
run_call st (cancel id reason now) = cancel_action_attempt st id reason now
run_call st (acknowledge k) = acknowledge_action st k
run_call st (sign id signature) = record_action_ack_browser_signature st id signature

-- The store after a call; one that raises has written nothing.
abbrev pub or_same : Store → Outcome Store → Store
or_same st (ok after) = after
or_same st (raise e) = st

abbrev pub after_calls : Store → List Call → Store
after_calls st [] = st
after_calls st (c ∷ cs) = after_calls (or_same st (run_call st c)) cs

pub run-Change :
    (st : Store) (c : Call) {after : Store} → run_call st c ≡ ok after → Change st after
unfolding run_call
run-Change st (record_any a) h = recorded-Change st a h
run-Change st (record_current a) h = current-Change st a h
run-Change st (record_recovery a) h = recovery-Change st a h
run-Change st (submit id transport now) h = update-Change st id _ (submitted-IsStep transport now) h
run-Change st (require_reconcile id error transport now) h =
    update-Change st id _ (settled-IsStep _ error transport now) h
run-Change st (fail id error transport now) h =
    update-Change st id _ (settled-IsStep _ error transport now) h
run-Change st (cancel id reason now) h = update-Change st id _ (settled-IsStep _ reason none now) h
run-Change st (acknowledge k) h = update-Change st k.attempt_id _ (acknowledged-IsStep k) h
run-Change st (sign id signature) h = signature-Change st id signature h

Change-count :
    (st after : Store) (id : String)
    → Change st after
    → count id st.attempts ≤ 1
    → count id after.attempts ≤ 1
Change-count st after id (added a _ free same) h =
    subst (λ xs. count id xs ≤ 1) (sym same) (insert-count id st.attempts a free h)
Change-count st after id (replaced new old _ found task step same tasks) h =
    let less = put-count id st.attempts new found task (weaken step) in
    subst (λ xs. count id xs ≤ 1) (sym same) (omega arith)
  where
    weaken :
        (action_unresolved old.state ≡ true)
          ⊎ ((action_unresolved new.state ≡ false) × (new.state ≡ old.state))
        → (action_unresolved old.state ≡ true) ⊎ (action_unresolved new.state ≡ false)
    weaken (inl x) = inl x
    weaken (inr (x, y)) = inr x

or_same-count :
    (st : Store) (id : String) (r : Outcome Store)
    → ((after : Store) → r ≡ ok after → Change st after)
    → count id st.attempts ≤ 1
    → count id (or_same st r).attempts ≤ 1
or_same-count st id (ok after) change h = Change-count st after id (change after refl) h
or_same-count st id (raise e) change h = h

-- Whatever calls follow one another, none of them overlapping another, a task that has at most one
-- unresolved action attempt goes on having at most one: no action is sent while the outcome of another is
-- unknown.
pub one_unresolved :
    (cs : List Call) (st : Store) (id : String)
    → count id st.attempts ≤ 1
    → count id (after_calls st cs).attempts ≤ 1
one_unresolved [] st id h = h
one_unresolved (c ∷ cs) st id h =
    one_unresolved cs (or_same st (run_call st c)) id
      (or_same-count st id (run_call st c) (λ after e. run-Change st c e) h)

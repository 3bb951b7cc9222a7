-- ===== src/Registry/Budget.antt =====
-- src/lws/registry.py, `record_recovery_action_attempt`: the budget of recoveries of a task.
use localshell_web_superviso.Base.{
  ℕ, suc, ◌<◌, ◌≡◌, sym, ap, ◌∙◌, subst, false, not, inl, inr, some, String, List, [], ◌∷◌, ◌++◌,
  find, ◌==◌, leb, if_inversion, ok, raise_if, raise_if-false, bind-eq-ok, ok-cancel, arith,
}
use localshell_web_superviso.Models.Mutation.{ActionAttempt}
use localshell_web_superviso.Registry.Actions.{
  TaskRow, Store, task_of, or_key_error, insert_attempt, is_armed, is_terminal_task,
  check_authoritative, charge, record_recovery_action_attempt,
}
use localshell_web_superviso.Registry.Changes.{or_key_error-ok, insert_lem}

-- the row after one more recovery
abbrev pub charged : ℕ → TaskRow → TaskRow
charged at t = record t { recovery_attempts = suc t.recovery_attempts; updated_at = at }

charge-find :
    (id : String) (at : ℕ) (ts : List TaskRow) {t : TaskRow}
    → find (λ (x : TaskRow). x.task_id == id) ts ≡ some t
    → find (λ (x : TaskRow). x.task_id == id) (charge id at ts) ≡ some (charged at t)
unfolding find charge
charge-find id at [] h = cc
charge-find id at (x ∷ ts) {t} h = elim (if_inversion (x.task_id == id) h) [
  | inl (s, e) ↦ ground (arith, s, e)
  | inr (f, e) ↦ let rest = charge-find id at ts e in ground (arith, f, rest)
]

not-leb : (a b : ℕ) → leb a b ≡ false → b < a
not-leb a b h = ground arith

-- A recovery is recorded only for a task that is not over and has budget left, and it takes one of it:
-- the count of the task's row is one higher, still within the limit, which does not change.
pub recovery_charges_one :
    (st : Store) (a : ActionAttempt) {after : Store}
    → record_recovery_action_attempt st a ≡ ok after
    → (t : TaskRow) × (task_of st a.task_id ≡ some t)
      × (is_terminal_task t ≡ false)
      × (t.recovery_attempts < t.max_recovery_attempts)
      × (task_of after a.task_id ≡ some (charged a.created_at t))
      × (after.attempts ≡ st.attempts ++ a ∷ [])
unfolding record_recovery_action_attempt
recovery_charges_one st a {after} h =
    let (u1, e1, h1) = bind-eq-ok (raise_if (not (is_armed a.state)) _) _ h in
    let (t, e2, h2) = bind-eq-ok (or_key_error _ (task_of st a.task_id)) _ h1 in
    let (u3, e3, h3) = bind-eq-ok (raise_if (is_terminal_task t) _) _ h2 in
    let (u4, e4, h4) =
      bind-eq-ok (raise_if (leb t.max_recovery_attempts t.recovery_attempts) _) _ h3 in
    let (u5, e5, h5) = bind-eq-ok (check_authoritative st a t) _ h4 in
    let (middle, e6, h6) = bind-eq-ok (insert_attempt st a) _ h5 in
    let (fresh, same) = insert_lem st a e6 in
    let found = or_key_error-ok _ (task_of st a.task_id) e2 in
    let tasks : middle.tasks ≡ st.tasks = ap (λ (x : Store). x.tasks) same in
    let charging = charge-find a.task_id a.created_at st.tasks found in
    let last : charge a.task_id a.created_at st.tasks ≡ after.tasks =
      ap (charge a.task_id a.created_at) (sym tasks) ∙ ap (λ (x : Store). x.tasks) (ok-cancel h6) in
    (
      t,
      found,
      raise_if-false _ _ e3,
      not-leb _ _ (raise_if-false _ _ e4),
      subst
          (λ ts. find (λ (x : TaskRow). x.task_id == a.task_id) ts ≡ some (charged a.created_at t))
          last charging,
      sym (ap (λ (x : Store). x.attempts) (ok-cancel h6)) ∙ ap (λ (x : Store). x.attempts) same,
    )

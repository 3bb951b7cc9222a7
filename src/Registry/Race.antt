-- ===== src/Registry/Race.antt =====
-- src/lws/registry.py, two calls on one action attempt that overlap.
use localshell_web_superviso.Base.{
  take_text, ◌≡◌, refl, ap, ◌∙◌, some, inl, inr, if_inversion, String, List, [], ◌∷◌, find, ◌==◌,
  eq_iff, arith, ok, ℕ, none,
}
use localshell_web_superviso.Models.Mutation.{ActionAttempt, ActionAttemptState}
use localshell_web_superviso.Registry.Actions.{
  or_key_error, Store, attempt_of, put_attempt, replace_action_attempt,
}
use localshell_web_superviso.Registry.Updates.{update_attempt, submitted_of, settled_of}
use localshell_web_superviso.Registry.Changes.{read_lem}
use localshell_web_superviso.Registry.Attempts.{cancel, run_call}
use localshell_web_superviso.Registry.Final.{Stands}
use localshell_web_superviso.Registry.Overlap.{
  Run, here, next, reads, writes, whole, submitting, run_update,
}

put-found :
    (xs : List ActionAttempt) (new : ActionAttempt) (id : String) {a : ActionAttempt}
    → find (λ (x : ActionAttempt). x.attempt_id == id) xs ≡ some a
    → new.attempt_id ≡ id
    → find (λ (x : ActionAttempt). x.attempt_id == id) (put_attempt new xs) ≡ some new
unfolding find put_attempt
put-found [] new id h e = cc
put-found (x ∷ xs) new id {a} h e =
    let n1 = eq_iff x.attempt_id new.attempt_id in
    let n2 = eq_iff x.attempt_id id in
    let n3 = eq_iff new.attempt_id id in
    elim (if_inversion (x.attempt_id == id) h) [
      | inl (t, d) ↦ ground (arith, t, n1, n2, n3)
      | inr (f, d) ↦ let rest = put-found xs new id d e in ground (arith, f, n1, n2, n3, rest)
    ]

-- A row with the key of an attempt takes its place.
replaced_by :
    (st : Store) (new : ActionAttempt) {a : ActionAttempt}
    → attempt_of st new.attempt_id ≡ some a
    → replace_action_attempt st new ≡ ok (record st { attempts = put_attempt new st.attempts })
unfolding replace_action_attempt
replaced_by st new h = rw (h) refl

abbrev submitted_row : String → ℕ → ActionAttempt → ActionAttempt
submitted_row transport now a = record a {
  state = ActionAttemptState.submitted;
  transport_name = some transport;
  submitted_at = some now;
  updated_at = now;
}

submits :
    (transport : String) (now : ℕ) (a : ActionAttempt)
    → a.state ≡ ActionAttemptState.armed
    → run_update (submitting transport now) a ≡ ok (submitted_row transport now a)
unfolding run_update submitted_of
submits transport now a h = rw (h) refl

abbrev cancelled_row : String → ℕ → ActionAttempt → ActionAttempt
cancelled_row reason now a = record a {
  state = ActionAttemptState.cancelled;
  last_error = some (take_text 1000 reason);
  updated_at = now;
}

cancels :
    (reason : String) (now : ℕ) (a : ActionAttempt)
    → a.state ≡ ActionAttemptState.armed
    → settled_of ActionAttemptState.cancelled reason none now a ≡ ok (cancelled_row reason now a)
unfolding settled_of
cancels reason now a h = rw (h) refl

-- The table with the row in the place of the one with its key.
abbrev with_row : Store → ActionAttempt → Store
with_row st new = record st { attempts = put_attempt new st.attempts }

cancel_runs :
    (st : Store) (id reason : String) (now : ℕ) {a : ActionAttempt}
    → attempt_of st id ≡ some a
    → a.attempt_id ≡ id
    → a.state ≡ ActionAttemptState.armed
    → run_call st (cancel id reason now) ≡ ok (with_row st (cancelled_row reason now a))
unfolding run_call update_attempt
cancel_runs st id reason now {a} found named armed =
    rw (found, cancels reason now a armed)
      (replaced_by st (cancelled_row reason now a) (ap (attempt_of st) named ∙ found))

-- An attempt that is cancelled between the read and the write of a submission is submitted after all: where
-- it is armed, there is a run of the two calls in which it stands cancelled, and then submitted.
pub cancel_overwritten :
    (st : Store) (id transport reason : String) (now : ℕ)
    → Stands st id ActionAttemptState.armed
    → (middle : Store) × (last : Store) × (row : ActionAttempt) × Run st [] middle (row ∷ [])
      × Stands middle id ActionAttemptState.cancelled
      × Run middle (row ∷ []) last []
      × Stands last id ActionAttemptState.submitted
cancel_overwritten st id transport reason now (a, found, armed) =
    let read = ap (or_key_error "unknown action attempt") found in
    let named = (read_lem st id read).1 in
    let row = submitted_row transport now a in
    let gone = cancelled_row reason now a in
    let middle = with_row st gone in
    let there = put-found st.attempts gone id found named in
    let last = with_row middle row in
    let done = put-found middle.attempts row id there named in
    (
      middle,
      last,
      row,
      next
          (next here (
            reads (submitting transport now) id a row read (submits transport now a armed) refl
              refl))
          (whole (cancel id reason now) (cancel_runs st id reason now found named armed) refl),
      (gone, there, refl),
      next here (
          writes [] [] row refl (replaced_by middle row (ap (attempt_of middle) named ∙ there))
            refl),
      (row, done, refl),
    )

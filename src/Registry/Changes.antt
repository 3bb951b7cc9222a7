-- ===== src/Registry/Changes.antt =====
-- src/lws/registry.py, the action attempts: what each operation changes.
use localshell_web_superviso.Base.{
  ℕ, ◌≡◌, refl, sym, ap, ◌∙◌, subst, Bool, true, false, not, ◌||◌, ◌⊎◌, inl, inr, Option, none,
  some, is_some, String, [], ◌∷◌, ◌++◌, any, ◌==◌, leb, Outcome, ok, raise_if, raise_if-ok,
  raise_if-false, bind-eq-ok, ok-cancel, arith, strip,
}
use localshell_web_superviso.Models.Mutation.{ActionAttempt, ActionAttemptState, action_unresolved}
use localshell_web_superviso.WorkerPersistence.Load.{same_id}
use localshell_web_superviso.WorkerPersistence.Compare.{text-eq}
use localshell_web_superviso.WorkerPersistence.Consistent.{find-test}
use localshell_web_superviso.Registry.Pending.{
  count, none-count, found-any, latest-any, latest-none,
}
use localshell_web_superviso.Registry.Actions.{
  TaskRow, Store, ActionAcknowledgement, task_of, worker_of, attempt_of, or_key_error,
  get_action_attempt, is_pending, pending, latest, unresolved_action_attempt, insert_attempt,
  is_another, record_action_attempt, is_armed, is_terminal_task, check_authoritative,
  record_current_worker_action_attempt, record_recovery_action_attempt, put_attempt,
  replace_action_attempt,
}
use localshell_web_superviso.Registry.Updates.{
  update_attempt, submitted_of, settled_of, validate_acknowledgement, acknowledged_of, signed_of,
  is_acknowledged, record_action_ack_browser_signature,
}

pub insert_lem :
    (st : Store) (a : ActionAttempt) {after : Store}
    → insert_attempt st a ≡ ok after
    → (any (λ (x : ActionAttempt). x.attempt_id == a.attempt_id) st.attempts ≡ false)
      × (after ≡ record st { attempts = st.attempts ++ a ∷ [] })
unfolding insert_attempt
insert_lem st a h =
    let (u, e1, h1) = bind-eq-ok (raise_if (is_some (attempt_of st a.attempt_id)) _) _ h in
    (
      sym (found-any (λ (x : ActionAttempt). x.attempt_id == a.attempt_id) st.attempts)
          ∙ raise_if-false _ _ e1,
      sym (ok-cancel h1),
    )

-- What the operations do to the attempts: one is added for a task with none unresolved, or one is
-- replaced that was unresolved or is resolved now.
pub data Change (st : Store) : Store → Type 0 where
  added :
      (a : ActionAttempt) (after : Store)
      → count a.task_id st.attempts ≡ 0
      → after.attempts ≡ st.attempts ++ a ∷ []
      → Change st after
  replaced :
      (new old : ActionAttempt) (after : Store)
      → attempt_of st new.attempt_id ≡ some old
      → new.task_id ≡ old.task_id
      → (action_unresolved old.state ≡ true)
        ⊎ ((action_unresolved new.state ≡ false) × (new.state ≡ old.state))
      → after.attempts ≡ put_attempt new st.attempts
      → after.tasks ≡ st.tasks
      → Change st after

pub replace_lem :
    (st : Store) (a : ActionAttempt) {after : Store}
    → replace_action_attempt st a ≡ ok after
    → record st { attempts = put_attempt a st.attempts } ≡ after
unfolding replace_action_attempt
replace_lem st a h =
    let (u, e1, h1) = bind-eq-ok (raise_if (not (is_some (attempt_of st a.attempt_id))) _) _ h in
    ok-cancel h1

pub or_key_error-ok {ℓ} :
    {A : Type ℓ} (text : String) (o : Option A) {a : A} → or_key_error text o ≡ ok a → o ≡ some a
or_key_error-ok text none h = cc
or_key_error-ok text (some x) h = cc

-- What an update makes of an attempt: it was unresolved, or it stays as resolved as it was.
pub record IsStep (old new : ActionAttempt) : Type 0 where
  pub key : new.attempt_id ≡ old.attempt_id
  pub task : new.task_id ≡ old.task_id
  pub resolved :
      (action_unresolved old.state ≡ true)
      ⊎ ((action_unresolved new.state ≡ false) × (new.state ≡ old.state))

-- An attempt that is read under its key has it.
pub read_lem :
    (st : Store) (id : String) {a : ActionAttempt}
    → get_action_attempt st id ≡ ok a
    → (attempt_of st id ≡ some a) × (a.attempt_id ≡ id)
read_lem st id {a} read =
    let found = or_key_error-ok _ (attempt_of st id) read in
    (
      found,
      text-eq a.attempt_id id
          (find-test (λ (x : ActionAttempt). x.attempt_id == id) st.attempts found),
    )

pub update-Change :
    (st : Store) (id : String) (update : ActionAttempt → Outcome ActionAttempt) {after : Store}
    → ((old new : ActionAttempt) → update old ≡ ok new → IsStep old new)
    → update_attempt st id update ≡ ok after
    → Change st after
unfolding update_attempt
update-Change st id update {after} steps h =
    let (old, e1, h1) = bind-eq-ok (get_action_attempt st id) _ h in
    let (new, e2, h2) = bind-eq-ok (update old) _ h1 in
    let step = steps old new e2 in
    let (found, named) = read_lem st id e1 in
    let same = replace_lem st new h2 in
    replaced new old after (subst (λ i. attempt_of st i ≡ some old) (sym (step.key ∙ named)) found)
      step.task step.resolved (sym (ap (λ (x : Store). x.attempts) same))
      (sym (ap (λ (x : Store). x.tasks) same))

armed-unresolved : (s : ActionAttemptState) → is_armed s ≡ true → action_unresolved s ≡ true
armed-unresolved s h = ground arith

acknowledged-resolved :
    (s : ActionAttemptState) → is_acknowledged s ≡ true → action_unresolved s ≡ false
acknowledged-resolved s h = ground arith

not-false : {b : Bool} → not b ≡ false → b ≡ true
not-false {b = true} h = refl
not-false {b = false} h = cc

pub submitted-IsStep :
    (transport : String) (now : ℕ) (old new : ActionAttempt)
    → submitted_of transport now old ≡ ok new
    → IsStep old new
unfolding submitted_of
submitted-IsStep transport now old new h =
    let (u, e, h1) = bind-eq-ok (raise_if (not (is_armed old.state)) _) _ h in
    subst (IsStep old) (ok-cancel h1) (record {
      key = refl;
      task = refl;
      resolved = inl (armed-unresolved old.state (raise_if-ok _ _ e));
    })

pub settled-IsStep :
    (state : ActionAttemptState) (error : String) (transport : Option String) (now : ℕ)
    (old new : ActionAttempt)
    → settled_of state error transport now old ≡ ok new
    → IsStep old new
unfolding settled_of
settled-IsStep state error transport now old new h =
    let (u, e, h1) = bind-eq-ok (raise_if (not (action_unresolved old.state)) _) _ h in
    subst (IsStep old) (ok-cancel h1)
      (record { key = refl; task = refl; resolved = inl (raise_if-ok _ _ e) })

pub acknowledged-IsStep :
    (k : ActionAcknowledgement) (old new : ActionAttempt)
    → acknowledged_of k old ≡ ok new
    → IsStep old new
unfolding acknowledged_of validate_acknowledgement
acknowledged-IsStep k old new h =
    let (u, e, h1) = bind-eq-ok (validate_acknowledgement old k) _ h in
    let (v, e1, h2) = bind-eq-ok (raise_if (not (action_unresolved old.state)) _) _ e in
    subst (IsStep old) (ok-cancel h1)
      (record { key = refl; task = refl; resolved = inl (raise_if-ok _ _ e1) })

pub signed-IsStep :
    (signature : String) (old new : ActionAttempt)
    → signed_of signature old ≡ ok new
    → IsStep old new
unfolding signed_of
signed-IsStep signature old new h =
    let (u, e, h1) = bind-eq-ok (raise_if (not (is_acknowledged old.state)) _) _ h in
    subst (IsStep old) (ok-cancel h1) (record {
      key = refl;
      task = refl;
      resolved = inr (acknowledged-resolved old.state (raise_if-ok _ _ e), refl);
    })

pub signature-Change :
    (st : Store) (id signature : String) {after : Store}
    → record_action_ack_browser_signature st id signature ≡ ok after
    → Change st after
unfolding record_action_ack_browser_signature
signature-Change st id signature {after} h =
    let (u, e, h1) = bind-eq-ok (raise_if (strip signature == "") _) _ h in
    update-Change st id (signed_of signature) (signed-IsStep signature) h1

free_of :
    (o : Option ActionAttempt) (st : Store) (a : ActionAttempt)
    → latest (pending st a.task_id) ≡ o
    → is_another o a.attempt_id ≡ false
    → any (λ (x : ActionAttempt). x.attempt_id == a.attempt_id) st.attempts ≡ false
    → count a.task_id st.attempts ≡ 0
free_of none st a h same fresh = latest-none (pending st a.task_id) h
free_of (some u) st a h same fresh =
    cc (fresh, latest-any a.attempt_id st.attempts (is_pending a.task_id) h (not-false same))

pub recorded-Change :
    (st : Store) (a : ActionAttempt) {after : Store}
    → record_action_attempt st a ≡ ok after
    → Change st after
unfolding record_action_attempt unresolved_action_attempt
recorded-Change st a {after} h =
    let (t, e1, h1) = bind-eq-ok (or_key_error _ (task_of st a.task_id)) _ h in
    let (w, e2, h2) = bind-eq-ok (or_key_error _ (worker_of st a.worker_id)) _ h1 in
    let (u, e3, h3) = bind-eq-ok (raise_if (not (w.task_id == a.task_id)) _) _ h2 in
    let (o, e4, h4) = bind-eq-ok (unresolved_action_attempt st a.task_id) _ h3 in
    let (v, e5, h5) = bind-eq-ok (raise_if (is_another o a.attempt_id) _) _ h4 in
    let (fresh, same) = insert_lem st a h5 in
    let (t', e6, h6) = bind-eq-ok (or_key_error _ (task_of st a.task_id)) _ e4 in
    added a after (free_of o st a (ok-cancel h6) (raise_if-false _ _ e5) fresh)
      (ap (λ (x : Store). x.attempts) same)

check-free :
    (st : Store) (a : ActionAttempt) (t : TaskRow) {u : Unit {0}}
    → check_authoritative st a t ≡ ok u
    → count a.task_id st.attempts ≡ 0
unfolding check_authoritative
check-free st a t h =
    let (w, e1, h1) = bind-eq-ok (or_key_error _ (worker_of st a.worker_id)) _ h in
    let (u, e2, h2) = bind-eq-ok (raise_if (not (w.task_id == a.task_id)) _) _ h1 in
    let (v, e3, h3) =
      bind-eq-ok
        (raise_if
          (not (same_id t.current_worker_id (some a.worker_id)) || not (w.status == "active")) _)
        _ h2 in
    none-count a.task_id st.attempts (raise_if-false _ _ h3)

pub current-Change :
    (st : Store) (a : ActionAttempt) {after : Store}
    → record_current_worker_action_attempt st a ≡ ok after
    → Change st after
unfolding record_current_worker_action_attempt
current-Change st a {after} h =
    let (u1, e1, h1) = bind-eq-ok (raise_if (not (is_armed a.state)) _) _ h in
    let (t, e2, h2) = bind-eq-ok (or_key_error _ (task_of st a.task_id)) _ h1 in
    let (u3, e3, h3) = bind-eq-ok (raise_if (is_terminal_task t) _) _ h2 in
    let (u4, e4, h4) = bind-eq-ok (check_authoritative st a t) _ h3 in
    let (fresh, same) = insert_lem st a h4 in
    added a after (check-free st a t e4) (ap (λ (x : Store). x.attempts) same)

pub recovery-Change :
    (st : Store) (a : ActionAttempt) {after : Store}
    → record_recovery_action_attempt st a ≡ ok after
    → Change st after
unfolding record_recovery_action_attempt
recovery-Change st a {after} h =
    let (u1, e1, h1) = bind-eq-ok (raise_if (not (is_armed a.state)) _) _ h in
    let (t, e2, h2) = bind-eq-ok (or_key_error _ (task_of st a.task_id)) _ h1 in
    let (u3, e3, h3) = bind-eq-ok (raise_if (is_terminal_task t) _) _ h2 in
    let (u4, e4, h4) =
      bind-eq-ok (raise_if (leb t.max_recovery_attempts t.recovery_attempts) _) _ h3 in
    let (u5, e5, h5) = bind-eq-ok (check_authoritative st a t) _ h4 in
    let (middle, e6, h6) = bind-eq-ok (insert_attempt st a) _ h5 in
    let (fresh, same) = insert_lem st a e6 in
    added a after (check-free st a t e5)
      (sym (ap (λ (x : Store). x.attempts) (ok-cancel h6)) ∙ ap (λ (x : Store). x.attempts) same)

-- ===== src/Registry/Overlap.antt =====
-- src/lws/registry.py, the action attempts under calls that overlap: a call of `Updates` reads an attempt,
-- and writes its row when others, of this process or of another, may have written it since.
use localshell_web_superviso.Base.{
  ◌≡◌, ◌≢◌, sym, ap, ◌∙◌, subst, false, ◌⊎◌, inl, inr, some, is_some, is_some-eq, not, String, List,
  [], ◌∷◌, ◌++◌, All, ◌==◌, eq_iff, Outcome, ok, raise_if, raise_if-ok, bind-eq-ok, Bool-cases,
  Option, ℕ,
}
use localshell_web_superviso.Models.Mutation.{ActionAttempt, ActionAttemptState, action_unresolved}
use localshell_web_superviso.WorkerPersistence.Consistent.{find-test}
use localshell_web_superviso.Registry.Actions.{
  Store, ActionAcknowledgement, get_action_attempt, attempt_of, put_attempt, insert_attempt,
  replace_action_attempt,
}
use localshell_web_superviso.Registry.Updates.{submitted_of, settled_of, acknowledged_of, signed_of}
use localshell_web_superviso.Registry.Pending.{option-cancel}
use localshell_web_superviso.Registry.Changes.{
  IsStep, read_lem, replace_lem, insert_lem, submitted-IsStep, settled-IsStep, acknowledged-IsStep,
  signed-IsStep,
}
use localshell_web_superviso.Registry.Attempts.{Call, run_call, run-Change}
use localshell_web_superviso.Registry.Final.{Stands, Change-Stands, find-append, find-put}

-- What a call makes of the attempt that it has read.
pub data Update : Type 0 where
  submitting : String → ℕ → Update
  settling : ActionAttemptState → String → Option String → ℕ → Update
  acknowledging : ActionAcknowledgement → Update
  signing : String → Update

unfoldable pub run_update : Update → ActionAttempt → Outcome ActionAttempt
run_update (submitting transport now) a = submitted_of transport now a
run_update (settling state error transport now) a = settled_of state error transport now a
run_update (acknowledging k) a = acknowledged_of k a
run_update (signing signature) a = signed_of signature a

run-IsStep : (u : Update) (old new : ActionAttempt) → run_update u old ≡ ok new → IsStep old new
unfolding run_update
run-IsStep (submitting transport now) old new h = submitted-IsStep transport now old new h
run-IsStep (settling state error transport now) old new h =
    settled-IsStep state error transport now old new h
run-IsStep (acknowledging k) old new h = acknowledged-IsStep k old new h
run-IsStep (signing signature) old new h = signed-IsStep signature old new h

-- One step of some caller, with `before` and `after` the rows that calls under way have still to write: a
-- call reads an attempt, one of them writes, one of them dies, an attempt is inserted, or a call runs as
-- a whole.
pub data Step (st : Store) (before : List ActionAttempt) (now : Store) (after : List ActionAttempt)
    : Type 0 where
  reads :
      (u : Update) (id : String) (old new : ActionAttempt)
      → get_action_attempt st id ≡ ok old
      → run_update u old ≡ ok new
      → now ≡ st
      → after ≡ new ∷ before
      → Step st before now after
  writes :
      (xs ys : List ActionAttempt) (new : ActionAttempt)
      → before ≡ xs ++ new ∷ ys
      → replace_action_attempt st new ≡ ok now
      → after ≡ xs ++ ys
      → Step st before now after
  dies :
      (xs ys : List ActionAttempt) (new : ActionAttempt)
      → before ≡ xs ++ new ∷ ys
      → now ≡ st
      → after ≡ xs ++ ys
      → Step st before now after
  inserts :
      (a : ActionAttempt) → insert_attempt st a ≡ ok now → after ≡ before → Step st before now after
  whole : (c : Call) → run_call st c ≡ ok now → after ≡ before → Step st before now after

pub data Run (st : Store) (waiting : List ActionAttempt) : Store → List ActionAttempt → Type 0 where
  here : Run st waiting st waiting
  next :
      {now later : Store} {before after : List ActionAttempt}
      → Run st waiting now before
      → Step now before later after
      → Run st waiting later after

-- The row is of another attempt, or it has the state.
abbrev Agrees : String → ActionAttemptState → ActionAttempt → Type 0
Agrees id state a = (a.attempt_id ≢ id) ⊎ (a.state ≡ state)

All-middle :
    (P : ActionAttempt → Type 0) (xs ys : List ActionAttempt) (a : ActionAttempt)
    → All P (xs ++ a ∷ ys)
    → P a × All P (xs ++ ys)
All-middle P [] ys a ps = ps
All-middle P (x ∷ xs) ys a (p, ps) = let (q, qs) = All-middle P xs ys a ps in (q, (p, qs))

-- A row that is made from a settled attempt has its state.
read-Agrees :
    (st : Store) (id other : String) (state : ActionAttemptState) (u : Update)
    (old new : ActionAttempt)
    → action_unresolved state ≡ false
    → Stands st id state
    → get_action_attempt st other ≡ ok old
    → run_update u old ≡ ok new
    → Agrees id state new
read-Agrees st id other state u old new done (a, found, is) read made =
    let (f, named) = read_lem st other read in
    let step = run-IsStep u old new made in
    elim (Bool-cases (other == id)) [
      | inl t ↦
          let at = (eq_iff other id).0 t in
          let same : old ≡ a = option-cancel (sym f ∙ ap (attempt_of st) at ∙ found) in
          let settled = ap (λ (x : ActionAttempt). x.state) same ∙ is in
          elim step.resolved [
            | inl x ↦ cc (x, ap action_unresolved settled, done)
            | inr (x, y) ↦ inr (y ∙ settled)
          ]
      | inr n ↦ inl (λ e. cc (n, (eq_iff other id).1 (sym named ∙ sym step.key ∙ e)))
    ]

write-Stands :
    (st now : Store) (id : String) (state : ActionAttemptState) (new : ActionAttempt)
    → Stands st id state
    → Agrees id state new
    → replace_action_attempt st new ≡ ok now
    → Stands now id state
unfolding replace_action_attempt
write-Stands st now id state new (a, found, is) agrees h =
    let (u, e, h1) = bind-eq-ok (raise_if (not (is_some (attempt_of st new.attempt_id))) _) _ h in
    let (old, there) = is_some-eq (attempt_of st new.attempt_id) (raise_if-ok _ _ e) in
    let put = replace_lem st new h in
    subst (λ x. Stands x id state) put
      (elim (find-put st.attempts new id found there) [
        | inl r ↦ (a, r, is)
        | inr (r, q) ↦ elim agrees [
          | inl ne ↦ absurd (
              ne (
                (eq_iff new.attempt_id id).0 (
                  find-test (λ (x : ActionAttempt). x.attempt_id == id)
                    (put_attempt new st.attempts) r)))
          | inr y ↦ (new, r, y)
        ]
      ])

Step-keeps :
    (st now : Store) (before after : List ActionAttempt) (id : String) (state : ActionAttemptState)
    → action_unresolved state ≡ false
    → Step st before now after
    → Stands st id state × All (Agrees id state) before
    → Stands now id state × All (Agrees id state) after
Step-keeps st now before after id state done (reads u other old new read made same more) (s, ps) =
    rw (same, more) (s, (read-Agrees st id other state u old new done s read made, ps))
Step-keeps st now before after id state done (writes xs ys new was wrote less) (s, ps) =
    let (p, qs) = All-middle (Agrees id state) xs ys new (subst (All (Agrees id state)) was ps) in
    (write-Stands st now id state new s p wrote, rw (less) qs)
Step-keeps st now before after id state done (dies xs ys new was same less) (s, ps) =
    let (p, qs) = All-middle (Agrees id state) xs ys new (subst (All (Agrees id state)) was ps) in
    rw (same, less) (s, qs)
Step-keeps st now before after id state done (inserts a made same) ((b, found, is), ps) =
    let (fresh, e) = insert_lem st a made in
    (
      (
        b,
        subst (λ (x : Store). attempt_of x id ≡ some b) (sym e)
            (find-append st.attempts a id found),
        is,
      ),
      rw (same) ps,
    )
Step-keeps st now before after id state done (whole c ran same) (s, ps) =
    (Change-Stands st now id state (run-Change st c ran) done s, rw (same) ps)

Run-keeps :
    {st : Store} {before : List ActionAttempt} {now : Store} {after : List ActionAttempt}
    (id : String) (state : ActionAttemptState)
    → action_unresolved state ≡ false
    → Run st before now after
    → Stands st id state × All (Agrees id state) before
    → Stands now id state × All (Agrees id state) after
Run-keeps id state done here h = h
Run-keeps id state done (next run step) h =
    Step-keeps _ _ _ _ id state done step (Run-keeps id state done run h)

others-Agree :
    (id : String) (state : ActionAttemptState) (waiting : List ActionAttempt)
    → All (λ (a : ActionAttempt). a.attempt_id ≢ id) waiting
    → All (Agrees id state) waiting
others-Agree id state [] ps = tt
others-Agree id state (a ∷ waiting) (p, ps) = (inl p, others-Agree id state waiting ps)

-- An attempt that is acknowledged, failed or cancelled, with no call under way that has read it before,
-- stays so, however the reads and writes of later calls on it, and of any calls on others, interleave.
pub settled_is_final :
    {st now : Store} {waiting after : List ActionAttempt} (id : String) (state : ActionAttemptState)
    → action_unresolved state ≡ false
    → Stands st id state
    → All (λ (a : ActionAttempt). a.attempt_id ≢ id) waiting
    → Run st waiting now after
    → Stands now id state
settled_is_final {waiting = waiting} id state done s others run =
    (Run-keeps id state done run (s, others-Agree id state waiting others)).0

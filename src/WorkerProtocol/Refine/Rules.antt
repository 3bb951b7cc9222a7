-- ===== src/WorkerProtocol/Refine/Rules.antt =====
-- Rules for the early returns of the operations: revision, authority, acceptance.
use localshell_web_superviso.Base.{
  ℕ, ◌≡◌, refl, true, not, Option, none, some, String, List, inl, inr, arith, eq_iff, eqb,
  Bool-cases, Outcome, Returns, ◌>>=◌, if_intro, option_intro, ◌||◌,
}
use localshell_web_superviso.WorkerProtocol.State.{
  DecisionCode, WorkerLease, WorkerTaskState, ProtocolEvent, ProtocolDecision, is_active, is_open,
}
use localshell_web_superviso.WorkerProtocol.Workers.{worker_by_id}
use localshell_web_superviso.WorkerProtocol.Checks.{
  is_id, is_number, reject, unless_rejected, preflight, lease_is_fresh, before_timeline,
  authority_rejection, accept,
}
use localshell_web_superviso.WorkerProtocol.Validity.{IsValid, validate_of-IsValid}
use localshell_web_superviso.WorkerProtocol.Accept.{accept_of-IsValid}
use localshell_web_superviso.WorkerProtocol.Preserve.{Transition-IsValid}
use localshell_web_superviso.WorkerProtocol.Spec.{
  Operation, IsHolder, IsTimely, Transition, Answer, rejected, moved,
}

pub is_id-eq : (o : Option String) (k : String) → is_id o k ≡ true → o ≡ some k
is_id-eq none k h = cc
is_id-eq (some a) k h = ground (arith, eq_iff a k)

pub is_number-eq : (o : Option ℕ) (n : ℕ) → is_number o n ≡ true → o ≡ some n
is_number-eq none n h = cc
is_number-eq (some a) n h = ground arith

module _ (s : WorkerTaskState) (op : Operation) where
  pub reject-Answer : (code : DecisionCode) → Answer s op (reject s code)
  unfolding reject
  reject-Answer code = rejected refl refl refl

  pub accept-Answer :
      (t : WorkerTaskState) (code : DecisionCode) (events : List ProtocolEvent)
      → IsValid s
      → Transition s op t
      → Returns (Answer s op) (accept s t code events)
  accept-Answer t code events h move =
      rw (accept_of-IsValid s t code events (Transition-IsValid s op t move h))
        (moved t move refl refl refl)

  -- The revision test: a stale caller is rejected, any other goes on.
  pub preflight-Answer :
      (rev : ℕ) (rest : Outcome ProtocolDecision)
      → IsValid s
      → Returns (Answer s op) rest
      → Returns (Answer s op) (preflight s rev >>= λ early. unless_rejected early rest)
  unfolding preflight
  preflight-Answer rev rest h answer =
      rw (validate_of-IsValid h) (elim (Bool-cases (eqb rev s.revision)) [
        | inl fresh ↦ rw fresh answer
        | inr stale ↦ rw stale (rejected refl refl refl)
      ])

  -- Either the caller is rejected, or it holds the current lease and is in time.
  pub authority-Answer :
      (id : String) (generation now : ℕ) (rest : Outcome ProtocolDecision)
      → ((w : WorkerLease)
          → IsHolder s id generation w
          → IsTimely s id now w
          → Returns (Answer s op) rest)
      → Returns (Answer s op) (unless_rejected (authority_rejection s id generation now) rest)
  unfolding authority_rejection
  authority-Answer id generation now rest answer =
      if_intro P (not (is_open s.task_status)) _ _ (λ _. reject-Answer _)
        λ opened.
          option_intro P (worker_by_id s id) _ _ (λ _. reject-Answer _)
            λ w found.
              if_intro P (not (is_id s.current_worker_id id) || not (is_active w.status)) _ _
                (λ _. reject-Answer _)
                λ holds.
                  if_intro P
                    (not (eqb generation s.generation) || not (is_number w.generation generation)) _
                    _ (λ _. reject-Answer _)
                    λ fresh.
                      if_intro P (before_timeline now w.claimed_at w.last_heartbeat_at) _ _
                        (λ _. reject-Answer _)
                        λ ordered.
                          if_intro P (not (lease_is_fresh s id now)) _ _ (λ _. reject-Answer _)
                            λ live.
                              answer w
                                (
                                  ground arith,
                                  found,
                                  is_id-eq s.current_worker_id id (ground arith),
                                  ground arith,
                                  ground arith,
                                  is_number-eq w.generation generation (ground arith),
                                )
                                (ordered, ground arith)
    where
      P : Option ProtocolDecision → Type 0
      P o = Returns (Answer s op) (unless_rejected o rest)

-- ===== src/WorkerProtocol/Refine/Leases.antt =====
-- `register_worker`, `claim_worker`, `heartbeat_worker` and `request_handoff` refine the relation.
use localshell_web_superviso.Base.{
  ℕ, ◌<◌, ◌≡◌, refl, false, not, Option, is_some, String, strip, arith, ◌==◌, eq_iff, Outcome,
  Returns, lt→ltb, if_intro, option_intro,
}
use localshell_web_superviso.WorkerProtocol.State.{
  WorkerTaskState, ProtocolDecision, is_candidate, is_open,
}
use localshell_web_superviso.WorkerProtocol.Workers.{worker_by_id}
use localshell_web_superviso.WorkerProtocol.Checks.{require_positive_lease}
use localshell_web_superviso.WorkerProtocol.Operations.{
  register_worker, claim_worker, heartbeat_worker, request_handoff,
}
use localshell_web_superviso.WorkerProtocol.Validity.{IsValid}
use localshell_web_superviso.WorkerProtocol.Spec.{
  Operation, register, claim, heartbeat, handoff, Answer, known,
}
use localshell_web_superviso.WorkerProtocol.Refine.Rules.{
  reject-Answer, accept-Answer, preflight-Answer, authority-Answer,
}

pub claim-Answer :
    (s : WorkerTaskState) (id : String) (now lease rev : ℕ)
    → IsValid s
    → 0 < lease
    → Returns (Answer s (claim id now lease)) (claim_worker s id now lease rev)
unfolding claim_worker require_positive_lease
claim-Answer s id now lease rev h positive = rw (lt→ltb 0 lease positive) (
    preflight-Answer s op rev _ h (
      if_intro P (not (is_open s.task_status)) _ _ (λ _. reject-Answer s op _)
        λ opened.
          option_intro P (worker_by_id s id) _ _ (λ _. reject-Answer s op _)
            λ w found.
              if_intro P (not (is_candidate w.status)) _ _ (λ _. reject-Answer s op _)
                λ cand.
                  if_intro P (is_some s.current_worker_id) _ _ (λ _. reject-Answer s op _)
                    λ idle.
                      accept-Answer s op _ _ _ h
                        (w, ground arith, found, ground arith, ground arith, refl)))
  where
    op : Operation
    op = claim id now lease

    P : Outcome ProtocolDecision → Type 0
    P = Returns (Answer s op)

pub register-Answer :
    (s : WorkerTaskState) (id : String) (ref : Option String) (now rev : ℕ)
    → IsValid s
    → (strip id ≡ "" → ⊥)
    → Returns (Answer s (register id ref now)) (register_worker s id ref now rev)
unfolding register_worker
register-Answer s id ref now rev h given = preflight-Answer s op rev _ h (
    if_intro P (not (is_open s.task_status)) _ _ (λ _. reject-Answer s op _)
      λ opened. rw (empty_id given) (
        option_intro P (worker_by_id s (strip id)) _ _
          (λ absent. accept-Answer s op _ _ _ h (ground arith, absent, refl))
          (λ w found. known id ref now w refl found (ground arith) refl refl refl refl refl)))
  where
    op : Operation
    op = register id ref now

    P : Outcome ProtocolDecision → Type 0
    P = Returns (Answer s op)

    empty_id : (strip id ≡ "" → ⊥) → (strip id == "") ≡ false
    empty_id g = ground (arith, eq_iff (strip id) "", g)

pub heartbeat-Answer :
    (s : WorkerTaskState) (id : String) (generation now lease rev : ℕ)
    → IsValid s
    → 0 < lease
    → Returns
        (Answer s (heartbeat id generation now lease))
        (heartbeat_worker s id generation now lease rev)
unfolding heartbeat_worker require_positive_lease
heartbeat-Answer s id generation now lease rev h positive = rw (lt→ltb 0 lease positive) (
    preflight-Answer s op rev _ h (
      authority-Answer s op id generation now _
        λ w holder timely. rw holder.1 (accept-Answer s op _ _ _ h (w, holder, timely, refl))))
  where
    op : Operation
    op = heartbeat id generation now lease

pub handoff-Answer :
    (s : WorkerTaskState) (id target_id : String) (generation now rev : ℕ)
    → IsValid s
    → Returns
        (Answer s (handoff id target_id generation now))
        (request_handoff s id target_id generation now rev)
unfolding request_handoff
handoff-Answer s id target_id generation now rev h = preflight-Answer s op rev _ h (
    authority-Answer s op id generation now _ λ w holder timely.
      option_intro P (worker_by_id s target_id) _ _ (λ _. reject-Answer s op _)
        λ target found.
          if_intro P (not (is_candidate target.status)) _ _ (λ _. reject-Answer s op _)
            λ cand.
              accept-Answer s op _ _ _ h (w, target, holder, timely, found, ground arith, refl))
  where
    op : Operation
    op = handoff id target_id generation now

    P : Outcome ProtocolDecision → Type 0
    P = Returns (Answer s op)

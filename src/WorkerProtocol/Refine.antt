-- ===== src/WorkerProtocol/Refine.antt =====
-- The operations of src/lws/worker_protocol.py and the protocol relation of `Spec`.
mod Rules
mod Leases
mod Endings
pub mod Takeover
use Leases.{register-Answer, claim-Answer, heartbeat-Answer, handoff-Answer}
use Endings.{complete-Answer, abandon-Answer, close-Answer}
use Takeover.{takeover-Answer}
use localshell_web_superviso.Base.{
  ℕ, ◌+◌, ◌<◌, ◌≡◌, refl, sym, Bool, true, false, not, Option, none, some, is_some, String, List,
  [], ◌∷◌, ◌⊎◌, inl, inr, strip, arith, ◌==◌, eq_iff, eqb, Bool-cases, Option-cases, Outcome, ok,
  Returns, raise, ◌>>=◌, lt→ltb, if_intro, option_intro, ◌||◌,
}
use localshell_web_superviso.WorkerProtocol.State.{
  DecisionCode, WorkerLease, WorkerTaskState, ProtocolEvent, ProtocolDecision, is_candidate,
  is_active, is_open, TakeoverReason,
}
use localshell_web_superviso.WorkerProtocol.Workers.{find_worker, worker_by_id}
use localshell_web_superviso.WorkerProtocol.Checks.{
  is_id, is_number, reject, unless_rejected, preflight, lease_is_fresh, before_timeline,
  authority_rejection, accept, require_positive_lease,
}
use localshell_web_superviso.WorkerProtocol.Operations.{
  register_worker, claim_worker, heartbeat_worker, request_handoff, eligibility_of,
  takeover_eligibility,
}
use localshell_web_superviso.WorkerProtocol.Endings.{
  rejection_code, grant_takeover, takeover_worker, complete_worker, abandon_worker, complete_task,
}
use localshell_web_superviso.WorkerProtocol.Validity.{IsValid, validate_of-IsValid}
use localshell_web_superviso.WorkerProtocol.Accept.{accept_of-IsValid}
use localshell_web_superviso.WorkerProtocol.Preserve.{Transition-IsValid, holder_lem}
use localshell_web_superviso.WorkerProtocol.Spec.{
  Operation, register, claim, heartbeat, handoff, takeover, complete, abandon, close, apply,
  IsWellFormed, IsHolder, IsTimely, Transition, Answer, rejected, known, moved,
}

-- At a valid snapshot every operation with well-formed arguments returns, and its decision is one
-- that the relation allows.
pub apply-Answer :
    (s : WorkerTaskState) (op : Operation) (rev : ℕ)
    → IsValid s
    → IsWellFormed op
    → Returns (Answer s op) (apply s op rev)
unfolding apply
apply-Answer s (register id ref now) rev h f = register-Answer s id ref now rev h f
apply-Answer s (claim id now lease) rev h f = claim-Answer s id now lease rev h f
apply-Answer s (heartbeat id g now lease) rev h f = heartbeat-Answer s id g now lease rev h f
apply-Answer s (handoff id target g now) rev h f = handoff-Answer s id target g now rev h
apply-Answer s (takeover id now lease) rev h f = takeover-Answer s id now lease rev h f
apply-Answer s (complete id g now) rev h f = complete-Answer s id g now rev h
apply-Answer s (abandon id g now) rev h f = abandon-Answer s id g now rev h
apply-Answer s (close ref now) rev h f = close-Answer s ref now rev h

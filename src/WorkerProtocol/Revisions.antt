-- ===== src/WorkerProtocol/Revisions.antt =====
-- src/lws/worker_protocol.py: callers with another revision than the snapshot's, and completed tasks.
use localshell_web_superviso.Base.{
  ℕ, ◌≡◌, ◌≢◌, sym, ap, ◌∙◌, ◌⊎◌, ok-cancel, true, false, some, [], arith, Outcome, ok, raise,
  Returns, eqb, lt→ltb, Bool-cases, inl, inr,
}
use localshell_web_superviso.WorkerProtocol.State.{
  DecisionCode, WorkerTaskState, ProtocolDecision, is_open, mutated,
}
use localshell_web_superviso.WorkerProtocol.Checks.{preflight, require_positive_lease}
use localshell_web_superviso.WorkerProtocol.Operations.{
  register_worker, claim_worker, heartbeat_worker, request_handoff,
}
use localshell_web_superviso.WorkerProtocol.Endings.{
  takeover_worker, complete_worker, abandon_worker, complete_task,
}
use localshell_web_superviso.WorkerProtocol.Validity.{IsValid, validate_of-IsValid}
use localshell_web_superviso.WorkerProtocol.Spec.{
  Operation, register, claim, heartbeat, handoff, takeover, complete, abandon, close, apply,
  IsWellFormed, Transition, Answer, rejected, known, moved,
}
use localshell_web_superviso.WorkerProtocol.Refine.{apply-Answer}
use localshell_web_superviso.WorkerProtocol.Traces.{answer_lem, Answer-IsValid}

abbrev pub stale_decision : WorkerTaskState → ℕ → ProtocolDecision
stale_decision s rev = record {
  accepted = false;
  code = DecisionCode.stale_revision;
  expected_revision = rev;
  state = s;
  events = [];
}

preflight-stale :
    (s : WorkerTaskState) (rev : ℕ)
    → IsValid s
    → rev ≢ s.revision
    → preflight s rev ≡ ok (some (stale_decision s rev))
unfolding preflight
preflight-stale s rev h ne = rw (validate_of-IsValid h) (ground arith)

-- A caller with a stale revision gets the decision that says so, whatever it asks for.
pub apply-stale :
    (s : WorkerTaskState) (op : Operation) (rev : ℕ)
    → IsValid s
    → IsWellFormed op
    → rev ≢ s.revision
    → apply s op rev ≡ ok (stale_decision s rev)
unfolding apply register_worker claim_worker heartbeat_worker request_handoff takeover_worker
    complete_worker abandon_worker complete_task require_positive_lease
apply-stale s (register id ref now) rev h f ne = rw (preflight-stale s rev h ne)
apply-stale s (claim id now lease) rev h f ne = rw (lt→ltb 0 lease f, preflight-stale s rev h ne)
apply-stale s (heartbeat id g now lease) rev h f ne =
    rw (lt→ltb 0 lease f, preflight-stale s rev h ne)
apply-stale s (handoff id target g now) rev h f ne = rw (preflight-stale s rev h ne)
apply-stale s (takeover id now lease) rev h f ne = rw (lt→ltb 0 lease f, preflight-stale s rev h ne)
apply-stale s (complete id g now) rev h f ne = rw (preflight-stale s rev h ne)
apply-stale s (abandon id g now) rev h f ne = rw (preflight-stale s rev h ne)
apply-stale s (close ref now) rev h f ne = rw (preflight-stale s rev h ne)

eqb_lem : (a b : ℕ) → (a ≡ b) ⊎ (a ≢ b)
eqb_lem a b = elim (Bool-cases (eqb a b)) [
  | inl e ↦ inl (ground arith)
  | inr n ↦ inr (ground arith)
]

-- An accepted decision was asked for with the snapshot's revision.
accepted-current :
    (s : WorkerTaskState) (op : Operation) (rev : ℕ) {d : ProtocolDecision}
    → IsValid s
    → IsWellFormed op
    → apply s op rev ≡ ok d
    → d.accepted ≡ true
    → rev ≡ s.revision
accepted-current s op rev h f e a = elim (eqb_lem rev s.revision) [
  | inl same ↦ same
  | inr ne ↦
      let same = ok-cancel (sym e ∙ apply-stale s op rev h f ne) in
      cc (a, ap (λ (x : ProtocolDecision). x.accepted) same)
]

mutated-ne :
    (s : WorkerTaskState) (op : Operation) (d : ProtocolDecision)
    → Answer s op d
    → mutated d ≡ true
    → s.revision ≢ d.state.revision
unfolding mutated
mutated-ne s op d (rejected a e n) m = cc
mutated-ne s op d (known id ref now w i found opened a c r e n) m = ground arith
mutated-ne s op d (moved t move a r e) m = ground arith

closed_lem :
    (s : WorkerTaskState) (op : Operation) (t : WorkerTaskState)
    → is_open s.task_status ≡ false
    → Transition s op t
    → ⊥
closed_lem s (register id ref now) t done m = cc (m.0, done)
closed_lem s (claim id now lease) t done m = cc (m.1, done)
closed_lem s (heartbeat id g now lease) t done m = cc (m.1.0, done)
closed_lem s (handoff id target g now) t done m = cc (m.2.0, done)
closed_lem s (takeover id now lease) t done m = cc (m.3, done)
closed_lem s (complete id g now) t done m = cc (m.1.0, done)
closed_lem s (abandon id g now) t done m = cc (m.1.0, done)
closed_lem s (close ref now) t done m = cc (m.0, done)

-- Of two callers that read one revision, only the first to change the snapshot is let in.
pub lost_update_free :
    (s : WorkerTaskState) (op op' : Operation) (rev : ℕ) {d : ProtocolDecision}
    → IsValid s
    → IsWellFormed op
    → IsWellFormed op'
    → apply s op rev ≡ ok d
    → mutated d ≡ true
    → apply d.state op' rev ≡ ok (stale_decision d.state rev)
unfolding mutated
lost_update_free s op op' rev {d} h f f' e m =
    let answer = answer_lem s op rev h f e in
    let fresh = accepted-current s op rev h f e (ground arith) in
    apply-stale d.state op' rev (Answer-IsValid s op d answer h) f'
      (λ same. mutated-ne s op d answer m (sym fresh ∙ same))

-- A completed task rejects every operation and stays as it is.
pub completed_is_closed :
    (s : WorkerTaskState) (op : Operation) (rev : ℕ)
    → IsValid s
    → IsWellFormed op
    → is_open s.task_status ≡ false
    → Returns (λ d. (d.accepted ≡ false) × (d.state ≡ s) × (d.events ≡ [])) (apply s op rev)
completed_is_closed s op rev h f done = go (apply s op rev) (apply-Answer s op rev h f)
  where
    go :
        (o : Outcome ProtocolDecision)
        → Returns (Answer s op) o
        → Returns (λ d. (d.accepted ≡ false) × (d.state ≡ s) × (d.events ≡ [])) o
    go (ok d) (rejected a e n) = (a, e, n)
    go (ok d) (known id ref now w i found opened a c r e n) = cc
    go (ok d) (moved t move a r e) = absurd (closed_lem s op t done move)
    go (raise x) answer = answer

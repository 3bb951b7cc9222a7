-- ===== src/WorkerProtocol/Traces.antt =====
-- Sequences of operations, by any workers in any order: what holds after each of them.
use localshell_web_superviso.Base.{
  ℕ, ◌+◌, ◌≤◌, ◌≡◌, sym, subst, Option, String, [], arith, ok, raise_if, bind-eq-ok, ok-cancel, ap,
  Returns, strip, ◌==◌,
}
use localshell_web_superviso.WorkerProtocol.State.{WorkerTaskState, ProtocolDecision}
use localshell_web_superviso.WorkerProtocol.Checks.{validate_state}
use localshell_web_superviso.WorkerProtocol.Operations.{initial_state, resolve_root, new_task_state}
use localshell_web_superviso.WorkerProtocol.Validity.{IsValid, IsValid-of_validate}
use localshell_web_superviso.WorkerProtocol.Preserve.{Transition-IsValid}
use localshell_web_superviso.WorkerProtocol.Accept.{IsValid-revision}
use localshell_web_superviso.WorkerProtocol.Spec.{
  Operation, register, claim, heartbeat, handoff, takeover, complete, abandon, close, apply,
  IsWellFormed, Transition, Answer, rejected, known, moved,
}
use localshell_web_superviso.WorkerProtocol.Refine.{apply-Answer}

-- `t` is the snapshot after some operations that returned; a stale or rejected one is a step too.
pub data Steps (s : WorkerTaskState) : WorkerTaskState → Type 0 where
  here : Steps s s
  next :
      {t u : WorkerTaskState}
      → Steps s t
      → (op : Operation) (rev : ℕ) (d : ProtocolDecision) → IsWellFormed op
      → apply t op rev ≡ ok d
      → d.state ≡ u
      → Steps s u

pub answer_lem :
    (s : WorkerTaskState) (op : Operation) (rev : ℕ) {d : ProtocolDecision}
    → IsValid s
    → IsWellFormed op
    → apply s op rev ≡ ok d
    → Answer s op d
answer_lem s op rev {d} h f e = subst (Returns (Answer s op)) e (apply-Answer s op rev h f)

-- Every snapshot that an operation answers with is valid.
pub Answer-IsValid :
    (s : WorkerTaskState) (op : Operation) (d : ProtocolDecision)
    → Answer s op d
    → IsValid s
    → IsValid d.state
Answer-IsValid s op d (rejected a e n) h = subst IsValid (sym e) h
Answer-IsValid s op d (known id ref now w i f o a c r e n) h = subst IsValid (sym e) h
Answer-IsValid s op d (moved t move a r e) h =
    subst IsValid (sym e) (IsValid-revision t (s.revision + 1) (Transition-IsValid s op t move h))

pub Steps-IsValid : {s t : WorkerTaskState} → IsValid s → Steps s t → IsValid t
Steps-IsValid h here = h
Steps-IsValid h (next {t} steps op rev d f e same) =
    let before = Steps-IsValid h steps in
    subst IsValid same (Answer-IsValid t op d (answer_lem t op rev before f e) before)

-- A new task starts valid.
pub new_task_state-IsValid :
    (id : String) (parent root key : Option String) {s : WorkerTaskState}
    → new_task_state id parent root key ≡ ok s
    → IsValid s
unfolding new_task_state
new_task_state-IsValid id parent root key {s} e =
    let (_, named, e1) = bind-eq-ok (raise_if (strip id == "") _) _ e in
    let (roots, resolved, e2) = bind-eq-ok (resolve_root (strip id) parent root) _ e1 in
    let (_, valid, e3) = bind-eq-ok (validate_state _) _ e2 in
    subst IsValid (cc e3) (IsValid-of_validate _ valid)

-- A new task starts with no worker.
pub new_task_state-workers :
    (id : String) (parent root key : Option String) {s : WorkerTaskState}
    → new_task_state id parent root key ≡ ok s
    → s.workers ≡ []
unfolding new_task_state initial_state
new_task_state-workers id parent root key {s} e =
    let (_, named, e1) = bind-eq-ok (raise_if (strip id == "") _) _ e in
    let (roots, resolved, e2) = bind-eq-ok (resolve_root (strip id) parent root) _ e1 in
    let (_, valid, e3) = bind-eq-ok (validate_state _) _ e2 in
    sym (ap (λ (x : WorkerTaskState). x.workers) (ok-cancel e3))

-- Revisions and generations never go back.
Transition-generation :
    (s : WorkerTaskState) (op : Operation) (t : WorkerTaskState)
    → Transition s op t
    → s.generation ≤ t.generation
Transition-generation s (register id ref now) t m = rw m.2 (omega arith)
Transition-generation s (claim id now lease) t m = rw m.5 (omega arith)
Transition-generation s (heartbeat id g now lease) t m = rw m.3 (omega arith)
Transition-generation s (handoff id target g now) t m = rw m.6 (omega arith)
Transition-generation s (takeover id now lease) t m = rw m.9 (omega arith)
Transition-generation s (complete id g now) t m = rw m.3 (omega arith)
Transition-generation s (abandon id g now) t m = rw m.2 (omega arith)
Transition-generation s (close ref now) t m = rw m.3 (omega arith)

Answer-monotone :
    (s : WorkerTaskState) (op : Operation) (d : ProtocolDecision)
    → Answer s op d
    → (s.generation ≤ d.state.generation) × (s.revision ≤ d.state.revision)
Answer-monotone s op d (rejected a e n) = rw e (omega arith, omega arith)
Answer-monotone s op d (known id ref now w i f o a c r e n) = rw e (omega arith, omega arith)
Answer-monotone s op d (moved t move a r e) = rw e (Transition-generation s op t move, omega arith)

-- From a valid snapshot, whatever operations follow, the generation and the revision never fall.
pub Steps-monotone :
    {s t : WorkerTaskState}
    → IsValid s
    → Steps s t
    → (s.generation ≤ t.generation) × (s.revision ≤ t.revision)
Steps-monotone h here = (omega arith, omega arith)
Steps-monotone {s} h (next {t} {u} steps op rev d f e same) =
    let before = Steps-monotone h steps in
    let answer = answer_lem t op rev (Steps-IsValid h steps) f e in
    let after =
      subst (λ (v : WorkerTaskState). (t.generation ≤ v.generation) × (t.revision ≤ v.revision))
        same (Answer-monotone t op d answer) in
    (omega arith, omega arith)

-- In every snapshot that a new task can reach, the invariant of `validate_state` holds.
reachable-IsValid :
    (id : String) (parent root key : Option String) {s t : WorkerTaskState}
    → new_task_state id parent root key ≡ ok s
    → Steps s t
    → IsValid t
reachable-IsValid id parent root key e steps =
    Steps-IsValid (new_task_state-IsValid id parent root key e) steps

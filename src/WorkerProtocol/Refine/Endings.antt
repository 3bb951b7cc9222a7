-- ===== src/WorkerProtocol/Refine/Endings.antt =====
-- `complete_worker`, `abandon_worker` and `complete_task` refine the relation.
use localshell_web_superviso.Base.{
  ℕ, refl, not, is_some, String, strip, arith, ◌==◌, eq_iff, eqb, Outcome, Returns, if_intro,
  option_intro, ◌||◌,
}
use localshell_web_superviso.WorkerProtocol.State.{
  WorkerTaskState, ProtocolDecision, is_active, is_open,
}
use localshell_web_superviso.WorkerProtocol.Workers.{worker_by_id}
use localshell_web_superviso.WorkerProtocol.Checks.{is_id, is_number}
use localshell_web_superviso.WorkerProtocol.Endings.{complete_worker, abandon_worker, complete_task}
use localshell_web_superviso.WorkerProtocol.Validity.{IsValid}
use localshell_web_superviso.WorkerProtocol.Spec.{Operation, complete, abandon, close, Answer}
use localshell_web_superviso.WorkerProtocol.Refine.Rules.{
  is_id-eq, is_number-eq, reject-Answer, accept-Answer, preflight-Answer, authority-Answer,
}

pub complete-Answer :
    (s : WorkerTaskState) (id : String) (generation now rev : ℕ)
    → IsValid s
    → Returns (Answer s (complete id generation now)) (complete_worker s id generation now rev)
unfolding complete_worker
complete-Answer s id generation now rev h = preflight-Answer s op rev _ h (
    authority-Answer s op id generation now _
      λ w holder timely. rw holder.1 (accept-Answer s op _ _ _ h (w, holder, timely, refl)))
  where
    op : Operation
    op = complete id generation now

pub abandon-Answer :
    (s : WorkerTaskState) (id : String) (generation now rev : ℕ)
    → IsValid s
    → Returns (Answer s (abandon id generation now)) (abandon_worker s id generation now rev)
unfolding abandon_worker
abandon-Answer s id generation now rev h = preflight-Answer s op rev _ h (
    if_intro P (not (is_open s.task_status)) _ _ (λ _. reject-Answer s op _)
      λ opened.
        option_intro P (worker_by_id s id) _ _ (λ _. reject-Answer s op _)
          λ w found.
            if_intro P (not (is_id s.current_worker_id id) || not (is_active w.status)) _ _
              (λ _. reject-Answer s op _)
              λ holds.
                if_intro P
                  (not (eqb generation s.generation) || not (is_number w.generation generation)) _ _
                  (λ _. reject-Answer s op _)
                  λ fresh. accept-Answer s op _ _ _ h (
                    w,
                    (
                      ground arith,
                      found,
                      is_id-eq s.current_worker_id id (ground arith),
                      ground arith,
                      ground arith,
                      is_number-eq w.generation generation (ground arith),
                    ),
                    refl,
                  ))
  where
    op : Operation
    op = abandon id generation now

    P : Outcome ProtocolDecision → Type 0
    P = Returns (Answer s op)

pub close-Answer :
    (s : WorkerTaskState) (ref : String) (now rev : ℕ)
    → IsValid s
    → Returns (Answer s (close ref now)) (complete_task s ref now rev)
unfolding complete_task
close-Answer s ref now rev h = preflight-Answer s op rev _ h (
    if_intro P (not (is_open s.task_status)) _ _ (λ _. reject-Answer s op _)
      λ opened.
        if_intro P (is_some s.current_worker_id) _ _ (λ _. reject-Answer s op _)
          λ idle.
            if_intro P (strip ref == "") _ _ (λ _. reject-Answer s op _)
              λ given.
                accept-Answer s op _ _ _ h
                  (ground arith, ground arith, (λ e. ground (arith, eq_iff (strip ref) "")), refl))
  where
    op : Operation
    op = close ref now

    P : Outcome ProtocolDecision → Type 0
    P = Returns (Answer s op)

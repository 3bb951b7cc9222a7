-- ===== src/WorkerProtocol/Preserve.antt =====
-- src/lws/worker_protocol.py: a transition from a valid snapshot leads to a valid snapshot.
mod Facts
mod Registration
mod Endings
pub use Facts.{holder_lem, candidate_kept}
use localshell_web_superviso.Base.{
  ℕ, ◌+◌, ◌<◌, ◌≡◌, refl, sym, ap, subst, true, false, Option, none, some, is_some, String, List,
  [], ◌∷◌, ◌++◌, strip, All, arith, ◌==◌, eq_iff, ◌∙◌, some-cancel, Bool-cases, inl, inr,
}
use localshell_web_superviso.WorkerProtocol.State.{
  WorkerLeaseStatus, WorkerLease, WorkerTaskState, task_id, is_candidate, is_active, is_open,
}
use localshell_web_superviso.WorkerProtocol.Workers.{
  find_worker, active_workers, sorted_workers, replace_worker,
}
use localshell_web_superviso.WorkerProtocol.Workers.Lookup.{
  Unique, Unique-sorted, Unique-append-one, Unique-replace, find-sorted, find-replace,
  find-append-one, find-id,
}
use localshell_web_superviso.WorkerProtocol.Workers.Active.{
  active-sorted_none, active-sorted_one, active-replace_ended, active-replace_claimed,
  active-replace_renewed, find-active,
}
use localshell_web_superviso.WorkerProtocol.Workers.Members.{
  All-sorted, All-replace, All-append-one, active-append-one,
}
use localshell_web_superviso.WorkerProtocol.Operations.{new_candidate, claim_lease}
use localshell_web_superviso.WorkerProtocol.Endings.{superseded_lease, ended_lease, without_current}
use localshell_web_superviso.WorkerProtocol.Validity.{IsValid, CurrentIs, HandoffIs}
use localshell_web_superviso.WorkerProtocol.Spec.{
  Operation, register, claim, heartbeat, handoff, takeover, complete, abandon, close, Transition,
}
use localshell_web_superviso.WorkerProtocol.Preserve.Registration.{
  register-IsValid, claim-IsValid, heartbeat-IsValid,
}
use localshell_web_superviso.WorkerProtocol.Preserve.Endings.{
  without_current-IsValid, handoff-IsValid, takeover-IsValid,
}

-- Every transition from a valid snapshot leads to a valid one.
pub Transition-IsValid :
    (s : WorkerTaskState) (op : Operation) (t : WorkerTaskState)
    → Transition s op t
    → IsValid s
    → IsValid t
Transition-IsValid s (register id ref now) t (opened, absent, e) h =
    rw e (register-IsValid s (new_candidate s (strip id) ref now) refl refl absent h)
Transition-IsValid s (claim id now lease) t (w, opened, found, cand, idle, e) h =
    rw e (claim-IsValid s id w now lease opened found idle h)
Transition-IsValid s (heartbeat id g now lease) t (w, holder, timely, e) h =
    rw e (heartbeat-IsValid s id w now lease holder.0 holder.1 holder.2 h)
Transition-IsValid s (handoff id target_id g now) t (w, target, holder, timely, found, cand, e) h =
    rw e (handoff-IsValid s id target_id target now holder.0 holder.2 found cand h)
Transition-IsValid s (takeover id now lease) t
      (current, old, w, opened, at, found_old, found, cand, why, e) h =
    rw e (takeover-IsValid s current id old w now lease opened at found_old found cand h)
Transition-IsValid s (complete id g now) t (w, holder, timely, e) h = rw e (
    without_current-IsValid s id w (ended_lease w WorkerLeaseStatus.completed now) holder.0 holder.1
      holder.2 refl refl refl h)
Transition-IsValid s (abandon id g now) t (w, holder, e) h = rw e (
    without_current-IsValid s id w (ended_lease w WorkerLeaseStatus.abandoned now) holder.0 holder.1
      holder.2 refl refl refl h)
Transition-IsValid s (close ref now) t (opened, idle, given, e) h = rw e (record {
  rooted = h.rooted;
  unique = h.unique;
  registered = h.registered;
  current = h.current;
  handoff = h.handoff;
  completion = (idle, refl, ground (arith, eq_iff (strip ref) ""));
})

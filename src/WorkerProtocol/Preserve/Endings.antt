-- ===== src/WorkerProtocol/Preserve/Endings.antt =====
-- src/lws/worker_protocol.py: handoffs, takeovers and the end of a lease keep a snapshot valid.
use localshell_web_superviso.WorkerProtocol.Preserve.Registration.{claim-IsValid}
use localshell_web_superviso.Base.{
  ℕ, ◌+◌, ◌≡◌, refl, ap, true, false, none, some, String, arith, ◌∙◌,
}
use localshell_web_superviso.WorkerProtocol.State.{
  WorkerLease, WorkerTaskState, task_id, is_candidate, is_active, is_open,
}
use localshell_web_superviso.WorkerProtocol.Workers.{find_worker, replace_worker}
use localshell_web_superviso.WorkerProtocol.Workers.Lookup.{Unique-replace, find-id}
use localshell_web_superviso.WorkerProtocol.Workers.Active.{active-replace_ended}
use localshell_web_superviso.WorkerProtocol.Workers.Members.{All-replace}
use localshell_web_superviso.WorkerProtocol.Operations.{claim_lease}
use localshell_web_superviso.WorkerProtocol.Endings.{superseded_lease, without_current}
use localshell_web_superviso.WorkerProtocol.Validity.{IsValid}
use localshell_web_superviso.WorkerProtocol.Preserve.Facts.{
  task_of_find, holder_lem, candidate_kept,
}

-- The holder's lease gives way to `u`, which is not active.
pub without_current-IsValid :
    (s : WorkerTaskState) (id : String) (w u : WorkerLease)
    → is_open s.task_status ≡ true
    → find_worker s.workers id ≡ some w
    → s.current_worker_id ≡ some id
    → u.worker_id ≡ w.worker_id
    → u.task_id ≡ w.task_id
    → is_active u.status ≡ false
    → IsValid s
    → IsValid (without_current s u)
without_current-IsValid s id w u opened found current same_id same_task ended h =
    let at = holder_lem id h current found in
    record {
      rooted = h.rooted;
      unique = Unique-replace s.workers u h.unique;
      registered =
          All-replace (λ w. w.task_id ≡ task_id s) s.workers u
            (same_task ∙ task_of_find (task_id s) s.workers id h.registered found) h.registered;
      current = active-replace_ended s.workers w u at.0 same_id ended;
      handoff = refl;
      completion = ground arith;
    }

pub handoff-IsValid :
    (s : WorkerTaskState) (id target_id : String) (target : WorkerLease) (now : ℕ)
    → is_open s.task_status ≡ true
    → s.current_worker_id ≡ some id
    → find_worker s.workers target_id ≡ some target
    → is_candidate target.status ≡ true
    → IsValid s
    → IsValid
        (record s { handoff_target_worker_id = some target_id; handoff_requested_at = some now })
handoff-IsValid s id target_id target now opened current found cand h = record {
  rooted = h.rooted;
  unique = h.unique;
  registered = h.registered;
  current = h.current;
  handoff = (target, found, cand, rw current, refl);
  completion = h.completion;
}

pub takeover-IsValid :
    (s : WorkerTaskState) (current id : String) (old w : WorkerLease) (now lease : ℕ)
    → is_open s.task_status ≡ true
    → s.current_worker_id ≡ some current
    → find_worker s.workers current ≡ some old
    → find_worker s.workers id ≡ some w
    → is_candidate w.status ≡ true
    → IsValid s
    → IsValid (record s {
      generation = s.generation + 1;
      current_worker_id = some id;
      handoff_target_worker_id = none;
      handoff_requested_at = none;
      workers =
          replace_worker
            (replace_worker s.workers (superseded_lease old now id))
            (claim_lease w (s.generation + 1) now lease);
    })
takeover-IsValid s current id old w now lease opened at_current found_old found cand h =
    let v = superseded_lease old now id in
    let at = holder_lem current h at_current found_old in
    let old_id = find-id s.workers current found_old in
    let ended =
      without_current-IsValid s current old v opened found_old at_current refl refl refl h in
    let kept =
      candidate_kept s.workers old v id w h.unique refl
        (ap (find_worker s.workers) old_id ∙ found_old) at.1 found cand in
    claim-IsValid (without_current s v) id w now lease opened kept refl ended

-- ===== src/WorkerProtocol/Preserve/Registration.antt =====
-- src/lws/worker_protocol.py: registrations, claims and heartbeats keep a snapshot valid.
use localshell_web_superviso.Base.{
  ℕ, ◌+◌, ◌≡◌, refl, sym, ap, subst, true, none, some, String, [], ◌∷◌, ◌++◌, arith, eq_iff, ◌∙◌,
}
use localshell_web_superviso.WorkerProtocol.State.{
  WorkerLeaseStatus, WorkerLease, WorkerTaskState, task_id, is_open,
}
use localshell_web_superviso.WorkerProtocol.Workers.{
  find_worker, active_workers, sorted_workers, replace_worker,
}
use localshell_web_superviso.WorkerProtocol.Workers.Lookup.{
  Unique-sorted, Unique-append-one, Unique-replace, find-sorted, find-append-one, find-id,
}
use localshell_web_superviso.WorkerProtocol.Workers.Active.{
  active-replace_claimed, active-replace_renewed,
}
use localshell_web_superviso.WorkerProtocol.Workers.Members.{
  All-sorted, All-replace, All-append-one, active-append-one,
}
use localshell_web_superviso.WorkerProtocol.Operations.{claim_lease}
use localshell_web_superviso.WorkerProtocol.Validity.{IsValid, CurrentIs}
use localshell_web_superviso.WorkerProtocol.Preserve.Facts.{
  task_of_find, CurrentIs-sorted, HandoffIs-find, holder_lem, candidate_kept,
}

pub register-IsValid :
    (s : WorkerTaskState) (v : WorkerLease)
    → v.task_id ≡ task_id s
    → v.status ≡ WorkerLeaseStatus.candidate
    → find_worker s.workers v.worker_id ≡ none
    → IsValid s
    → IsValid (record s { workers = sorted_workers (s.workers ++ v ∷ []) })
register-IsValid s v own status absent h = record {
  rooted = h.rooted;
  unique = Unique-sorted (s.workers ++ v ∷ []) (Unique-append-one s.workers v h.unique absent);
  registered =
      All-sorted (λ w. w.task_id ≡ task_id s) (s.workers ++ v ∷ [])
        (All-append-one (λ w. w.task_id ≡ task_id s) s.workers v own h.registered);
  current =
      CurrentIs-sorted s.current_worker_id s.generation (s.workers ++ v ∷ [])
        (rw (active-append-one s.workers v (rw status)) h.current);
  handoff =
      HandoffIs-find s.handoff_target_worker_id s.handoff_requested_at s.current_worker_id s.workers
        (sorted_workers (s.workers ++ v ∷ []))
        (λ k w found cand.
          find-sorted (s.workers ++ v ∷ []) k (Unique-append-one s.workers v h.unique absent)
          ∙ find-append-one s.workers v k absent
          ∙ ground (arith, eq_iff v.worker_id k))
        h.handoff;
  completion = h.completion;
}

pub claim-IsValid :
    (s : WorkerTaskState) (id : String) (w : WorkerLease) (now lease : ℕ)
    → is_open s.task_status ≡ true
    → find_worker s.workers id ≡ some w
    → s.current_worker_id ≡ none
    → IsValid s
    → IsValid (record s {
      generation = s.generation + 1;
      current_worker_id = some id;
      handoff_target_worker_id = none;
      handoff_requested_at = none;
      workers = replace_worker s.workers (claim_lease w (s.generation + 1) now lease);
    })
claim-IsValid s id w now lease opened found idle h =
    let u = claim_lease w (s.generation + 1) now lease in
    let same = find-id s.workers id found in
    record {
      rooted = h.rooted;
      unique = Unique-replace s.workers u h.unique;
      registered =
          All-replace (λ w. w.task_id ≡ task_id s) s.workers u
            (task_of_find (task_id s) s.workers id h.registered found) h.registered;
      current = (
        u,
        active-replace_claimed s.workers u h.unique
            (subst (λ o. CurrentIs o s.generation (active_workers s.workers)) idle h.current)
            (ap (find_worker s.workers) same ∙ found) refl,
        same,
        refl,
        omega arith,
        refl,
      );
      handoff = refl;
      completion = ground arith;
    }

pub heartbeat-IsValid :
    (s : WorkerTaskState) (id : String) (w : WorkerLease) (now lease : ℕ)
    → is_open s.task_status ≡ true
    → find_worker s.workers id ≡ some w
    → s.current_worker_id ≡ some id
    → IsValid s
    → IsValid (record s {
      workers =
          replace_worker s.workers
            (record w { last_heartbeat_at = some now; lease_expires_at = some (now + lease) });
    })
heartbeat-IsValid s id w now lease opened found current h =
    let u : WorkerLease = record w {
      last_heartbeat_at = some now;
      lease_expires_at = some (now + lease);
    } in
    let at = holder_lem id h current found in
    let same = find-id s.workers id found in
    record {
      rooted = h.rooted;
      unique = Unique-replace s.workers u h.unique;
      registered =
          All-replace (λ w. w.task_id ≡ task_id s) s.workers u
            (task_of_find (task_id s) s.workers id h.registered found) h.registered;
      current =
          subst (λ o. CurrentIs o s.generation (active_workers (replace_worker s.workers u)))
            (sym current)
            (
              u,
              active-replace_renewed s.workers w u h.unique at.0 refl at.1,
              same,
              at.2,
              at.3,
              refl,
            );
      handoff =
          HandoffIs-find s.handoff_target_worker_id s.handoff_requested_at s.current_worker_id
            s.workers (replace_worker s.workers u)
            (λ k v held cand.
              candidate_kept s.workers w u k v h.unique refl
                (ap (find_worker s.workers) same ∙ found) at.1 held cand)
            h.handoff;
      completion = ground arith;
    }

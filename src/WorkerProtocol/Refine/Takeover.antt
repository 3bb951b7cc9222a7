-- ===== src/WorkerProtocol/Refine/Takeover.antt =====
-- `takeover_worker` refines the relation.
use localshell_web_superviso.Base.{
  ℕ, ◌<◌, ◌≡◌, refl, sym, true, false, not, some, String, ◌⊎◌, inl, inr, arith, ap, subst, ◌∙◌,
  Outcome, Returns, lt→ltb, if_intro, assert_intro, option_intro,
}
use localshell_web_superviso.WorkerProtocol.State.{
  WorkerLease, WorkerTaskState, ProtocolDecision, is_candidate, is_open, TakeoverReason,
  TakeoverEligibility,
}
use localshell_web_superviso.WorkerProtocol.Workers.{active_workers, find_worker, worker_by_id}
use localshell_web_superviso.WorkerProtocol.Checks.{is_id, lease_is_fresh, require_positive_lease}
use localshell_web_superviso.WorkerProtocol.Operations.{eligibility_of, takeover_eligibility}
use localshell_web_superviso.WorkerProtocol.Endings.{grant_takeover, takeover_worker}
use localshell_web_superviso.WorkerProtocol.Validity.{CurrentIs, IsValid, validate_of-IsValid}
use localshell_web_superviso.WorkerProtocol.Spec.{Operation, takeover, Answer}
use localshell_web_superviso.WorkerProtocol.Refine.Rules.{
  is_id-eq, reject-Answer, accept-Answer, preflight-Answer,
}
use localshell_web_superviso.WorkerProtocol.Workers.Active.{find-active}

-- An eligible candidate meets the premises of a takeover.
pub eligible_lem :
    (s : WorkerTaskState) (id : String) (now : ℕ)
    → (eligibility_of s id now).eligible ≡ true
    → (current : String) × (w : WorkerLease) × (is_open s.task_status ≡ true)
      × (s.current_worker_id ≡ some current)
      × (find_worker s.workers id ≡ some w)
      × (is_candidate w.status ≡ true)
      × ((s.handoff_target_worker_id ≡ some id) ⊎ (lease_is_fresh s current now ≡ false))
unfolding eligibility_of
eligible_lem s id now =
    if_intro P (not (is_open s.task_status)) _ _ (λ _ no_way. cc)
      λ opened.
        option_intro P (worker_by_id s id) _ _ (λ _ no_way. cc)
          λ w found.
            if_intro P (not (is_candidate w.status)) _ _ (λ _ no_way. cc)
              λ cand.
                option_intro P s.current_worker_id _ _ (λ _ no_way. cc)
                  λ current held.
                    if_intro P (is_id s.handoff_target_worker_id id) _ _
                      (λ handed _. (
                        current,
                        w,
                        ground arith,
                        held,
                        found,
                        ground arith,
                        inl (is_id-eq s.handoff_target_worker_id id handed),
                      ))
                      λ _.
                        if_intro P (not (lease_is_fresh s current now)) _ _
                          (λ stale _. (
                            current,
                            w,
                            ground arith,
                            held,
                            found,
                            ground arith,
                            inr (ground arith),
                          ))
                          λ _ no_way. cc
  where
    P : TakeoverEligibility → Type 0
    P e =
        e.eligible ≡ true
        → (current : String) × (w : WorkerLease) × (is_open s.task_status ≡ true)
          × (s.current_worker_id ≡ some current)
          × (find_worker s.workers id ≡ some w)
          × (is_candidate w.status ≡ true)
          × ((s.handoff_target_worker_id ≡ some id) ⊎ (lease_is_fresh s current now ≡ false))

-- The current worker of a valid snapshot is registered.
pub current_found :
    {s : WorkerTaskState} (current : String)
    → IsValid s
    → s.current_worker_id ≡ some current
    → (w : WorkerLease) × (find_worker s.workers current ≡ some w)
current_found {s} current h e =
    let (a, only, same, n, pos, x) = at in
    (a, ap (find_worker s.workers) (sym same) ∙ (find-active s.workers a h.unique only).0)
  where
    at : CurrentIs (some current) s.generation (active_workers s.workers)
    at = subst (λ o. CurrentIs o s.generation (active_workers s.workers)) e h.current

grant-Answer :
    (s : WorkerTaskState) (id : String) (now lease : ℕ) (reason : TakeoverReason)
    → IsValid s
    → (eligibility_of s id now).eligible ≡ true
    → Returns (Answer s (takeover id now lease)) (grant_takeover s id now lease reason)
unfolding grant_takeover
grant-Answer s id now lease reason h granted =
    let (current, w, opened, held, found, cand, why) = eligible_lem s id now granted in
    let (old, found_old) = current_found current h held in
    assert_intro P s.current_worker_id _ current held (
      assert_intro P (worker_by_id s current) _ old found_old (
        assert_intro P (worker_by_id s id) _ w found (
          accept-Answer s (takeover id now lease) _ _ _ h
            (current, old, w, opened, held, found_old, found, cand, why, refl))))
  where
    P : Outcome ProtocolDecision → Type 0
    P = Returns (Answer s (takeover id now lease))

pub takeover-Answer :
    (s : WorkerTaskState) (id : String) (now lease rev : ℕ)
    → IsValid s
    → 0 < lease
    → Returns (Answer s (takeover id now lease)) (takeover_worker s id now lease rev)
unfolding takeover_worker takeover_eligibility require_positive_lease
takeover-Answer s id now lease rev h positive = rw (lt→ltb 0 lease positive) (
    preflight-Answer s op rev _ h (
      rw (validate_of-IsValid h) (
        if_intro P (not (eligibility_of s id now).eligible) _ _ (λ _. reject-Answer s op _)
          λ granted. grant-Answer s id now lease _ h (ground arith))))
  where
    op : Operation
    op = takeover id now lease

    P : Outcome ProtocolDecision → Type 0
    P = Returns (Answer s op)

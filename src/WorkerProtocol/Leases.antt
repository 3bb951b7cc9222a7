-- ===== src/WorkerProtocol/Leases.antt =====
-- When a lease may be taken over, and how long a claimed, renewed or taken lease stays fresh.
use localshell_web_superviso.Base.{
  ℕ, ◌+◌, ◌<◌, ◌≡◌, refl, ap, subst, some-cancel, ◌∙◌, true, false, Option, none, some, String,
  List, ◌⊎◌, inl, inr, ◌↔◌, arith, ok, eq_iff, ltb, lt→ltb, Returns, assert_intro, if_intro,
  option_intro, not, Outcome, is_some,
}
use localshell_web_superviso.WorkerProtocol.State.{
  DecisionCode, WorkerLease, WorkerTaskState, ProtocolDecision, TakeoverReason, is_candidate,
  is_open, is_active,
}
use localshell_web_superviso.WorkerProtocol.Workers.{find_worker, worker_by_id, replace_worker}
use localshell_web_superviso.WorkerProtocol.Workers.Lookup.{
  Unique, Unique-replace, find-replace, find-id,
}
use localshell_web_superviso.WorkerProtocol.Checks.{
  lease_is_fresh, preflight, require_positive_lease,
}
use localshell_web_superviso.WorkerProtocol.Operations.{
  eligibility_of, takeover_eligibility, claim_lease, claim_worker,
}
use localshell_web_superviso.WorkerProtocol.Endings.{
  superseded_lease, grant_takeover, takeover_worker,
}
use localshell_web_superviso.WorkerProtocol.Accept.{accept_of-IsValid}
use localshell_web_superviso.WorkerProtocol.Validity.{IsValid, validate_of-IsValid}
use localshell_web_superviso.WorkerProtocol.Preserve.{
  Transition-IsValid, holder_lem, candidate_kept,
}
use localshell_web_superviso.WorkerProtocol.Spec.{
  Operation, register, claim, heartbeat, handoff, takeover, complete, abandon, close, apply,
  IsWellFormed, Transition, Answer, rejected, known, moved,
}
use localshell_web_superviso.WorkerProtocol.Refine.Takeover.{eligible_lem, current_found}
use localshell_web_superviso.WorkerProtocol.Fencing.{found_again}
use localshell_web_superviso.WorkerProtocol.Traces.{answer_lem}

-- A registered candidate, and a current worker that hands over to it or whose lease is not fresh.
abbrev pub CanTakeOver : WorkerTaskState → String → ℕ → Type 0
CanTakeOver s id now =
    (current : String) × (w : WorkerLease) × (is_open s.task_status ≡ true)
    × (s.current_worker_id ≡ some current)
    × (find_worker s.workers id ≡ some w)
    × (is_candidate w.status ≡ true)
    × ((s.handoff_target_worker_id ≡ some id) ⊎ (lease_is_fresh s current now ≡ false))

can_lem :
    (s : WorkerTaskState) (id : String) (now : ℕ)
    → CanTakeOver s id now
    → (eligibility_of s id now).eligible ≡ true
unfolding eligibility_of
can_lem s id now (current, w, opened, held, found, cand, inl handed) = ground (arith, eq_iff id id)
can_lem s id now (current, w, opened, held, found, cand, inr stale) = ground arith

-- At a valid snapshot `takeover_eligibility` says yes exactly if the candidate may take over.
pub eligible_exactly :
    (s : WorkerTaskState) (id : String) (now : ℕ)
    → IsValid s
    → (takeover_eligibility s id now ≡ ok (eligibility_of s id now))
      × (((eligibility_of s id now).eligible ≡ true) ↔ CanTakeOver s id now)
unfolding takeover_eligibility
eligible_exactly s id now h =
    (rw (validate_of-IsValid h), (eligible_lem s id now, can_lem s id now))

-- Until when an operation that is accepted gives its worker the lease.
abbrev pub grants : Operation → Option (String × ℕ)
grants (claim id now lease) = some (id, now + lease)
grants (heartbeat id generation now lease) = some (id, now + lease)
grants (takeover id now lease) = some (id, now + lease)
grants _ = none

fresh_lem :
    (s : WorkerTaskState) (id : String) (w : WorkerLease) (until x : ℕ)
    → is_open s.task_status ≡ true
    → find_worker s.workers id ≡ some w
    → s.current_worker_id ≡ some id
    → is_active w.status ≡ true
    → w.generation ≡ some s.generation
    → w.lease_expires_at ≡ some until
    → lease_is_fresh s id x ≡ ltb x until
unfolding lease_is_fresh
fresh_lem s id w until x opened found current act gen expires = ground (arith, eq_iff id id, found)

-- the replaced lease, looked up under the id of the one that it replaces
replaced_lem :
    (ws : List WorkerLease) (id : String) (w u : WorkerLease)
    → Unique ws
    → find_worker ws id ≡ some w
    → u.worker_id ≡ w.worker_id
    → find_worker (replace_worker ws u) id ≡ some u
replaced_lem ws id w u uniq found same =
    find-replace ws u id uniq (found_again ws id w u found same)
    ∙ rw ((eq_iff u.worker_id id).1 (same ∙ find-id ws id found))

to_grantee :
    (k : String) (u : ℕ) (id : String) (until : ℕ) (t : WorkerTaskState) (n x : ℕ)
    → ◌≡◌ {A = Option (String × ℕ)} (some (k, u)) (some (id, until))
    → lease_is_fresh (record t { revision = n }) k x ≡ ltb x u
    → lease_is_fresh (record t { revision = n }) id x ≡ ltb x until
to_grantee k u id until t n x e h =
    subst (λ (p : String × ℕ). lease_is_fresh (record t { revision = n }) p.0 x ≡ ltb x p.1)
      (some-cancel e) h

Transition-fresh :
    (s : WorkerTaskState) (op : Operation) (t : WorkerTaskState) (id : String) (until x n : ℕ)
    → IsValid s
    → grants op ≡ some (id, until)
    → Transition s op t
    → lease_is_fresh (record t { revision = n }) id x ≡ ltb x until
Transition-fresh s (claim k now lease) t id until x n h g (c, opened, found, cand, idle, e) =
    let u = claim_lease c (s.generation + 1) now lease in
    let at = replaced_lem s.workers k c u h.unique found refl in
    to_grantee k (now + lease) id until t n x g
      (rw e (fresh_lem _ k u (now + lease) x opened at refl refl refl refl))
Transition-fresh s (heartbeat k gen now lease) t id until x n h g (c, holder, timely, e) =
    let u : WorkerLease = record c {
      last_heartbeat_at = some now;
      lease_expires_at = some (now + lease);
    } in
    let at = replaced_lem s.workers k c u h.unique holder.1 refl in
    to_grantee k (now + lease) id until t n x g (
      rw e (
        fresh_lem _ k u (now + lease) x holder.0 at holder.2 holder.3 (holder.5 ∙ ap some holder.4)
          refl))
Transition-fresh s (takeover k now lease) t id until x n h g
      (current, old, c, opened, held, found_old, found, cand, why, e) =
    let v = superseded_lease old now k in
    let u = claim_lease c (s.generation + 1) now lease in
    let found_v = found_again s.workers current old v found_old refl in
    let act = (holder_lem current h held found_old).1 in
    let kept = candidate_kept s.workers old v k c h.unique refl found_v act found cand in
    let at =
      replaced_lem (replace_worker s.workers v) k c u (Unique-replace s.workers v h.unique) kept
        refl in
    to_grantee k (now + lease) id until t n x g
      (rw e (fresh_lem _ k u (now + lease) x opened at refl refl refl refl))
Transition-fresh s (register k ref now) t id until x n h g m = cc
Transition-fresh s (handoff k target gen now) t id until x n h g m = cc
Transition-fresh s (complete k gen now) t id until x n h g m = cc
Transition-fresh s (abandon k gen now) t id until x n h g m = cc
Transition-fresh s (close ref now) t id until x n h g m = cc

-- An accepted claim, heartbeat or takeover at `now` makes its worker's lease fresh at exactly the
-- times before `now + lease_seconds`.
pub granted_until :
    (s : WorkerTaskState) (op : Operation) (rev : ℕ) {d : ProtocolDecision} (id : String)
    (until x : ℕ)
    → IsValid s
    → IsWellFormed op
    → apply s op rev ≡ ok d
    → d.accepted ≡ true
    → grants op ≡ some (id, until)
    → lease_is_fresh d.state id x ≡ ltb x until
granted_until s op rev {d} id until x h f e a g = go (answer_lem s op rev h f e)
  where
    go : Answer s op d → lease_is_fresh d.state id x ≡ ltb x until
    go (rejected r same n) = cc
    go (known k ref now w i found o b c r same n) = cc (ap grants i)
    go (moved t move b r same) =
        rw same (Transition-fresh s op t id until x (s.revision + 1) h g move)

-- What a takeover or a claim that is granted leads to.
abbrev pub Obtains : WorkerTaskState → String → DecisionCode → ProtocolDecision → Type 0
Obtains s id code d =
    (d.accepted ≡ true)
    × (d.code ≡ code)
    × (d.state.current_worker_id ≡ some id)
    × (d.state.generation ≡ s.generation + 1)
    × (d.state.revision ≡ s.revision + 1)

preflight-current : (s : WorkerTaskState) → IsValid s → preflight s s.revision ≡ ok none
unfolding preflight
preflight-current s h = rw (validate_of-IsValid h) (ground arith)

grant-Obtains :
    (s : WorkerTaskState) (id : String) (now lease : ℕ) (reason : TakeoverReason)
    → IsValid s
    → CanTakeOver s id now
    → Returns (Obtains s id DecisionCode.takeover_granted) (grant_takeover s id now lease reason)
unfolding grant_takeover
grant-Obtains s id now lease reason h (current, w, opened, held, found, cand, why) =
    let (old, found_old) = current_found current h held in
    assert_intro P s.current_worker_id _ current held (
      assert_intro P (worker_by_id s current) _ old found_old (
        assert_intro P (worker_by_id s id) _ w found (
          rw
            (accept_of-IsValid s _ _ _ (
              Transition-IsValid s (takeover id now lease) _
                (current, old, w, opened, held, found_old, found, cand, why, refl) h))
            (refl, refl, refl, refl, refl))))
  where
    P : Outcome ProtocolDecision → Type 0
    P = Returns (Obtains s id DecisionCode.takeover_granted)

-- A candidate that may take over, with the snapshot's revision, gets the lease.
pub takeover_succeeds :
    (s : WorkerTaskState) (id : String) (now lease : ℕ)
    → IsValid s
    → 0 < lease
    → CanTakeOver s id now
    → Returns
        (Obtains s id DecisionCode.takeover_granted)
        (takeover_worker s id now lease s.revision)
unfolding takeover_worker takeover_eligibility require_positive_lease
takeover_succeeds s id now lease h positive can = rw (lt→ltb 0 lease positive) (
    rw (preflight-current s h) (
      rw (validate_of-IsValid h)
        (rw (can_lem s id now can) (grant-Obtains s id now lease _ h can))))

-- Where an open task has no current worker, a candidate with the snapshot's revision gets the lease.
pub claim_succeeds :
    (s : WorkerTaskState) (id : String) (w : WorkerLease) (now lease : ℕ)
    → IsValid s
    → 0 < lease
    → is_open s.task_status ≡ true
    → s.current_worker_id ≡ none
    → find_worker s.workers id ≡ some w
    → is_candidate w.status ≡ true
    → Returns (Obtains s id DecisionCode.claimed) (claim_worker s id now lease s.revision)
unfolding claim_worker require_positive_lease
claim_succeeds s id w now lease h positive opened idle found cand = rw (lt→ltb 0 lease positive) (
    rw (preflight-current s h) (
      if_intro P (not (is_open s.task_status)) _ _ (λ bad. absurd (ground arith))
        λ _.
          option_intro P (worker_by_id s id) _ _ (λ bad. absurd (ground arith))
            λ v at.
              if_intro P (not (is_candidate v.status)) _ _ (λ bad. absurd (ground arith))
                λ fits.
                  if_intro P (is_some s.current_worker_id) _ _ (λ bad. absurd (ground arith))
                    λ _.
                      rw
                        (accept_of-IsValid s _ _ _ (
                          Transition-IsValid s (claim id now lease) _
                            (v, opened, at, ground arith, idle, refl) h))
                        (refl, refl, refl, refl, refl)))
  where
    P : Outcome ProtocolDecision → Type 0
    P = Returns (Obtains s id DecisionCode.claimed)

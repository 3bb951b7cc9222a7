-- ===== src/WorkerProtocol/Fencing.antt =====
-- src/lws/worker_protocol.py: leases that have ended, and what their workers may still do.
use localshell_web_superviso.Base.{
  ℕ, ◌+◌, ◌≡◌, refl, sym, ap, ◌∙◌, subst, Bool, true, false, Option, none, some, String, List, [],
  ◌∷◌, ◌++◌, ◌&&◌, not, arith, Outcome, ok, raise, Returns, ◌==◌, eq_iff, strip, Bool-cases, inl,
  inr, some-cancel,
}
use localshell_web_superviso.WorkerProtocol.State.{
  WorkerLeaseStatus, WorkerLease, WorkerTaskState, ProtocolDecision, is_candidate, is_active,
}
use localshell_web_superviso.WorkerProtocol.Workers.{find_worker, replace_worker}
use localshell_web_superviso.WorkerProtocol.Workers.Lookup.{
  Unique, Unique-append-one, Unique-replace, find-sorted, find-append-one, find-replace, find-id,
}
use localshell_web_superviso.WorkerProtocol.Operations.{new_candidate, claim_lease}
use localshell_web_superviso.WorkerProtocol.Endings.{superseded_lease, ended_lease}
use localshell_web_superviso.WorkerProtocol.Validity.{IsValid}
use localshell_web_superviso.WorkerProtocol.Preserve.{holder_lem, candidate_kept}
use localshell_web_superviso.WorkerProtocol.Spec.{
  Operation, register, claim, heartbeat, handoff, takeover, complete, abandon, close, apply,
  IsWellFormed, Transition, Answer, rejected, known, moved,
}
use localshell_web_superviso.WorkerProtocol.Traces.{Steps, here, next, answer_lem, Steps-IsValid}
use localshell_web_superviso.WorkerProtocol.Refine.{apply-Answer}

abbrev pub has_ended : WorkerLeaseStatus → Bool
has_ended WorkerLeaseStatus.candidate = false
has_ended WorkerLeaseStatus.active = false
has_ended _ = true

abbrev pub is_registration : Operation → Bool
is_registration (register id ref now) = true
is_registration _ = false

-- The worker that the operation is in the name of.
abbrev pub actor : Operation → Option String
actor (register id ref now) = some (strip id)
actor (claim id now lease) = some id
actor (heartbeat id generation now lease) = some id
actor (handoff id target generation now) = some id
actor (takeover id now lease) = some id
actor (complete id generation now) = some id
actor (abandon id generation now) = some id
actor (close ref now) = none

-- Replacing a lease that has not ended leaves those that have ended alone.
ended_kept :
    (ws : List WorkerLease) (u old : WorkerLease) (k : String) (w : WorkerLease)
    → Unique ws
    → find_worker ws u.worker_id ≡ some old
    → has_ended old.status ≡ false
    → find_worker ws k ≡ some w
    → has_ended w.status ≡ true
    → find_worker (replace_worker ws u) k ≡ some w
ended_kept ws u old k w uniq found live held ended =
    find-replace ws u k uniq found ∙ elim (Bool-cases (u.worker_id == k)) [
      | inl hit ↦ absurd (clash hit)
      | inr miss ↦ rw miss held
    ]
  where
    clash : (u.worker_id == k) ≡ true → ⊥
    clash hit =
        let same : old ≡ w =
          some-cancel (sym found ∙ ap (find_worker ws) ((eq_iff u.worker_id k).0 hit) ∙ held) in
        cc (live, ended, ap (λ (v : WorkerLease). has_ended v.status) same)

-- an id under which a lease was found finds it again
pub found_again :
    (ws : List WorkerLease) (id : String) (w u : WorkerLease)
    → find_worker ws id ≡ some w
    → u.worker_id ≡ w.worker_id
    → find_worker ws u.worker_id ≡ some w
found_again ws id w u found same = ap (find_worker ws) (same ∙ find-id ws id found) ∙ found

active_live : (w : WorkerLease) → is_active w.status ≡ true → has_ended w.status ≡ false
active_live w h = ground arith

candidate_live : (w : WorkerLease) → is_candidate w.status ≡ true → has_ended w.status ≡ false
candidate_live w h = ground arith

module _ (s : WorkerTaskState) (h : IsValid s) (k : String) (w : WorkerLease)
    (held : find_worker s.workers k ≡ some w) (ended : has_ended w.status ≡ true) where
  Transition-ended :
      (op : Operation) (t : WorkerTaskState) → Transition s op t → find_worker t.workers k ≡ some w
  Transition-ended (register id ref now) t (opened, absent, e) =
      let v = new_candidate s (strip id) ref now in
      rw e (
        find-sorted (s.workers ++ v ∷ []) k (Unique-append-one s.workers v h.unique absent)
        ∙ find-append-one s.workers v k absent
        ∙ ground (arith, eq_iff (strip id) k))
  Transition-ended (claim id now lease) t (c, opened, found, cand, idle, e) =
      let u = claim_lease c (s.generation + 1) now lease in
      rw e (
        ended_kept s.workers u c k w h.unique (found_again s.workers id c u found refl)
          (candidate_live c cand) held ended)
  Transition-ended (heartbeat id g now lease) t (c, holder, timely, e) =
      let u : WorkerLease = record c {
        last_heartbeat_at = some now;
        lease_expires_at = some (now + lease);
      } in
      rw e (
        ended_kept s.workers u c k w h.unique (found_again s.workers id c u holder.1 refl)
          (active_live c holder.3) held ended)
  Transition-ended (handoff id target g now) t (c, v, holder, timely, found, cand, e) = rw e held
  Transition-ended (takeover id now lease) t
        (current, old, c, opened, at, found_old, found, cand, why, e) =
      let v = superseded_lease old now id in
      let u = claim_lease c (s.generation + 1) now lease in
      let ws = replace_worker s.workers v in
      let found_v = found_again s.workers current old v found_old refl in
      let act = (holder_lem current h at found_old).1 in
      let kept = candidate_kept s.workers old v id c h.unique refl found_v act found cand in
      rw e (
        ended_kept ws u c k w (Unique-replace s.workers v h.unique)
          (ap (find_worker ws) (find-id s.workers id found) ∙ kept) (candidate_live c cand)
          (ended_kept s.workers v old k w h.unique found_v (active_live old act) held ended) ended)
  Transition-ended (complete id g now) t (c, holder, timely, e) =
      let u = ended_lease c WorkerLeaseStatus.completed now in
      rw e (
        ended_kept s.workers u c k w h.unique (found_again s.workers id c u holder.1 refl)
          (active_live c holder.3) held ended)
  Transition-ended (abandon id g now) t (c, holder, e) =
      let u = ended_lease c WorkerLeaseStatus.abandoned now in
      rw e (
        ended_kept s.workers u c k w h.unique (found_again s.workers id c u holder.1 refl)
          (active_live c holder.3) held ended)
  Transition-ended (close ref now) t (opened, idle, given, e) = rw e held

  clash_live :
      (id : String) (c : WorkerLease)
      → some id ≡ some k
      → find_worker s.workers id ≡ some c
      → has_ended c.status ≡ false
      → ⊥
  clash_live id c a found live =
      let same : c ≡ w =
        some-cancel (sym found ∙ ap (find_worker s.workers) (some-cancel a) ∙ held) in
      cc (live, ended, ap (λ (v : WorkerLease). has_ended v.status) same)

  -- No operation of the worker with the ended lease is a transition.
  Transition-excluded :
      (op : Operation) (t : WorkerTaskState) → actor op ≡ some k → Transition s op t → ⊥
  Transition-excluded (register id ref now) t a (opened, absent, e) =
      cc (absent, ap (find_worker s.workers) (some-cancel a), held)
  Transition-excluded (claim id now lease) t a m = clash_live id m.0 a m.2 (candidate_live m.0 m.3)
  Transition-excluded (heartbeat id g now lease) t a m =
      clash_live id m.0 a m.1.1 (active_live m.0 m.1.3)
  Transition-excluded (handoff id target g now) t a m =
      clash_live id m.0 a m.2.1 (active_live m.0 m.2.3)
  Transition-excluded (takeover id now lease) t a m =
      clash_live id m.2 a m.6 (candidate_live m.2 m.7)
  Transition-excluded (complete id g now) t a m = clash_live id m.0 a m.1.1 (active_live m.0 m.1.3)
  Transition-excluded (abandon id g now) t a m = clash_live id m.0 a m.1.1 (active_live m.0 m.1.3)
  Transition-excluded (close ref now) t a m = cc

  Answer-ended :
      (op : Operation) (d : ProtocolDecision)
      → Answer s op d
      → find_worker d.state.workers k ≡ some w
  Answer-ended op d (rejected a e n) = rw e held
  Answer-ended op d (known id ref now v i f o a c r e n) = rw e held
  Answer-ended op d (moved t move a r e) = rw e (Transition-ended op t move)

  Answer-fenced :
      (op : Operation)
      → actor op ≡ some k
      → (o : Outcome ProtocolDecision) → Returns (Answer s op) o
      → Returns (λ d. ((d.accepted && not (is_registration op)) ≡ false) × (d.state ≡ s)) o
  Answer-fenced op a (ok d) (rejected r e n) = (ground arith, e)
  Answer-fenced op a (ok d) (known id ref now v i f o a' c r e n) = (rw (i) (ground arith), e)
  Answer-fenced op a (ok d) (moved t move a' r e) = absurd (Transition-excluded op t a move)
  Answer-fenced op a (raise x) answer = answer

-- A lease that has ended keeps its record, whatever operations follow from a valid snapshot.
pub Steps-ended :
    {s t : WorkerTaskState} (k : String) (w : WorkerLease)
    → IsValid s
    → find_worker s.workers k ≡ some w
    → has_ended w.status ≡ true
    → Steps s t
    → find_worker t.workers k ≡ some w
Steps-ended k w h held ended here = held
Steps-ended k w h held ended (next {t} {u} steps op rev d f e same) =
    let valid = Steps-IsValid h steps in
    let before = Steps-ended k w h held ended steps in
    subst (λ (v : WorkerTaskState). find_worker v.workers k ≡ some w) same
      (Answer-ended t valid k w before ended op d (answer_lem t op rev valid f e))

-- Once the lease of worker `k` has ended, every later operation in its name, after any operations of
-- any workers and with any revision, returns and leaves the snapshot as it is, and it is rejected
-- unless it is a registration.
pub ended_is_fenced :
    {s t : WorkerTaskState} (k : String) (w : WorkerLease) (op : Operation) (rev : ℕ)
    → IsValid s
    → find_worker s.workers k ≡ some w
    → has_ended w.status ≡ true
    → Steps s t
    → IsWellFormed op
    → actor op ≡ some k
    → Returns
        (λ d. ((d.accepted && not (is_registration op)) ≡ false) × (d.state ≡ t))
        (apply t op rev)
ended_is_fenced {s} {t} k w op rev h held ended steps f a =
    let valid = Steps-IsValid h steps in
    Answer-fenced t valid k w (Steps-ended k w h held ended steps) ended op a (apply t op rev)
      (apply-Answer t op rev valid f)

-- ===== src/WorkerPersistence/Commit.antt =====
-- src/lws/worker_persistence.py, `apply_worker_protocol_transition`: what a run of it that returned
-- has read and written.
use localshell_web_superviso.Base.{
  ℕ, ◌+◌, ◌≡◌, sym, ap, ◌∙◌, subst, true, false, not, inl, inr, String, ◌==◌, eqb, any, is_empty,
  if_inversion, raise_if-ok, eqb-eq, Outcome, ok, raise_if, bind-eq-ok, ok-cancel,
}
use localshell_web_superviso.WorkerProtocol.State.{
  WorkerTaskState, ProtocolDecision, task_id, mutated,
}
use localshell_web_superviso.WorkerProtocol.Checks.{validate_state}
use localshell_web_superviso.WorkerPersistence.Tables.{Database}
use localshell_web_superviso.WorkerPersistence.Load.{load_worker_protocol}
use localshell_web_superviso.WorkerPersistence.Persist.{persist_decision}
use localshell_web_superviso.WorkerPersistence.Apply.{
  same_state, commit_decision, settle_decision, transact,
}
use localshell_web_superviso.WorkerPersistence.Compare.{same_state-eq}

-- A committed database holds the decision's snapshot.
pub record IsCommitted (db : Database) (id : String) (rev : ℕ) (s : WorkerTaskState)
    (d : ProtocolDecision) (after : Database) : Type 0 where
  pub accepted : d.accepted ≡ true
  pub advanced : d.state.revision ≡ rev + 1
  pub written : persist_decision s d rev db ≡ ok after
  pub reloaded : load_worker_protocol after id ≡ ok d.state

pub commit-IsCommitted :
    (db : Database) (id : String) (rev : ℕ) (s : WorkerTaskState) (d : ProtocolDecision)
    {after : Database}
    → commit_decision db id rev s d ≡ ok after
    → IsCommitted db id rev s d after
unfolding commit_decision
commit-IsCommitted db id rev s d {after} h =
    let (u1, e1, h1) = bind-eq-ok (raise_if (not d.accepted) _) _ h in
    let (u2, e2, h2) = bind-eq-ok (raise_if (not (eqb d.state.revision (rev + 1))) _) _ h1 in
    let (u3, e3, h3) = bind-eq-ok (raise_if (is_empty d.events) _) _ h2 in
    let (u4, e4, h4) = bind-eq-ok (raise_if (any _ d.events) _) _ h3 in
    let (u5, e5, h5) = bind-eq-ok (validate_state d.state) _ h4 in
    let (persisted, e6, h6) = bind-eq-ok (persist_decision s d rev db) _ h5 in
    let (reloaded, e7, h7) = bind-eq-ok (load_worker_protocol persisted id) _ h6 in
    let (u8, e8, h8) = bind-eq-ok (raise_if (not (same_state reloaded d.state)) _) _ h7 in
    let same = same_state-eq reloaded d.state (raise_if-ok (same_state reloaded d.state) _ e8) in
    record {
      accepted = raise_if-ok d.accepted _ e1;
      advanced = eqb-eq d.state.revision (rev + 1) (raise_if-ok _ _ e2);
      written = e6 ∙ h8;
      reloaded =
          subst (λ x. load_worker_protocol x id ≡ ok d.state) (ok-cancel h8) (e7 ∙ ap ok same);
    }

-- What a transaction that returned has done.
pub data Outcomes (db : Database) (id : String) (rev : ℕ)
    (transition : WorkerTaskState → Outcome ProtocolDecision) (d : ProtocolDecision)
    (after : Database) : Type 0 where
  unchanged :
      (s : WorkerTaskState)
      → load_worker_protocol db id ≡ ok s
      → transition s ≡ ok d
      → d.expected_revision ≡ rev
      → mutated d ≡ false
      → after ≡ db
      → Outcomes db id rev transition d after
  committed :
      (s : WorkerTaskState)
      → load_worker_protocol db id ≡ ok s
      → transition s ≡ ok d
      → d.expected_revision ≡ rev
      → mutated d ≡ true
      → IsCommitted db id rev s d after
      → Outcomes db id rev transition d after

settle-Outcomes :
    (db : Database) (id : String) (rev : ℕ)
    (transition : WorkerTaskState → Outcome ProtocolDecision) (s : WorkerTaskState)
    (d e : ProtocolDecision) {after : Database}
    → load_worker_protocol db id ≡ ok s
    → transition s ≡ ok d
    → settle_decision db id rev s d ≡ ok (e, after)
    → Outcomes db id rev transition e after
unfolding settle_decision
settle-Outcomes db id rev transition s d e {after} loaded decided h =
    let (u1, e1, h1) = bind-eq-ok (raise_if (not (eqb d.expected_revision rev)) _) _ h in
    let (u2, e2, h2) = bind-eq-ok (raise_if (not (task_id d.state == id)) _) _ h1 in
    let current = eqb-eq d.expected_revision rev (raise_if-ok _ _ e1) in
    elim (if_inversion (mutated d) h2) [
      | inl (m, same) ↦
          let (committed_db, e3, h3) = bind-eq-ok (commit_decision db id rev s d) _ same in
          let (de, ae) : (d ≡ e) × (committed_db ≡ after) =
            (ap (λ x. x.0) (ok-cancel h3), ap (λ x. x.1) (ok-cancel h3)) in
          subst (λ x. Outcomes db id rev transition x after) de
            (committed s loaded decided current m
              (subst (IsCommitted db id rev s d) ae (commit-IsCommitted db id rev s d e3)))
      | inr (m, same) ↦
          subst (λ x. Outcomes db id rev transition x after) (ap (λ x. x.0) (ok-cancel same))
            (unchanged s loaded decided current m (sym (ap (λ x. x.1) (ok-cancel same))))
    ]

pub transact-Outcomes :
    (db : Database) (id : String) (rev : ℕ)
    (transition : WorkerTaskState → Outcome ProtocolDecision) {d : ProtocolDecision}
    {after : Database}
    → transact db id rev transition ≡ ok (d, after)
    → Outcomes db id rev transition d after
unfolding transact
transact-Outcomes db id rev transition {d} {after} h =
    let (s, e1, h1) = bind-eq-ok (load_worker_protocol db id) _ h in
    let (d1, e2, h2) = bind-eq-ok (transition s) (settle_decision db id rev s) h1 in
    settle-Outcomes db id rev transition s d1 d e1 e2 h2

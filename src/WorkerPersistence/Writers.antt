-- ===== src/WorkerPersistence/Writers.antt =====
-- src/lws/worker_persistence.py, `apply_worker_protocol_transition`: what a call leaves in the
-- database, and the callers that read the same revision.
use localshell_web_superviso.Base.{
  ℕ, ◌+◌, ◌≡◌, ◌≢◌, refl, subst, true, ◌⊎◌, inl, inr, String, eq_iff, arith, Outcome, ok,
}
use localshell_web_superviso.WorkerProtocol.State.{
  WorkerTaskState, ProtocolDecision, task_id, mutated,
}
use localshell_web_superviso.WorkerProtocol.Spec.{Operation, apply, IsWellFormed}
use localshell_web_superviso.WorkerProtocol.Revisions.{stale_decision, apply-stale}
use localshell_web_superviso.WorkerPersistence.Tables.{Database}
use localshell_web_superviso.WorkerPersistence.Load.{load_worker_protocol}
use localshell_web_superviso.WorkerPersistence.Apply.{
  settle_decision, transact, apply_worker_protocol_transition,
}
use localshell_web_superviso.WorkerPersistence.Commit.{unchanged, committed}
use localshell_web_superviso.WorkerPersistence.Consistent.{load-IsValid}
use localshell_web_superviso.WorkerPersistence.Histories.{
  Effect, rolled_back, returned, transition-Effect, request,
}

-- The call has answered with a mutation, and the database holds its snapshot.
pub record IsWritten (id : String) (rev : ℕ) (r : Outcome ProtocolDecision) (after : Database)
    : Type 0 where
  pub decision : ProtocolDecision
  pub answered : r ≡ ok decision
  pub mutation : mutated decision ≡ true
  pub advanced : decision.state.revision ≡ rev + 1
  pub reloaded : load_worker_protocol after id ≡ ok decision.state

Effect-atomic :
    (db : Database) (id : String) (rev : ℕ)
    (transition : WorkerTaskState → Outcome ProtocolDecision) (r : Outcome ProtocolDecision)
    (after : Database)
    → Effect db id rev transition r after
    → (after ≡ db) ⊎ IsWritten id rev r after
Effect-atomic db id rev transition _ _ (rolled_back e) = inl refl
Effect-atomic db id rev transition _ _ (returned (unchanged s l a c m same)) = inl same
Effect-atomic db id rev transition _ _ (returned {d} (committed s l a c m done)) = inr (record {
  decision = d;
  answered = refl;
  mutation = m;
  advanced = done.advanced;
  reloaded = done.reloaded;
})

-- Whatever the transition function does, a call leaves the database as it was, or it answers with a
-- mutation to the next revision and the snapshot that can be loaded afterwards is the decision's.
pub calls_are_atomic :
    (db : Database) (id : String) (rev : ℕ)
    (transition : WorkerTaskState → Outcome ProtocolDecision)
    → ((apply_worker_protocol_transition db id rev transition).1 ≡ db)
      ⊎ IsWritten id rev
          (apply_worker_protocol_transition db id rev transition).0
          (apply_worker_protocol_transition db id rev transition).1
calls_are_atomic db id rev transition =
    Effect-atomic db id rev transition _ _ (transition-Effect db id rev transition)

pub stale_request :
    (db : Database) (id : String) (op : Operation) (rev : ℕ) {s : WorkerTaskState}
    → load_worker_protocol db id ≡ ok s
    → IsWellFormed op
    → rev ≢ s.revision
    → request db id op rev ≡ (ok (stale_decision s rev), db)
unfolding apply_worker_protocol_transition transact settle_decision mutated
stale_request db id op rev {s} loaded f ne =
    let (valid, named, same) = load-IsValid db id loaded in
    let own = eq_iff (task_id s) id in
    rw (loaded, apply-stale s op rev valid f ne) (ground (arith, own))

committed-IsWritten :
    (db : Database) (id : String) (rev : ℕ)
    (transition : WorkerTaskState → Outcome ProtocolDecision) {d : ProtocolDecision}
    {after : Database}
    → Effect db id rev transition (ok d) after
    → mutated d ≡ true
    → (load_worker_protocol after id ≡ ok d.state) × (d.state.revision ≡ rev + 1)
committed-IsWritten db id rev transition (returned (unchanged s l a c n same)) m = cc
committed-IsWritten db id rev transition (returned (committed s l a c n done)) m =
    (done.reloaded, done.advanced)

-- Of two callers with the same expected revision at most one commits: after a call that committed,
-- another with that revision, whatever its operation, if its arguments are well-formed, is told that the
-- revision is stale, and it changes nothing.
pub one_writer_commits :
    (db : Database) (id : String) (op op' : Operation) (rev : ℕ) {d : ProtocolDecision}
    {after : Database}
    → request db id op rev ≡ (ok d, after)
    → mutated d ≡ true
    → IsWellFormed op'
    → request after id op' rev ≡ (ok (stale_decision d.state rev), after)
one_writer_commits db id op op' rev {d} {after} e m f =
    let effect =
      subst (λ x. Effect db id rev (λ s. apply s op rev) x.0 x.1) e
        (transition-Effect db id rev (λ s. apply s op rev)) in
    let (loaded, advanced) = committed-IsWritten db id rev (λ s. apply s op rev) effect m in
    stale_request after id op' rev loaded f (λ same. omega arith)

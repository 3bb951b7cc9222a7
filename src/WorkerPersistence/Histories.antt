-- ===== src/WorkerPersistence/Histories.antt =====
-- src/lws/worker_persistence.py, `apply_worker_protocol_transition` called again and again with the
-- operations of src/lws/worker_protocol.py: the histories of a task in the registry.
use localshell_web_superviso.Base.{
  ℕ, ◌≡◌, refl, sym, ◌∙◌, subst, String, Outcome, Error, ok, raise, ok-cancel,
}
use localshell_web_superviso.WorkerProtocol.State.{WorkerTaskState, ProtocolDecision}
use localshell_web_superviso.WorkerProtocol.Spec.{Operation, apply, IsWellFormed}
use localshell_web_superviso.WorkerProtocol.Traces.{Steps, here, next}
use localshell_web_superviso.WorkerPersistence.Tables.{Database}
use localshell_web_superviso.WorkerPersistence.Load.{load_worker_protocol}
use localshell_web_superviso.WorkerPersistence.Apply.{
  or_rollback, transact, apply_worker_protocol_transition,
}
use localshell_web_superviso.WorkerPersistence.Commit.{
  Outcomes, unchanged, committed, transact-Outcomes,
}

-- What a call has done to the database, by what it returned or raised.
pub data Effect (db : Database) (id : String) (rev : ℕ)
    (transition : WorkerTaskState → Outcome ProtocolDecision)
    : Outcome ProtocolDecision → Database → Type 0 where
  rolled_back : (e : Error) → Effect db id rev transition (raise e) db
  returned :
      {d : ProtocolDecision} {after : Database}
      → Outcomes db id rev transition d after
      → Effect db id rev transition (ok d) after

or_rollback-Effect :
    (db : Database) (id : String) (rev : ℕ)
    (transition : WorkerTaskState → Outcome ProtocolDecision)
    (r : Outcome (ProtocolDecision × Database))
    → transact db id rev transition ≡ r
    → Effect db id rev transition (or_rollback db r).0 (or_rollback db r).1
or_rollback-Effect db id rev transition (ok (d, after)) h =
    returned (transact-Outcomes db id rev transition h)
or_rollback-Effect db id rev transition (raise e) h = rolled_back e

pub transition-Effect :
    (db : Database) (id : String) (rev : ℕ)
    (transition : WorkerTaskState → Outcome ProtocolDecision)
    → Effect db id rev transition
        (apply_worker_protocol_transition db id rev transition).0
        (apply_worker_protocol_transition db id rev transition).1
unfolding apply_worker_protocol_transition
transition-Effect db id rev transition = or_rollback-Effect db id rev transition _ refl

-- The registry's call with an operation of the protocol.
abbrev pub request : Database → String → Operation → ℕ → Outcome ProtocolDecision × Database
request db id op rev = apply_worker_protocol_transition db id rev (λ s. apply s op rev)

-- `after` is the database after some calls for the task `id`, those that raised included.
pub data Runs (id : String) (db : Database) : Database → Type 0 where
  none_yet : Runs id db db
  then_request :
      {before after : Database} {r : Outcome ProtocolDecision}
      → Runs id db before
      → (op : Operation) (rev : ℕ) → IsWellFormed op
      → request before id op rev ≡ (r, after)
      → Runs id db after

Effect-Steps :
    (db : Database) (id : String) (op : Operation) (rev : ℕ) {s t : WorkerTaskState}
    (r : Outcome ProtocolDecision) (after : Database)
    → Steps s t
    → load_worker_protocol db id ≡ ok t
    → IsWellFormed op
    → Effect db id rev (λ x. apply x op rev) r after
    → (u : WorkerTaskState) × (load_worker_protocol after id ≡ ok u) × Steps s u
Effect-Steps db id op rev {s} {t} _ _ steps loaded f (rolled_back e) = (t, loaded, steps)
Effect-Steps db id op rev {s} {t} _ after steps loaded f (returned (unchanged x l a c m same)) =
    (t, subst (λ y. load_worker_protocol y id ≡ ok t) (sym same) loaded, steps)
Effect-Steps db id op rev {s} {t} _ after steps loaded f (returned {d} (committed x l a c m done)) =
    (
      d.state,
      done.reloaded,
      next steps op rev d f (subst (λ y. apply y op rev ≡ ok d) (ok-cancel (sym l ∙ loaded)) a)
          refl,
    )

-- Whatever calls for a task follow one another, also those that raise, its snapshot can be loaded
-- after them when it could before, and it is one that the protocol's operations reach.
pub histories_refine :
    (id : String) {db after : Database} {s : WorkerTaskState}
    → load_worker_protocol db id ≡ ok s
    → Runs id db after
    → (t : WorkerTaskState) × (load_worker_protocol after id ≡ ok t) × Steps s t
histories_refine id {s} loaded none_yet = (s, loaded, here)
histories_refine id loaded (then_request {before} {after} {r} runs op rev f e) =
    let (t, l, steps) = histories_refine id loaded runs in
    Effect-Steps before id op rev r after steps l f (
      subst (λ x. Effect before id rev (λ y. apply y op rev) x.0 x.1) e
        (transition-Effect before id rev (λ y. apply y op rev)))

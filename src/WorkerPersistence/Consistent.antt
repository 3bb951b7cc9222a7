-- ===== src/WorkerPersistence/Consistent.antt =====
-- src/lws/worker_persistence.py, `_load_worker_protocol_locked`: what a snapshot that it returned is.
use localshell_web_superviso.Base.{
  ◌≡◌, sym, ap, ◌∙◌, subst, Bool, true, false, not, inl, inr, none, some, Option, is_some, All, any,
  for_each, Option-cases, String, List, [], ◌∷◌, ◌==◌, ◌&&◌, ◌||◌, eq_iff, find, arith, eqb, eqb-eq,
  Outcome, Error, ok, raise, raise_if, persistence_error, bind-eq-ok, ok-cancel, collect,
  if_inversion, raise_if-ok,
}
use localshell_web_superviso.WorkerProtocol.State.{
  WorkerLease, WorkerLeaseStatus, WorkerTaskState, task_id, is_open, DurableTaskStatus,
}
use localshell_web_superviso.WorkerProtocol.Checks.{validate_state}
use localshell_web_superviso.WorkerProtocol.Validity.{IsValid, IsValid-of_validate}
use localshell_web_superviso.WorkerPersistence.Tables.{
  TaskRow, WorkerRow, find_row, legacy_status, ProtocolRow, LeaseRow, Database, find_task,
  find_protocol, lease_rows, worker_rows, task_status_of,
}
use localshell_web_superviso.WorkerPersistence.Load.{
  lease_from_row, state_from_rows, recast_errors, has_ended, protocol_has, same_ref, validate_lease,
  validate_lease_row, same_id, same_identities, validate_lineage_references,
  validate_legacy_consistency, load_worker_protocol, load_row, validate_task_row,
}
use localshell_web_superviso.WorkerPersistence.Compare.{same_id-eq, text-eq}

pub find-test {ℓ} :
    {A : Type ℓ} (test : A → Bool) (xs : List A) {x : A} → find test xs ≡ some x → test x ≡ true
unfolding find
find-test test [] h = cc
find-test test (y ∷ xs) h = elim (if_inversion (test y) h) [
  | inl (t, e) ↦ cc
  | inr (f, e) ↦ find-test test xs e
]

recast-ok {ℓ} : {A : Type ℓ} (m : Outcome A) {a : A} → recast_errors m ≡ ok a → m ≡ ok a
recast-ok (ok b) h = h
recast-ok (raise e) h = cc

state_from_rows-IsValid :
    (r : ProtocolRow) (rows : List LeaseRow) {s : WorkerTaskState}
    → state_from_rows r rows ≡ ok s
    → IsValid s × (task_id s ≡ r.task_id)
unfolding state_from_rows
state_from_rows-IsValid r rows {s} h =
    let (status, e1, h1) = bind-eq-ok (task_status_of r.task_status) _ h in
    let (leases, e2, h2) = bind-eq-ok (collect lease_from_row rows) _ h1 in
    let (u, e3, h3) = bind-eq-ok (validate_state _) _ h2 in
    (subst IsValid (ok-cancel h3) (IsValid-of_validate _ e3), sym (ap task_id (ok-cancel h3)))

-- What the `tasks` row of a task says of its snapshot: the worker, and whether the task is completed.
abbrev pub AgreesOn : DurableTaskStatus → String → Type 0
AgreesOn DurableTaskStatus.open_task state =
    ((state == "COMPLETED") ≡ false) × ((state == "ABANDONED") ≡ false)
AgreesOn DurableTaskStatus.completed_task state = state ≡ "COMPLETED"

-- What the column `status` of `workers` says of a lease.
abbrev pub IsStatusOf : String → WorkerLeaseStatus → Type 0
IsStatusOf text WorkerLeaseStatus.candidate = text ≡ "parked"
IsStatusOf text WorkerLeaseStatus.active = text ≡ "active"
IsStatusOf text WorkerLeaseStatus.superseded = text ≡ "superseded"
IsStatusOf text WorkerLeaseStatus.completed = text ≡ "dead"
IsStatusOf text WorkerLeaseStatus.abandoned = text ≡ "dead"

-- The row of the lease's worker in `workers` says the same as the lease.
pub record IsMirroredRow (rows : List WorkerRow) (w : WorkerLease) : Type 0 where
  pub row : WorkerRow
  pub found : find_row w.worker_id rows ≡ some row
  pub same_task : row.task_id ≡ w.task_id
  pub conversation : w.conversation_ref ≡ some row.conversation_url
  pub started : row.started_at ≡ w.registered_at
  pub status : IsStatusOf row.status w.status
  pub ended : (has_ended w.status && not (is_some row.ended_at)) ≡ false

pub data IsMirrored (db : Database) (s : WorkerTaskState) : Type 0 where
  mirrored :
      (t : TaskRow)
      → find_task db (task_id s) ≡ some t
      → t.current_worker_id ≡ s.current_worker_id
      → AgreesOn s.task_status t.state
      → All
          (λ (r : WorkerRow). protocol_has s.workers r.worker_id ≡ true)
          (worker_rows db (task_id s))
      → All (IsMirroredRow (worker_rows db (task_id s))) s.workers
      → IsMirrored db s

AgreesOn-of_tests :
    (status : DurableTaskStatus) (state : String) (e f : Error) {u v : Unit {0}}
    → raise_if (not (is_open status) && not (state == "COMPLETED")) e ≡ ok u
    → raise_if (is_open status && (state == "COMPLETED" || state == "ABANDONED")) f ≡ ok v
    → AgreesOn status state
AgreesOn-of_tests DurableTaskStatus.open_task state e f g h = ground arith
AgreesOn-of_tests DurableTaskStatus.completed_task state e f g h =
    ground (arith, eq_iff state "COMPLETED", raise_if-ok (state == "COMPLETED") e g)

and_known : (a b : Bool) → (not a && not b) ≡ true → a ≡ false
and_known a b h = ground arith

known_rows :
    (ws : List WorkerLease) (rows : List WorkerRow)
    → any (λ (r : WorkerRow). not (protocol_has ws r.worker_id)) rows ≡ false
    → All (λ (r : WorkerRow). protocol_has ws r.worker_id ≡ true) rows
known_rows ws [] h = tt
known_rows ws (r ∷ rows) h = (ground arith, known_rows ws rows (ground arith))

same_ref-eq : (ref : Option String) (url : String) → same_ref ref url ≡ true → ref ≡ some url
same_ref-eq none url h = cc
same_ref-eq (some ref) url h = ap some (sym (text-eq url ref h))

status-IsStatusOf :
    (text : String) (status : WorkerLeaseStatus)
    → text ≡ legacy_status status
    → IsStatusOf text status
status-IsStatusOf text WorkerLeaseStatus.candidate h = h
status-IsStatusOf text WorkerLeaseStatus.active h = h
status-IsStatusOf text WorkerLeaseStatus.superseded h = h
status-IsStatusOf text WorkerLeaseStatus.completed h = h
status-IsStatusOf text WorkerLeaseStatus.abandoned h = h

row-IsMirroredRow :
    (rows : List WorkerRow) (ws : List WorkerLease) (w : WorkerLease) (r : WorkerRow)
    → find_row w.worker_id rows ≡ some r
    → {v : Unit {0}} → validate_lease_row ws w r ≡ ok v
    → IsMirroredRow rows w
unfolding validate_lease_row
row-IsMirroredRow rows ws w r f {v} h =
    let (u1, e1, h1) = bind-eq-ok (raise_if (not (r.task_id == w.task_id)) _) _ h in
    let (u2, e2, h2) =
      bind-eq-ok (raise_if (not (same_ref w.conversation_ref r.conversation_url)) _) _ h1 in
    let (u3, e3, h3) = bind-eq-ok (raise_if (not (eqb r.started_at w.registered_at)) _) _ h2 in
    let (u4, e4, h4) = bind-eq-ok (raise_if (not (r.status == legacy_status w.status)) _) _ h3 in
    let (u5, e5, h5) =
      bind-eq-ok (raise_if (has_ended w.status && not (is_some r.ended_at)) _) _ h4 in
    record {
      row = r;
      found = f;
      same_task = text-eq _ _ (raise_if-ok _ _ e1);
      conversation = same_ref-eq _ _ (raise_if-ok _ _ e2);
      started = eqb-eq _ _ (raise_if-ok _ _ e3);
      status = status-IsStatusOf r.status w.status (text-eq _ _ (raise_if-ok _ _ e4));
      ended = ground arith;
    }

-- `validate_lease` returns only at a row that says the same.
lease-IsMirroredRow :
    (rows : List WorkerRow) (ws : List WorkerLease) (w : WorkerLease) {u v : Unit {0}}
    → validate_lease rows ws w u ≡ ok v
    → IsMirroredRow rows w
unfolding validate_lease
lease-IsMirroredRow rows ws w {u} {v} h = elim (Option-cases (find_row w.worker_id rows)) [
  | inl n ↦ absurd (ground arith)
  | inr (r, f) ↦ row-IsMirroredRow rows ws w r f {v = v} (ground arith)
]

leases-IsMirroredRow :
    (rows : List WorkerRow) (ws leases : List WorkerLease) {u v : Unit {0}}
    → for_each (validate_lease rows ws) leases u ≡ ok v
    → All (IsMirroredRow rows) leases
leases-IsMirroredRow rows ws [] h = tt
leases-IsMirroredRow rows ws (w ∷ leases) {u} {v} h =
    let (x, e1, h1) = bind-eq-ok (validate_lease rows ws w u) _ h in
    (lease-IsMirroredRow rows ws w e1, leases-IsMirroredRow rows ws leases h1)

task_row-IsMirrored :
    (db : Database) (s : WorkerTaskState) (t : TaskRow) {u : Unit {0}}
    → find_task db (task_id s) ≡ some t
    → validate_task_row db s t ≡ ok u
    → IsMirrored db s
unfolding validate_task_row
task_row-IsMirrored db s t found h =
    let (u1, e1, h1) =
      bind-eq-ok (raise_if (not (same_id t.current_worker_id s.current_worker_id)) _) _ h in
    let (u2, e2, h2) =
      bind-eq-ok (raise_if (not (is_open s.task_status) && not (t.state == "COMPLETED")) _) _ h1 in
    let (u3, e3, h3) =
      bind-eq-ok
        (raise_if (is_open s.task_status && (t.state == "COMPLETED" || t.state == "ABANDONED")) _) _
        h2 in
    let (u4, e4, h4) =
      bind-eq-ok (raise_if (not (same_identities (worker_rows db (task_id s)) s.workers)) _) _ h3 in
    mirrored t found (same_id-eq _ _ (raise_if-ok _ _ e1))
      (AgreesOn-of_tests s.task_status t.state _ _ e2 e3)
      (known_rows s.workers (worker_rows db (task_id s)) (and_known _ _ (raise_if-ok _ _ e4)))
      (leases-IsMirroredRow (worker_rows db (task_id s)) s.workers s.workers h4)

-- `validate_legacy_consistency` returns only at a row that agrees.
legacy-IsMirrored :
    (db : Database) (s : WorkerTaskState) {u : Unit {0}}
    → validate_legacy_consistency db s ≡ ok u
    → IsMirrored db s
unfolding validate_legacy_consistency
legacy-IsMirrored db s {u} h = elim (Option-cases (find_task db (task_id s))) [
  | inl n ↦ cc
  | inr (t, f) ↦ task_row-IsMirrored db s t f (
      subst
        (λ o.
          elim o [
            | none ↦ raise (persistence_error "canonical task row is missing")
            | some r ↦ validate_task_row db s r
          ]
          ≡ ok u)
        f h)
]

row-IsValid :
    (db : Database) (id : String) (r : ProtocolRow) {s : WorkerTaskState}
    → r.task_id ≡ id
    → load_row db id r ≡ ok s
    → IsValid s × (task_id s ≡ id) × IsMirrored db s
unfolding load_row
row-IsValid db id r {s} same h =
    let (state, e1, h1) = bind-eq-ok (recast_errors (state_from_rows r (lease_rows db id))) _ h in
    let (u2, e2, h2) = bind-eq-ok (validate_lineage_references db state) _ h1 in
    let (u3, e3, h3) = bind-eq-ok (validate_legacy_consistency db state) _ h2 in
    let (valid, named) = state_from_rows-IsValid r (lease_rows db id) (recast-ok _ e1) in
    subst (λ x. IsValid x × (task_id x ≡ id) × IsMirrored db x) (ok-cancel h3)
      (valid, named ∙ same, legacy-IsMirrored db state e3)

-- A snapshot that is loaded satisfies the invariant of the protocol, and the tables agree with it.
pub load-IsValid :
    (db : Database) (id : String) {s : WorkerTaskState}
    → load_worker_protocol db id ≡ ok s
    → IsValid s × (task_id s ≡ id) × IsMirrored db s
unfolding load_worker_protocol
load-IsValid db id {s} h = elim (Option-cases (find_protocol db id)) [
  | inl n ↦ ground arith
  | inr (r, f) ↦
      row-IsValid db id r
        (text-eq r.task_id id
          (find-test (λ (x : ProtocolRow). x.task_id == id) db.protocol_tasks f))
        (ground arith)
]

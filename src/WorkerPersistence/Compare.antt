-- ===== src/WorkerPersistence/Compare.antt =====
-- src/lws/worker_persistence.py: the comparisons of snapshots, and the texts of the enumerations.
use localshell_web_superviso.Base.{
  ℕ, ◌≡◌, refl, sym, ap, ◌∙◌, Bool, true, false, ◌&&◌, Option, none, some, String, List, [], ◌∷◌,
  ◌==◌, eqb-eq, eq_iff, arith, ok, ok-cancel, Outcome,
}
use localshell_web_superviso.WorkerProtocol.State.{
  WorkerLeaseStatus, DurableTaskStatus, EventKind, TaskLineage, WorkerLease, WorkerTaskState,
}
use localshell_web_superviso.WorkerPersistence.Tables.{
  lease_status_value, lease_status_of, task_status_value, task_status_of, event_kind_value,
  event_kind_of,
}
use localshell_web_superviso.WorkerPersistence.Load.{same_id}
use localshell_web_superviso.WorkerPersistence.Persist.{same_lineage}
use localshell_web_superviso.WorkerPersistence.Apply.{
  same_number, same_lease, same_leases, same_state,
}

-- The text that is stored for a status or a kind is read back as it.
pub lease_status_of-value : (x : WorkerLeaseStatus) → lease_status_of (lease_status_value x) ≡ ok x
unfolding lease_status_of
lease_status_of-value WorkerLeaseStatus.candidate = refl
lease_status_of-value WorkerLeaseStatus.active = refl
lease_status_of-value WorkerLeaseStatus.superseded = refl
lease_status_of-value WorkerLeaseStatus.completed = refl
lease_status_of-value WorkerLeaseStatus.abandoned = refl

pub task_status_of-value : (x : DurableTaskStatus) → task_status_of (task_status_value x) ≡ ok x
unfolding task_status_of
task_status_of-value DurableTaskStatus.open_task = refl
task_status_of-value DurableTaskStatus.completed_task = refl

pub event_kind_of-value : (x : EventKind) → event_kind_of (event_kind_value x) ≡ ok x
unfolding event_kind_of
event_kind_of-value EventKind.worker_registered = refl
event_kind_of-value EventKind.lease_claimed = refl
event_kind_of-value EventKind.heartbeat_accepted = refl
event_kind_of-value EventKind.handoff_requested = refl
event_kind_of-value EventKind.worker_superseded = refl
event_kind_of-value EventKind.lease_taken_over = refl
event_kind_of-value EventKind.worker_completed = refl
event_kind_of-value EventKind.worker_abandoned = refl
event_kind_of-value EventKind.task_completed = refl

-- of a chain of tests, the last and the others
split_and {ℓ} : {C : Type ℓ} (a b : Bool) → (a && b) ≡ true → (a ≡ true → b ≡ true → C) → C
split_and true b h k = k refl h
split_and false b h k = cc

pub text-eq : (a b : String) → (a == b) ≡ true → a ≡ b
text-eq a b h = ground (arith, eq_iff a b)

-- A text with a reader that inverts it tells the values apart.
read-eq {ℓ} :
    {A : Type ℓ} (write : A → String) (read : String → Outcome A)
    → ((x : A) → read (write x) ≡ ok x)
    → (a b : A) → (write a == write b) ≡ true
    → a ≡ b
read-eq write read back a b h =
    ok-cancel (sym (back a) ∙ ap read (text-eq (write a) (write b) h) ∙ back b)

lease_status-eq :
    (a b : WorkerLeaseStatus) → (lease_status_value a == lease_status_value b) ≡ true → a ≡ b
lease_status-eq a b h = read-eq lease_status_value lease_status_of lease_status_of-value a b h

task_status-eq :
    (a b : DurableTaskStatus) → (task_status_value a == task_status_value b) ≡ true → a ≡ b
task_status-eq a b h = read-eq task_status_value task_status_of task_status_of-value a b h

pub same_id-eq : (a b : Option String) → same_id a b ≡ true → a ≡ b
same_id-eq none none h = refl
same_id-eq none (some b) h = cc
same_id-eq (some a) none h = cc
same_id-eq (some a) (some b) h = ap some (text-eq a b h)

same_number-eq : (a b : Option ℕ) → same_number a b ≡ true → a ≡ b
same_number-eq none none h = refl
same_number-eq none (some b) h = cc
same_number-eq (some a) none h = cc
same_number-eq (some a) (some b) h = ground arith

pub same_lineage-eq : (a b : TaskLineage) → same_lineage a b ≡ true → a ≡ b
same_lineage-eq a b h = ground (
  arith,
  text-eq a.task_id b.task_id,
  same_id-eq a.parent_task_id b.parent_task_id,
  text-eq a.root_task_id b.root_task_id,
  same_id-eq a.child_key b.child_key,
)

same_lease-eq : (a b : WorkerLease) → same_lease a b ≡ true → a ≡ b
unfolding same_lease
same_lease-eq a b h = split_and _ _ h λ r10 e10. split_and _ _ r10 λ r9 e9.
    split_and _ _ r9 λ r8 e8. split_and _ _ r8 λ r7 e7. split_and _ _ r7 λ r6 e6.
      split_and _ _ r6 λ r5 e5. split_and _ _ r5 λ r4 e4. split_and _ _ r4 λ r3 e3.
        split_and _ _ r3 λ r2 e2. split_and _ _ r2 λ r1 e1. cc (
          text-eq a.worker_id b.worker_id r1,
          text-eq a.task_id b.task_id e1,
          same_id-eq a.conversation_ref b.conversation_ref e2,
          lease_status-eq a.status b.status e3,
          eqb-eq a.registered_at b.registered_at e4,
          same_number-eq a.generation b.generation e5,
          same_number-eq a.claimed_at b.claimed_at e6,
          same_number-eq a.last_heartbeat_at b.last_heartbeat_at e7,
          same_number-eq a.lease_expires_at b.lease_expires_at e8,
          same_number-eq a.ended_at b.ended_at e9,
          same_id-eq a.superseded_by b.superseded_by e10,
        )

same_leases-eq : (a b : List WorkerLease) → same_leases a b ≡ true → a ≡ b
unfolding same_leases
same_leases-eq [] [] h = refl
same_leases-eq [] (b ∷ bs) h = cc
same_leases-eq (a ∷ rest) [] h = cc
same_leases-eq (a ∷ rest) (b ∷ bs) h = ground (arith, same_lease-eq a b, same_leases-eq rest bs)

pub same_state-eq : (a b : WorkerTaskState) → same_state a b ≡ true → a ≡ b
unfolding same_state
same_state-eq a b h = split_and _ _ h λ r9 e9. split_and _ _ r9 λ r8 e8. split_and _ _ r8 λ r7 e7.
    split_and _ _ r7 λ r6 e6. split_and _ _ r6 λ r5 e5. split_and _ _ r5 λ r4 e4.
      split_and _ _ r4 λ r3 e3. split_and _ _ r3 λ r2 e2. split_and _ _ r2 λ r1 e1. cc (
        same_lineage-eq a.lineage b.lineage r1,
        eqb-eq a.revision b.revision e1,
        eqb-eq a.generation b.generation e2,
        task_status-eq a.task_status b.task_status e3,
        same_id-eq a.current_worker_id b.current_worker_id e4,
        same_id-eq a.handoff_target_worker_id b.handoff_target_worker_id e5,
        same_number-eq a.handoff_requested_at b.handoff_requested_at e6,
        same_leases-eq a.workers b.workers e7,
        same_number-eq a.completed_at b.completed_at e8,
        same_id-eq a.completion_ref b.completion_ref e9,
      )

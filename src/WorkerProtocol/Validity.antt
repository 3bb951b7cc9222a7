-- ===== src/WorkerProtocol/Validity.antt =====
-- What `validate_state` accepts, as a specification: the invariant of a protocol snapshot.
use localshell_web_superviso.Base.{
  ℕ, ◌<◌, ◌≤◌, ◌≡◌, refl, true, false, not, Option, none, some, is_some, String, List, [], ◌∷◌,
  length, any, All, ◌==◌, eq_iff, Outcome, ok, raise, ◌>>◌, arith, ◌↔◌,
}
use localshell_web_superviso.WorkerProtocol.State.{
  DurableTaskStatus, WorkerLease, WorkerTaskState, task_id, is_candidate,
}
use localshell_web_superviso.WorkerProtocol.Workers.{find_worker, active_workers, distinct_ids}
use localshell_web_superviso.WorkerProtocol.Workers.Lookup.{Unique}
use localshell_web_superviso.WorkerProtocol.Checks.{
  text_empty, validate_identity, check_current, validate_active, validate_handoff,
  validate_completion, validate_state,
}

-- A current worker is the one active lease, with the current generation and an expiry.
abbrev pub CurrentIs : Option String → ℕ → List WorkerLease → Type 0
CurrentIs none generation active = active ≡ []
CurrentIs (some current) generation active =
    (w : WorkerLease) × (active ≡ w ∷ [])
    × (w.worker_id ≡ current)
    × (w.generation ≡ some generation)
    × (0 < generation)
    × (is_some w.lease_expires_at ≡ true)

-- A handoff names a registered candidate while there is a current worker.
abbrev pub HandoffIs : Option String → Option ℕ → Option String → List WorkerLease → Type 0
HandoffIs none requested current ws = requested ≡ none
HandoffIs (some target_id) requested current ws =
    (target : WorkerLease) × (find_worker ws target_id ≡ some target)
    × (is_candidate target.status ≡ true)
    × (is_some current ≡ true)
    × (is_some requested ≡ true)

-- A completed task has no current worker and a completion reference.
abbrev pub CompletionIs : DurableTaskStatus → Option String → Option ℕ → Option String → Type 0
CompletionIs DurableTaskStatus.open_task current at ref = Unit
CompletionIs DurableTaskStatus.completed_task current at ref =
    (current ≡ none) × (is_some at ≡ true) × (text_empty ref ≡ false)

pub record IsValid (s : WorkerTaskState) : Type 0 where
  pub rooted : s.lineage.parent_task_id ≡ none → s.lineage.root_task_id ≡ task_id s
  pub unique : Unique s.workers
  pub registered : All (λ w. w.task_id ≡ task_id s) s.workers
  pub current : CurrentIs s.current_worker_id s.generation (active_workers s.workers)
  pub handoff :
      HandoffIs s.handoff_target_worker_id s.handoff_requested_at s.current_worker_id s.workers
  pub completion : CompletionIs s.task_status s.current_worker_id s.completed_at s.completion_ref

distinct-le-length : (ws : List WorkerLease) → distinct_ids ws ≤ length ws
unfolding distinct_ids
distinct-le-length [] = omega arith
distinct-le-length (w ∷ ws) = ground (arith, distinct-le-length ws)

Unique-of_distinct : (ws : List WorkerLease) → distinct_ids ws ≡ length ws → Unique ws
unfolding distinct_ids
Unique-of_distinct [] h = tt
Unique-of_distinct (w ∷ ws) h = ground (arith, distinct-le-length ws, Unique-of_distinct ws)

distinct_of-Unique : (ws : List WorkerLease) → Unique ws → distinct_ids ws ≡ length ws
unfolding distinct_ids
distinct_of-Unique [] u = refl
distinct_of-Unique (w ∷ ws) u = ground (arith, distinct_of-Unique ws)

foreign_none :
    (id : String) (ws : List WorkerLease)
    → All (λ w. w.task_id ≡ id) ws
    → any (λ (w : WorkerLease). not (w.task_id == id)) ws ≡ false
foreign_none id [] h = refl
foreign_none id (w ∷ ws) h = ground (arith, foreign_none id ws, eq_iff w.task_id id)

none_foreign :
    (id : String) (ws : List WorkerLease)
    → any (λ (w : WorkerLease). not (w.task_id == id)) ws ≡ false
    → All (λ w. w.task_id ≡ id) ws
none_foreign id [] h = tt
none_foreign id (w ∷ ws) h = ground (arith, none_foreign id ws, eq_iff w.task_id id)

validate_identity_ok :
    (s : WorkerTaskState)
    → (s.lineage.parent_task_id ≡ none → s.lineage.root_task_id ≡ task_id s)
    → Unique s.workers
    → All (λ w. w.task_id ≡ task_id s) s.workers
    → validate_identity s ≡ ok tt
unfolding validate_identity
validate_identity_ok s r u m = ground (
  arith,
  eq_iff s.lineage.root_task_id (task_id s),
  distinct_of-Unique s.workers u,
  foreign_none (task_id s) s.workers m,
)

check_current_ok :
    (current : Option String) (generation : ℕ) (active : List WorkerLease)
    → CurrentIs current generation active
    → check_current current generation active ≡ ok tt
unfolding check_current
check_current_ok none g [] c = refl
check_current_ok none g (w ∷ ws) c = ground arith
check_current_ok (some k) g [] c = ground arith
check_current_ok (some k) g (w ∷ []) c = ground (arith, eq_iff w.worker_id k)
check_current_ok (some k) g (w ∷ v ∷ ws) c = ground arith

CurrentIs-of_ok :
    (current : Option String) (generation : ℕ) (active : List WorkerLease)
    → check_current current generation active ≡ ok tt
    → CurrentIs current generation active
unfolding check_current
CurrentIs-of_ok none g [] c = refl
CurrentIs-of_ok none g (w ∷ ws) c = ground arith
CurrentIs-of_ok (some k) g [] c = ground arith
CurrentIs-of_ok (some k) g (w ∷ []) c =
    (w, refl, ground (arith, eq_iff w.worker_id k), ground arith, ground arith, ground arith)
CurrentIs-of_ok (some k) g (w ∷ v ∷ ws) c = ground arith

validate_handoff_ok :
    (s : WorkerTaskState)
    → HandoffIs s.handoff_target_worker_id s.handoff_requested_at s.current_worker_id s.workers
    → validate_handoff s ≡ ok tt
unfolding validate_handoff
validate_handoff_ok s h = ground arith

validate_completion_ok :
    (s : WorkerTaskState)
    → CompletionIs s.task_status s.current_worker_id s.completed_at s.completion_ref
    → validate_completion s ≡ ok tt
unfolding validate_completion
validate_completion_ok s h = ground arith

identity_of_ok :
    (s : WorkerTaskState)
    → validate_identity s ≡ ok tt
    → (s.lineage.parent_task_id ≡ none → s.lineage.root_task_id ≡ task_id s)
      × Unique s.workers
      × All (λ w. w.task_id ≡ task_id s) s.workers
unfolding validate_identity
identity_of_ok s h = (
  ground (arith, eq_iff s.lineage.root_task_id (task_id s)),
  Unique-of_distinct s.workers (ground arith),
  none_foreign (task_id s) s.workers (ground arith),
)

HandoffIs-of_ok :
    (s : WorkerTaskState)
    → validate_handoff s ≡ ok tt
    → HandoffIs s.handoff_target_worker_id s.handoff_requested_at s.current_worker_id s.workers
unfolding validate_handoff
HandoffIs-of_ok s h = ground arith

CompletionIs-of_ok :
    (s : WorkerTaskState)
    → validate_completion s ≡ ok tt
    → CompletionIs s.task_status s.current_worker_id s.completed_at s.completion_ref
unfolding validate_completion
CompletionIs-of_ok s h = ground arith

>>-eq-ok : (m n : Outcome (Unit {0})) → (m >> n) ≡ ok tt → (m ≡ ok tt) × (n ≡ ok tt)
>>-eq-ok (ok u) n h = (refl, h)
>>-eq-ok (raise e) n h = cc

-- `validate_state` accepts a valid snapshot.
pub validate_of-IsValid : {s : WorkerTaskState} → IsValid s → validate_state s ≡ ok tt
unfolding validate_state validate_active
validate_of-IsValid {s} v = rw (
  validate_identity_ok s v.rooted v.unique v.registered,
  check_current_ok s.current_worker_id s.generation (active_workers s.workers) v.current,
  validate_handoff_ok s v.handoff,
  validate_completion_ok s v.completion,
)

-- What `validate_state` accepts is valid.
pub IsValid-of_validate : (s : WorkerTaskState) → validate_state s ≡ ok tt → IsValid s
unfolding validate_state validate_active
IsValid-of_validate s h =
    let (identity, r1) =
      >>-eq-ok (validate_identity s)
        (validate_active s >> (validate_handoff s >> validate_completion s)) h in
    let (active, r2) =
      >>-eq-ok (validate_active s) (validate_handoff s >> validate_completion s) r1 in
    let (hand, done) = >>-eq-ok (validate_handoff s) (validate_completion s) r2 in
    let parts = identity_of_ok s identity in
    record {
      rooted = parts.0;
      unique = parts.1;
      registered = parts.2;
      current = CurrentIs-of_ok s.current_worker_id s.generation (active_workers s.workers) active;
      handoff = HandoffIs-of_ok s hand;
      completion = CompletionIs-of_ok s done;
    }

-- `validate_state` returns exactly at the valid snapshots.
pub validate_exactly : (s : WorkerTaskState) → (validate_state s ≡ ok tt) ↔ IsValid s
validate_exactly s = (IsValid-of_validate s, λ h. validate_of-IsValid h)

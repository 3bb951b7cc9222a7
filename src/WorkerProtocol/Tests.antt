-- ===== src/WorkerProtocol/Tests.antt =====
-- Runs of the lease protocol, and its theorems at concrete snapshots.
use localshell_web_superviso.Base.{
  ℕ, ◌≤◌, ◌≡◌, ◌↔◌, refl, true, false, ◌&&◌, not, Option, none, some, String, List, [], ◌∷◌, ok,
  Returns, Outcome, raise, eq_iff, arith, inr, ltb, strip, str_ltb,
}
use localshell_web_superviso.WorkerProtocol.State.{
  WorkerLeaseStatus, DurableTaskStatus, DecisionCode, EventKind, WorkerLease, WorkerTaskState,
  ProtocolDecision, mutated,
}
use localshell_web_superviso.WorkerProtocol.Workers.{
  find_worker, active_workers, insert_worker, sorted_workers, substitute_worker, replace_worker,
  distinct_ids,
}
use localshell_web_superviso.WorkerProtocol.Checks.{
  validate_identity, check_current, validate_active, validate_handoff, validate_completion,
  validate_state, preflight, lease_is_fresh, stamp, accept, require_positive_lease,
}
use localshell_web_superviso.WorkerProtocol.Operations.{
  initial_state, resolve_root, new_task_state, eligibility_of, takeover_eligibility, event,
  claim_lease, claim_worker, register_worker,
}
use localshell_web_superviso.WorkerProtocol.Endings.{grant_takeover, takeover_worker}
use localshell_web_superviso.WorkerProtocol.Validity.{
  IsValid, IsValid-of_validate, validate_exactly,
}
use localshell_web_superviso.WorkerProtocol.Accept.{accepted_decision}
use localshell_web_superviso.WorkerProtocol.Spec.{
  Operation, register, claim, heartbeat, takeover, close, apply, Answer,
}
use localshell_web_superviso.WorkerProtocol.Refine.{apply-Answer}
use localshell_web_superviso.WorkerProtocol.Traces.{
  Steps, here, next, Steps-monotone, new_task_state-IsValid,
}
use localshell_web_superviso.WorkerProtocol.Fencing.{is_registration, ended_is_fenced}
use localshell_web_superviso.WorkerProtocol.Tokens.{HasTokens, generations_are_tokens}
use localshell_web_superviso.WorkerProtocol.Revisions.{
  stale_decision, lost_update_free, completed_is_closed,
}
use localshell_web_superviso.WorkerProtocol.Leases.{
  CanTakeOver, Obtains, eligible_exactly, granted_until, takeover_succeeds, claim_succeeds,
}

abbrev lease : String → WorkerLeaseStatus → Option ℕ → Option ℕ → WorkerLease
lease id status generation expires = record {
  worker_id = id;
  task_id = "t";
  conversation_ref = none;
  status = status;
  registered_at = 10;
  generation = generation;
  claimed_at = none;
  last_heartbeat_at = none;
  lease_expires_at = expires;
  ended_at = none;
  superseded_by = none;
}

abbrev first : WorkerTaskState
unfolding initial_state
first = initial_state "t" none "t" none

abbrev snapshot : ℕ → ℕ → DurableTaskStatus → Option String → List WorkerLease → WorkerTaskState
snapshot revision generation status current workers = record {
  lineage = record { task_id = "t"; parent_task_id = none; root_task_id = "t"; child_key = none };
  revision = revision;
  generation = generation;
  task_status = status;
  current_worker_id = current;
  handoff_target_worker_id = none;
  handoff_requested_at = none;
  workers = workers;
  completed_at = some 90;
  completion_ref = some "done";
}

-- "a" was superseded by "b", whose lease expires at 100; "c" is a candidate.
abbrev running : WorkerTaskState
running = snapshot 7 2 DurableTaskStatus.open_task (some "b") (
    lease "a" WorkerLeaseStatus.superseded (some 1) (some 50)
    ∷ lease "b" WorkerLeaseStatus.active (some 2) (some 100)
    ∷ lease "c" WorkerLeaseStatus.candidate none none
    ∷ [])

-- The same, without a current worker.
abbrev idle : WorkerTaskState
idle = snapshot 7 2 DurableTaskStatus.open_task none (
    lease "a" WorkerLeaseStatus.superseded (some 1) (some 50)
    ∷ lease "c" WorkerLeaseStatus.candidate none none
    ∷ [])

-- What "c" gets when it claims the idle task at 120 for 60.
abbrev claimed_c : ProtocolDecision
claimed_c =
    accepted_decision idle
      (record idle {
        generation = 3;
        current_worker_id = some "c";
        workers =
            lease "a" WorkerLeaseStatus.superseded (some 1) (some 50)
            ∷ claim_lease (lease "c" WorkerLeaseStatus.candidate none none) 3 120 60
            ∷ [];
      })
      DecisionCode.claimed
      (event idle EventKind.lease_claimed 120 (some "c") (some 3) none none ∷ [])

abbrev done : WorkerTaskState
done = snapshot 9 2 DurableTaskStatus.completed_task none []

validates :
    (validate_state running ≡ ok tt) × (validate_state idle ≡ ok tt) × (validate_state done ≡ ok tt)
unfolding validate_state validate_identity validate_active check_current validate_handoff
    validate_completion active_workers distinct_ids find_worker
validates = (refl, refl, refl)

running-IsValid : IsValid running
running-IsValid = IsValid-of_validate running validates.0

idle-IsValid : IsValid idle
idle-IsValid = IsValid-of_validate idle validates.1

done-IsValid : IsValid done
done-IsValid = IsValid-of_validate done validates.2

validate_exactly_example : (validate_state running ≡ ok tt) ↔ IsValid running
validate_exactly_example = validate_exactly running

apply-Answer_example :
    Returns (Answer running (takeover "c" 120 60)) (apply running (takeover "c" 120 60) 7)
apply-Answer_example = apply-Answer running (takeover "c" 120 60) 7 running-IsValid (omega arith)

-- "a" has lost its lease, and cannot heartbeat with its old generation.
ended_is_fenced_example :
    Returns
      (λ d.
        ((d.accepted && not (is_registration (heartbeat "a" 1 60 60))) ≡ false)
        × (d.state ≡ running))
      (apply running (heartbeat "a" 1 60 60) 7)
unfolding find_worker
ended_is_fenced_example =
    ended_is_fenced "a" (lease "a" WorkerLeaseStatus.superseded (some 1) (some 50))
      (heartbeat "a" 1 60 60) 7 running-IsValid refl refl here (omega arith) refl

new_task : new_task_state " t " none none none ≡ ok first
unfolding new_task_state resolve_root initial_state strip validate_state validate_identity
    validate_active check_current validate_handoff validate_completion active_workers distinct_ids
new_task = refl

-- what an operation answers, or a rejection where it raises
abbrev answer_of : WorkerTaskState → Outcome ProtocolDecision → ProtocolDecision
answer_of s (ok d) = d
answer_of s (raise e) = stale_decision s 0

abbrev after : WorkerTaskState → Operation → ℕ → WorkerTaskState
after s op rev = (answer_of s (apply s op rev)).state

-- "a" and "b" register, "a" claims, and "b" takes over when the lease of "a" has expired.
abbrev with_a : WorkerTaskState
with_a = after first (register "a" none 10) 0

abbrev with_b : WorkerTaskState
with_b = after with_a (register "b" none 11) 1

abbrev claimed_a : WorkerTaskState
claimed_a = after with_b (claim "a" 20 60) 2

abbrev taken_b : WorkerTaskState
taken_b = after claimed_a (takeover "b" 90 60) 3

handed_over : Steps first taken_b
unfolding apply claim_worker takeover_worker require_positive_lease preflight accept stamp
    validate_state validate_identity validate_active check_current validate_handoff
    validate_completion active_workers distinct_ids find_worker replace_worker sorted_workers
    substitute_worker insert_worker str_ltb register_worker eligibility_of takeover_eligibility
    grant_takeover strip lease_is_fresh initial_state
handed_over =
    next
      (next
        (next (next here (register "a" none 10) 0 _ (λ e. ground (arith, eq_iff "a" "")) refl refl)
          (register "b" none 11) 1 _ (λ e. ground (arith, eq_iff "b" "")) refl refl)
        (claim "a" 20 60) 2 _ (omega arith) refl refl)
      (takeover "b" 90 60) 3 _ (omega arith) refl refl

first-IsValid : IsValid first
first-IsValid = new_task_state-IsValid " t " none none none new_task

generations_are_tokens_example : HasTokens taken_b.workers taken_b.generation
generations_are_tokens_example = generations_are_tokens " t " none none none new_task handed_over

Steps-monotone_example :
    (first.generation ≤ taken_b.generation) × (first.revision ≤ taken_b.revision)
Steps-monotone_example = Steps-monotone first-IsValid handed_over

completed_is_closed_example :
    Returns
      (λ d. (d.accepted ≡ false) × (d.state ≡ done) × (d.events ≡ []))
      (apply done (close "again" 95) 9)
completed_is_closed_example = completed_is_closed done (close "again" 95) 9 done-IsValid tt refl

eligible_exactly_example :
    (takeover_eligibility running "c" 120 ≡ ok (eligibility_of running "c" 120))
    × (((eligibility_of running "c" 120).eligible ≡ true) ↔ CanTakeOver running "c" 120)
eligible_exactly_example = eligible_exactly running "c" 120 running-IsValid

takeover_succeeds_example :
    Returns
      (Obtains running "c" DecisionCode.takeover_granted)
      (takeover_worker running "c" 120 60 7)
unfolding find_worker lease_is_fresh
takeover_succeeds_example =
    takeover_succeeds running "c" 120 60 running-IsValid (omega arith)
      ("b", lease "c" WorkerLeaseStatus.candidate none none, refl, refl, refl, refl, inr refl)

claim_succeeds_example :
    Returns (Obtains idle "c" DecisionCode.claimed) (claim_worker idle "c" 120 60 7)
unfolding find_worker
claim_succeeds_example =
    claim_succeeds idle "c" (lease "c" WorkerLeaseStatus.candidate none none) 120 60 idle-IsValid
      (omega arith) refl refl refl refl

claims_c : apply idle (claim "c" 120 60) 7 ≡ ok claimed_c
unfolding apply claim_worker require_positive_lease preflight accept stamp validate_state
    validate_identity validate_active check_current validate_handoff validate_completion
    active_workers distinct_ids find_worker replace_worker sorted_workers substitute_worker
    insert_worker str_ltb
claims_c = refl

granted_until_example : lease_is_fresh claimed_c.state "c" 179 ≡ ltb 179 180
granted_until_example =
    granted_until idle (claim "c" 120 60) 7 "c" 180 179 idle-IsValid (omega arith) claims_c refl
      refl

-- The second of two claims that read revision 7 is stale.
lost_update_free_example :
    apply claimed_c.state (claim "c" 121 60) 7 ≡ ok (stale_decision claimed_c.state 7)
unfolding mutated
lost_update_free_example =
    lost_update_free idle (claim "c" 120 60) (claim "c" 121 60) 7 idle-IsValid (omega arith)
      (omega arith) claims_c refl

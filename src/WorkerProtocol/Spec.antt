-- ===== src/WorkerProtocol/Spec.antt =====
-- The protocol as a relation: the operations, what each requires of a snapshot, and the snapshot
-- that it leads to. The code of src/lws/worker_protocol.py is shown to refine it.
use localshell_web_superviso.Base.{
  ℕ, ◌+◌, ◌<◌, ◌≡◌, true, false, Option, none, some, String, [], ◌∷◌, ◌++◌, ◌⊎◌, strip, Outcome,
}
use localshell_web_superviso.WorkerProtocol.State.{
  WorkerLeaseStatus, DurableTaskStatus, DecisionCode, WorkerLease, WorkerTaskState,
  ProtocolDecision, is_candidate, is_active, is_open,
}
use localshell_web_superviso.WorkerProtocol.Workers.{find_worker, sorted_workers, replace_worker}
use localshell_web_superviso.WorkerProtocol.Checks.{lease_is_fresh, before_timeline}
use localshell_web_superviso.WorkerProtocol.Operations.{
  new_candidate, claim_lease, register_worker, claim_worker, heartbeat_worker, request_handoff,
}
use localshell_web_superviso.WorkerProtocol.Endings.{
  superseded_lease, ended_lease, without_current, takeover_worker, complete_worker, abandon_worker,
  complete_task,
}

-- An operation with its arguments, but for the revision that its caller expects.
pub data Operation : Type 0 where
  register : String → Option String → ℕ → Operation
  claim : String → ℕ → ℕ → Operation
  heartbeat : String → ℕ → ℕ → ℕ → Operation
  handoff : String → String → ℕ → ℕ → Operation
  takeover : String → ℕ → ℕ → Operation
  complete : String → ℕ → ℕ → Operation
  abandon : String → ℕ → ℕ → Operation
  close : String → ℕ → Operation

unfoldable pub apply : WorkerTaskState → Operation → ℕ → Outcome ProtocolDecision
apply s (register id ref now) rev = register_worker s id ref now rev
apply s (claim id now lease) rev = claim_worker s id now lease rev
apply s (heartbeat id generation now lease) rev = heartbeat_worker s id generation now lease rev
apply s (handoff id target generation now) rev = request_handoff s id target generation now rev
apply s (takeover id now lease) rev = takeover_worker s id now lease rev
apply s (complete id generation now) rev = complete_worker s id generation now rev
apply s (abandon id generation now) rev = abandon_worker s id generation now rev
apply s (close ref now) rev = complete_task s ref now rev

-- The arguments for which an operation raises no `ValueError`.
abbrev pub IsWellFormed : Operation → Type 0
IsWellFormed (register id ref now) = strip id ≡ "" → ⊥
IsWellFormed (claim id now lease) = 0 < lease
IsWellFormed (heartbeat id generation now lease) = 0 < lease
IsWellFormed (takeover id now lease) = 0 < lease
IsWellFormed _ = Unit

-- The caller holds the current lease, with the current generation.
abbrev pub IsHolder : WorkerTaskState → String → ℕ → WorkerLease → Type 0
IsHolder s id generation w =
    (is_open s.task_status ≡ true)
    × (find_worker s.workers id ≡ some w)
    × (s.current_worker_id ≡ some id)
    × (is_active w.status ≡ true)
    × (generation ≡ s.generation)
    × (w.generation ≡ some generation)

-- The holder's lease has not expired, and its clock has not gone back.
abbrev pub IsTimely : WorkerTaskState → String → ℕ → WorkerLease → Type 0
IsTimely s id now w =
    (before_timeline now w.claimed_at w.last_heartbeat_at ≡ false)
    × (lease_is_fresh s id now ≡ true)

-- From `s` the operation leads to `t`, whose revision is still that of `s`.
abbrev pub Transition : WorkerTaskState → Operation → WorkerTaskState → Type 0
Transition s (register id ref now) t =
    (is_open s.task_status ≡ true)
    × (find_worker s.workers (strip id) ≡ none)
    × (t ≡ record s {
      workers = sorted_workers (s.workers ++ new_candidate s (strip id) ref now ∷ []);
    })
Transition s (claim id now lease) t =
    (w : WorkerLease) × (is_open s.task_status ≡ true)
    × (find_worker s.workers id ≡ some w)
    × (is_candidate w.status ≡ true)
    × (s.current_worker_id ≡ none)
    × (t ≡ record s {
      generation = s.generation + 1;
      current_worker_id = some id;
      handoff_target_worker_id = none;
      handoff_requested_at = none;
      workers = replace_worker s.workers (claim_lease w (s.generation + 1) now lease);
    })
Transition s (heartbeat id generation now lease) t =
    (w : WorkerLease) × IsHolder s id generation w
    × IsTimely s id now w
    × (t ≡ record s {
      workers =
          replace_worker s.workers
            (record w { last_heartbeat_at = some now; lease_expires_at = some (now + lease) });
    })
Transition s (handoff id target_id generation now) t =
    (w target : WorkerLease) × IsHolder s id generation w
    × IsTimely s id now w
    × (find_worker s.workers target_id ≡ some target)
    × (is_candidate target.status ≡ true)
    × (t ≡ record s { handoff_target_worker_id = some target_id; handoff_requested_at = some now })
Transition s (takeover id now lease) t =
    (current : String) × (old w : WorkerLease) × (is_open s.task_status ≡ true)
    × (s.current_worker_id ≡ some current)
    × (find_worker s.workers current ≡ some old)
    × (find_worker s.workers id ≡ some w)
    × (is_candidate w.status ≡ true)
    × ((s.handoff_target_worker_id ≡ some id) ⊎ (lease_is_fresh s current now ≡ false))
    × (t ≡ record s {
      generation = s.generation + 1;
      current_worker_id = some id;
      handoff_target_worker_id = none;
      handoff_requested_at = none;
      workers =
          replace_worker (replace_worker s.workers (superseded_lease old now id))
            (claim_lease w (s.generation + 1) now lease);
    })
Transition s (complete id generation now) t =
    (w : WorkerLease) × IsHolder s id generation w
    × IsTimely s id now w
    × (t ≡ without_current s (ended_lease w WorkerLeaseStatus.completed now))
Transition s (abandon id generation now) t =
    (w : WorkerLease) × IsHolder s id generation w
    × (t ≡ without_current s (ended_lease w WorkerLeaseStatus.abandoned now))
Transition s (close ref now) t =
    (is_open s.task_status ≡ true)
    × (s.current_worker_id ≡ none)
    × (strip ref ≡ "" → ⊥)
    × (t ≡ record s {
      task_status = DurableTaskStatus.completed_task;
      completed_at = some now;
      completion_ref = some (strip ref);
    })

-- What an operation may answer at a valid snapshot.
pub data Answer (s : WorkerTaskState) (op : Operation) (d : ProtocolDecision) : Type 0 where
  rejected : d.accepted ≡ false → d.state ≡ s → d.events ≡ [] → Answer s op d
  known :
      (id : String) (ref : Option String) (now : ℕ) (w : WorkerLease)
      → op ≡ register id ref now
      → find_worker s.workers (strip id) ≡ some w
      → is_open s.task_status ≡ true
      → d.accepted ≡ true
      → d.code ≡ DecisionCode.already_registered
      → d.expected_revision ≡ s.revision
      → d.state ≡ s
      → d.events ≡ []
      → Answer s op d
  moved :
      (t : WorkerTaskState)
      → Transition s op t
      → d.accepted ≡ true
      → d.expected_revision ≡ s.revision
      → d.state ≡ record t { revision = s.revision + 1 }
      → Answer s op d

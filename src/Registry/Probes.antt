-- ===== src/Registry/Probes.antt =====
-- src/lws/registry.py, the probe mutation operations. A row of `probe_mutation_operations` is its
-- payload. A caller without a time passes `time.time()`. The partial unique index on unresolved states
-- holds already by the test that comes before the insertion.
use localshell_web_superviso.Base.{
  ℕ, Bool, true, false, not, ◌&&◌, ◌||◌, Option, none, some, is_some, String, List, [], ◌∷◌, ◌++◌,
  any, find, ◌==◌, ltb, eqb, strip, rstrip_slash, take_text, if◌then◌else◌, Outcome, ok, raise,
  value_error, runtime_error, integrity_error, raise_if, ◌>>=◌, ◌>>◌, Letters,
}
use localshell_web_superviso.Models.Task.{ProbeMutationState}
use localshell_web_superviso.Models.Mutation.{
  ProbeMutationKind, ProbeWindowSlotBinding, ProbeMutationOperation, probe_unresolved,
}
use localshell_web_superviso.ProbeOps.Slots.{Conversions, slot_from_snapshot}
use localshell_web_superviso.ProbeOps.Decide.{is_armed}
use localshell_web_superviso.WorkerPersistence.Tables.{WorkerRow}
use localshell_web_superviso.Registry.Actions.{or_key_error}

abbrev pub Slots : Type 0
Slots = List ProbeWindowSlotBinding

pub record ProbeStore : Type 0 where
  pub tasks : List String
  pub workers : List WorkerRow
  pub slots : Slots
  pub operations : List ProbeMutationOperation

abbrev pub state_value : ProbeMutationState → String
state_value ProbeMutationState.armed = "ARMED"
state_value ProbeMutationState.close_submitted = "CLOSE_SUBMITTED"
state_value ProbeMutationState.ready_to_open = "READY_TO_OPEN"
state_value ProbeMutationState.open_submitted = "OPEN_SUBMITTED"
state_value ProbeMutationState.reconcile_required = "RECONCILE_REQUIRED"
state_value ProbeMutationState.completed_probe = "COMPLETED"
state_value ProbeMutationState.failed = "FAILED"
state_value ProbeMutationState.cancelled = "CANCELLED"

abbrev pub is_close : ProbeMutationKind → Bool
is_close ProbeMutationKind.close_probe = true
is_close _ = false

abbrev pub is_open : ProbeMutationKind → Bool
is_open ProbeMutationKind.open_probe = true
is_open _ = false

-- `==` on slots
unfoldable pub same_binding : ProbeWindowSlotBinding → ProbeWindowSlotBinding → Bool
same_binding a b =
    a.slot_id == b.slot_id
    && a.owner_token == b.owner_token
    && a.target_worker_id == b.target_worker_id
    && a.target_conversation_url == b.target_conversation_url
    && a.actual_url == b.actual_url
    && eqb a.window_handle b.window_handle
    && eqb a.browser_pid b.browser_pid
    && a.chrome_executable == b.chrome_executable
    && a.source == b.source
    && eqb a.bound_at b.bound_at
    && eqb a.observed_at b.observed_at
    && eqb a.expires_at b.expires_at

abbrev pub same_slot : Option ProbeWindowSlotBinding → Option ProbeWindowSlotBinding → Bool
same_slot none none = true
same_slot (some a) (some b) = same_binding a b
same_slot _ _ = false

-- the one durable slot, if there is one
unfoldable pub current_slot : Slots → Outcome (Option ProbeWindowSlotBinding)
current_slot [] = ok none
current_slot (s ∷ []) = ok (some s)
current_slot _ = raise (runtime_error "multiple durable probe slots require reconciliation")

-- the tests of `arm_probe_mutation_operation` on the operation alone
unfoldable pub check_operation : ProbeMutationOperation → Outcome (Unit {0})
check_operation o = do
  raise_if (not (is_armed o.state))
      (value_error "probe mutation must be ARMED before durable recording")
  raise_if (strip o.operation_id == "" || strip o.nonce == "")
      (value_error "probe mutation requires operation id and nonce")
  raise_if (strip o.slot_id == "" || strip o.owner_token == "")
      (value_error "probe mutation requires slot id and owner token")
  raise_if (strip o.expected_chrome_executable == "")
      (value_error "probe mutation requires an expected Chrome executable")
  raise_if (not (is_close o.kind) && strip o.expected_actual_url == "")
      (value_error "OPEN/ROTATE mutation requires an expected tagged target")

-- the tests on the target worker
unfoldable pub check_target : ProbeStore → ProbeMutationOperation → Outcome (Unit {0})
check_target st o = do
  task ← or_key_error "unknown task" (find (λ id. id == o.target_task_id) st.tasks)
  worker ←
      or_key_error "unknown worker"
        (find (λ (w : WorkerRow). w.worker_id == o.target_worker_id) st.workers)
  raise_if (not (worker.task_id == o.target_task_id))
      (value_error "probe mutation worker belongs to a different task")
  raise_if (not (worker.status == "parked"))
      (value_error "probe mutation requires a parked target worker")
  raise_if (not (rstrip_slash worker.conversation_url == rstrip_slash o.target_conversation_url))
      (value_error "probe mutation target URL no longer matches the worker")

-- the tests on the slot before the operation is armed
unfoldable pub check_slot :
    Conversions → ProbeMutationOperation → Option ProbeWindowSlotBinding → Outcome (Unit {0})
check_slot c o current =
    if is_open o.kind
    then raise_if (is_some o.prior_slot || is_some current)
        (runtime_error "OPEN mutation requires no existing durable probe slot")
    else do
      raise_if (not (is_some o.prior_slot))
          (value_error "ROTATE/CLOSE mutation requires a prior slot snapshot")
      prior ← slot_from_snapshot c o.prior_slot
      raise_if (not (same_slot current prior))
          (runtime_error "durable probe slot changed before mutation could be armed")

unfoldable pub arm_probe_mutation_operation :
    Conversions → ProbeStore → ProbeMutationOperation → Outcome ProbeStore
arm_probe_mutation_operation c st o = do
  check_operation o
  check_target st o
  raise_if (any (λ (x : ProbeMutationOperation). probe_unresolved x.state) st.operations)
      (runtime_error "unresolved probe mutation already exists")
  current ← current_slot st.slots
  check_slot c o current
  raise_if
      (any (λ (x : ProbeMutationOperation). x.operation_id == o.operation_id || x.nonce == o.nonce)
        st.operations)
      (integrity_error "probe_mutation_operations")
  ok (record st { operations = st.operations ++ o ∷ [] })

-- `authorize_probe_close`, on the operation that was read
unfoldable pub close_phase : ℕ → ProbeMutationOperation → Outcome ProbeMutationOperation
close_phase now o = do
  raise_if (is_open o.kind) (runtime_error "probe operation does not contain a CLOSE phase")
  raise_if (not (is_armed o.state)) (runtime_error "probe operation is not ARMED")
  ok (record o { state = ProbeMutationState.close_submitted; updated_at = now })

abbrev pub may_submit_open : ProbeMutationKind → ProbeMutationState → Bool
may_submit_open ProbeMutationKind.open_probe ProbeMutationState.armed = true
may_submit_open ProbeMutationKind.rotate_probe ProbeMutationState.ready_to_open = true
may_submit_open _ _ = false

-- `authorize_probe_open`
unfoldable pub open_phase : ℕ → ProbeMutationOperation → Outcome ProbeMutationOperation
open_phase now o = do
  raise_if (not (may_submit_open o.kind o.state))
      (runtime_error "probe operation is not ready for OPEN")
  ok (record o { state = ProbeMutationState.open_submitted; resume_state = none; updated_at = now })

-- `fail_probe_mutation_operation`
unfoldable pub fail_phase : String → ℕ → ProbeMutationOperation → Outcome ProbeMutationOperation
fail_phase reason now o = do
  raise_if (not (is_armed o.state))
      (runtime_error "probe mutation may fail terminally only before mutation authority")
  ok (record o {
    state = ProbeMutationState.failed;
    last_error = some (take_text 1000 reason);
    updated_at = now;
  })

unfoldable pub validate_probe_completion_binding :
    Letters → ProbeMutationOperation → ProbeWindowSlotBinding → Outcome (Unit {0})
validate_probe_completion_binding letters o b = do
  raise_if (not (b.slot_id == o.slot_id))
      (value_error "completion binding uses the wrong probe slot")
  raise_if (not (b.owner_token == o.owner_token))
      (value_error "completion binding uses the wrong ownership token")
  raise_if (not (b.target_worker_id == o.target_worker_id))
      (value_error "completion binding uses the wrong target worker")
  raise_if (not (rstrip_slash b.target_conversation_url == rstrip_slash o.target_conversation_url))
      (value_error "completion binding uses the wrong target conversation")
  raise_if (not (rstrip_slash b.actual_url == rstrip_slash o.expected_actual_url))
      (value_error "completion binding does not match the expected tagged target")
  raise_if
      (not (letters.casefold b.chrome_executable == letters.casefold o.expected_chrome_executable))
      (value_error "completion binding executable identity changed")
  raise_if (not (ltb 0 b.window_handle) || not (ltb 0 b.browser_pid))
      (value_error "completion binding requires positive HWND and browser PID")

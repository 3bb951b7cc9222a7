-- ===== src/Registry/Actions.antt =====
-- src/lws/registry.py, the action attempts: their rows and how they are recorded. A row
-- of `action_attempts` is its payload: the columns repeat fields of it. A caller without a time passes
-- `time.time()`. Of `metadata` there are `prompt_protocol` and the two signatures of acknowledgements.
use localshell_web_superviso.Base.{
  ℕ, suc, Bool, true, false, not, ◌&&◌, ◌||◌, Option, none, some, is_some, String, List, [], ◌∷◌,
  ◌++◌, any, find, select, sort_by, ◌==◌, ltb, leb, if◌then◌else◌, Outcome, ok, raise, value_error,
  runtime_error, key_error, integrity_error, raise_if, ◌>>=◌, ◌>>◌,
}
use localshell_web_superviso.Models.Mutation.{ActionAttempt, ActionAttemptState, action_unresolved}
use localshell_web_superviso.WorkerPersistence.Tables.{WorkerRow}
use localshell_web_superviso.WorkerPersistence.Load.{same_id}

-- the columns of `tasks` that these operations read or write
pub record TaskRow : Type 0 where
  pub task_id : String
  pub state : String
  pub current_worker_id : Option String
  pub recovery_attempts : ℕ
  pub max_recovery_attempts : ℕ
  pub updated_at : ℕ

pub record Store : Type 0 where
  pub tasks : List TaskRow
  pub workers : List WorkerRow
  pub attempts : List ActionAttempt

pub record ActionAcknowledgement : Type 0 where
  pub attempt_id : String
  pub worker_id : String
  pub observed_at : ℕ
  pub accepted : Bool
  pub kind : String
  pub evidence_hash : String
  pub text_signature : Option String

abbrev pub task_of : Store → String → Option TaskRow
task_of st id = find (λ (t : TaskRow). t.task_id == id) st.tasks

abbrev pub worker_of : Store → String → Option WorkerRow
worker_of st id = find (λ (w : WorkerRow). w.worker_id == id) st.workers

abbrev pub attempt_of : Store → String → Option ActionAttempt
attempt_of st id = find (λ (a : ActionAttempt). a.attempt_id == id) st.attempts

abbrev pub or_key_error {ℓ} : {A : Type ℓ} → String → Option A → Outcome A
or_key_error text none = raise (key_error text)
or_key_error text (some a) = ok a

abbrev pub get_action_attempt : Store → String → Outcome ActionAttempt
get_action_attempt st id = or_key_error "unknown action attempt" (attempt_of st id)

-- an unresolved attempt of the task
abbrev pub is_pending : String → ActionAttempt → Bool
is_pending id a = a.task_id == id && action_unresolved a.state

abbrev pub pending : Store → String → List ActionAttempt
pending st id = select (is_pending id) st.attempts

abbrev pub latest : List ActionAttempt → Option ActionAttempt
latest xs = elim (sort_by (λ (a b : ActionAttempt). ltb b.created_at a.created_at) xs) [
  | [] ↦ none
  | a ∷ rest ↦ some a
]

unfoldable pub unresolved_action_attempt : Store → String → Outcome (Option ActionAttempt)
unresolved_action_attempt st id = do
  task ← or_key_error "unknown task" (task_of st id)
  ok (latest (pending st id))

-- INSERT INTO action_attempts, with `attempt_id` as its key
unfoldable pub insert_attempt : Store → ActionAttempt → Outcome Store
insert_attempt st a = do
  raise_if (is_some (attempt_of st a.attempt_id)) (integrity_error "action_attempts")
  ok (record st { attempts = st.attempts ++ a ∷ [] })

abbrev pub is_another : Option ActionAttempt → String → Bool
is_another none id = false
is_another (some a) id = not (a.attempt_id == id)

unfoldable pub record_action_attempt : Store → ActionAttempt → Outcome Store
record_action_attempt st a = do
  task ← or_key_error "unknown task" (task_of st a.task_id)
  worker ← or_key_error "unknown worker" (worker_of st a.worker_id)
  raise_if (not (worker.task_id == a.task_id))
      (value_error "action attempt worker belongs to a different task")
  unresolved ← unresolved_action_attempt st a.task_id
  raise_if (is_another unresolved a.attempt_id) (runtime_error "task already has unresolved action")
  insert_attempt st a

abbrev pub is_armed : ActionAttemptState → Bool
is_armed ActionAttemptState.armed = true
is_armed _ = false

abbrev pub is_terminal_task : TaskRow → Bool
is_terminal_task t = t.state == "COMPLETED" || t.state == "ABANDONED"

-- the tests on the worker and on other actions, with which both kinds of recording end
unfoldable pub check_authoritative : Store → ActionAttempt → TaskRow → Outcome (Unit {0})
check_authoritative st a t = do
  worker ← or_key_error "unknown worker" (worker_of st a.worker_id)
  raise_if (not (worker.task_id == a.task_id))
      (value_error "action attempt worker belongs to a different task")
  raise_if (not (same_id t.current_worker_id (some a.worker_id)) || not (worker.status == "active"))
      (runtime_error "worker is no longer authoritative")
  raise_if (any (is_pending a.task_id) st.attempts)
      (runtime_error "task already has unresolved action")

unfoldable pub record_current_worker_action_attempt : Store → ActionAttempt → Outcome Store
record_current_worker_action_attempt st a = do
  raise_if (not (is_armed a.state))
      (value_error "current-worker action must be ARMED before durable recording")
  task ← or_key_error "unknown task" (task_of st a.task_id)
  raise_if (is_terminal_task task)
      (runtime_error "terminal task cannot arm a current-worker action")
  check_authoritative st a task
  insert_attempt st a

-- `UPDATE tasks SET recovery_attempts = recovery_attempts + 1, updated_at = ?`
unfoldable pub charge : String → ℕ → List TaskRow → List TaskRow
charge id at [] = []
charge id at (t ∷ ts) =
    let rest = charge id at ts in
    if t.task_id == id
    then record t { recovery_attempts = suc t.recovery_attempts; updated_at = at } ∷ rest
    else t ∷ rest

unfoldable pub record_recovery_action_attempt : Store → ActionAttempt → Outcome Store
record_recovery_action_attempt st a = do
  raise_if (not (is_armed a.state))
      (value_error "recovery action must be ARMED before durable recording")
  task ← or_key_error "unknown task" (task_of st a.task_id)
  raise_if (is_terminal_task task) (runtime_error "terminal task cannot arm a recovery action")
  raise_if (leb task.max_recovery_attempts task.recovery_attempts)
      (runtime_error "recovery attempt budget is exhausted")
  check_authoritative st a task
  inserted ← insert_attempt st a
  ok (record inserted { tasks = charge a.task_id a.created_at inserted.tasks })

-- `UPDATE action_attempts ... WHERE attempt_id = ?`; `attempt_id` is the key, so that this is one row
unfoldable pub put_attempt : ActionAttempt → List ActionAttempt → List ActionAttempt
put_attempt a [] = []
put_attempt a (x ∷ xs) = if x.attempt_id == a.attempt_id then a ∷ xs else x ∷ put_attempt a xs

-- `_replace_action_attempt`, of an attempt that was read just before
unfoldable pub replace_action_attempt : Store → ActionAttempt → Outcome Store
replace_action_attempt st a = do
  raise_if (not (is_some (attempt_of st a.attempt_id))) (key_error "unknown action attempt")
  ok (record st { attempts = put_attempt a st.attempts })

-- ===== src/Scheduler.antt =====
-- src/lws/scheduler.py: the queue of the tasks that need attention.
mod Sorting
mod Queue
mod Tests
use localshell_web_superviso.Base.{
  ℕ, Bool, true, false, ◌&&◌, ◌||◌, String, List, [], ◌∷◌, ◌==◌, ltb, eqb, str_ltb, if◌then◌else◌,
  sort_by,
}
use localshell_web_superviso.Models.Task.{SupervisorState, TaskRecord, Assessment}

-- `_PRIORITY`
abbrev pub priority_of : SupervisorState → ℕ
priority_of SupervisorState.needs_human = 0
priority_of SupervisorState.blocked = 1
priority_of SupervisorState.reconciling = 2
priority_of SupervisorState.suspect = 3
priority_of SupervisorState.recovering = 4
priority_of SupervisorState.starting = 5
priority_of SupervisorState.queued = 6
priority_of SupervisorState.running = 7
priority_of SupervisorState.completed = 8
priority_of SupervisorState.abandoned = 9

-- `state.value`
abbrev pub supervisor_state_value : SupervisorState → String
supervisor_state_value SupervisorState.queued = "QUEUED"
supervisor_state_value SupervisorState.starting = "STARTING"
supervisor_state_value SupervisorState.running = "RUNNING"
supervisor_state_value SupervisorState.suspect = "SUSPECT"
supervisor_state_value SupervisorState.reconciling = "RECONCILING"
supervisor_state_value SupervisorState.recovering = "RECOVERING"
supervisor_state_value SupervisorState.blocked = "BLOCKED"
supervisor_state_value SupervisorState.needs_human = "NEEDS_HUMAN"
supervisor_state_value SupervisorState.completed = "COMPLETED"
supervisor_state_value SupervisorState.abandoned = "ABANDONED"

pub record AttentionItem : Type 0 where
  pub task_id : String
  pub state : SupervisorState
  pub priority : ℕ
  pub reason : String

-- `state in eligible`
unfoldable pub is_eligible : SupervisorState → Bool
is_eligible SupervisorState.needs_human = true
is_eligible SupervisorState.blocked = true
is_eligible SupervisorState.reconciling = true
is_eligible SupervisorState.suspect = true
is_eligible _ = false

-- the comparison of the tuples (priority, state.value, reason)
unfoldable pub is_better : AttentionItem → AttentionItem → Bool
is_better a b =
    ltb a.priority b.priority
    || (eqb a.priority b.priority
        && (str_ltb (supervisor_state_value a.state) (supervisor_state_value b.state)
            || (supervisor_state_value a.state == supervisor_state_value b.state
                && str_ltb a.reason b.reason)))

-- `best_by_task`, in the order of its keys: a better candidate takes the place of the current one,
-- and a new task stands at the end
unfoldable pub put_best : AttentionItem → List AttentionItem → List AttentionItem
put_best c [] = c ∷ []
put_best c (x ∷ xs) =
    let rest = put_best c xs in
    if x.task_id == c.task_id then (if is_better c x then c else x) ∷ xs else x ∷ rest

abbrev pub candidate_of : {E : Type 0} → TaskRecord → Assessment E → AttentionItem
candidate_of task assessment = record {
  task_id = task.task_id;
  state = assessment.state;
  priority = priority_of assessment.state;
  reason = assessment.reason;
}

-- the loop over the items
unfoldable pub best_by_task :
    {E : Type 0} → List AttentionItem → List (TaskRecord × Assessment E) → List AttentionItem
best_by_task best [] = best
best_by_task best ((task, assessment) ∷ items) =
    best_by_task
      (if is_eligible assessment.state then put_best (candidate_of task assessment) best else best)
      items

-- the comparison of the keys (priority, task_id)
abbrev pub item_before : AttentionItem → AttentionItem → Bool
item_before a b =
    ltb a.priority b.priority || (eqb a.priority b.priority && str_ltb a.task_id b.task_id)

unfoldable pub attention_queue :
    {E : Type 0} → List (TaskRecord × Assessment E) → List AttentionItem
unfolding best_by_task sort_by
attention_queue items = sort_by item_before (best_by_task [] items)

-- ===== src/Scheduler/Tests.antt =====
-- The queue of attention for four assessments of three tasks.
use localshell_web_superviso.Base.{
  insert_by, sort_by, false, none, String, List, [], ◌∷◌, any, map, str_ltb, ◌≡◌, refl,
  if◌then◌else◌,
}
use localshell_web_superviso.Models.Task.{SupervisorState, TaskRecord, Assessment}
use localshell_web_superviso.Orchestration.Selection.{count}
use localshell_web_superviso.Scheduler.{
  AttentionItem, is_eligible, is_better, put_best, best_by_task, attention_queue,
}
use localshell_web_superviso.Scheduler.Queue.{
  IsOrdered, is_of, is_due, is_urgent, is_within, queue_exactly,
}

abbrev assessed : String → SupervisorState → TaskRecord × Assessment String
assessed id state = (
  record {
    task_id = id;
    project = "site";
    objective = "build it";
    cwd = "/site";
    state = SupervisorState.running;
    lsm_session_id = none;
    checkpoint = [];
    current_worker_id = none;
    recovery_attempts = 0;
    max_recovery_attempts = 2;
    created_at = 0;
    updated_at = 0;
  },
  record {
    state = state;
    reason = "seen";
    confidence = "high";
    evidence = [];
    requires_reconcile = false;
    may_auto_continue = false;
  },
)

abbrev seen : List (TaskRecord × Assessment String)
seen =
    assessed "b" SupervisorState.suspect
    ∷ assessed "a" SupervisorState.blocked
    ∷ assessed "c" SupervisorState.running
    ∷ assessed "b" SupervisorState.needs_human
    ∷ []

-- the task that needs a human comes first, and the running one is left out
seen_queue : map (λ (i : AttentionItem). i.task_id) (attention_queue seen) ≡ ("b" ∷ "a" ∷ [])
unfolding attention_queue best_by_task put_best is_better is_eligible sort_by insert_by str_ltb
seen_queue = refl

queue_exactly_example :
    IsOrdered (attention_queue seen)
    × (count (is_of "b") (attention_queue seen) ≡ (if any (is_due "b") seen then 1 else 0))
    × (any (is_within "b" 2) (attention_queue seen) ≡ any (is_urgent "b" 2) seen)
queue_exactly_example = queue_exactly "b" 2 seen

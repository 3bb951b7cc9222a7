-- ===== src/Orchestration/Plan.antt =====
-- src/lws/orchestration.py, `plan_orchestration`. A decision stands with the input that it is about, in
-- place of the look-up of its task in `by_task`.
use localshell_web_superviso.Base.{
  ℕ, Bool, true, false, not, ◌&&◌, ◌||◌, Option, none, some, String, List, [], ◌∷◌, ◌++◌, map, any,
  ◌==◌, ltb, eqb, max, str_ltb, if◌then◌else◌, sort_by, take,
}
use localshell_web_superviso.Models.Task.{SupervisorState}
use localshell_web_superviso.Orchestration.Input.{
  Letters, DecisionKind, OrchestrationPolicy, TaskOrchestrationInput, Reason, Blocker,
  OrchestrationDecision, bounded_backoff,
}
use localshell_web_superviso.Orchestration.Evaluate.{evaluate_task}

abbrev pub id_of : TaskOrchestrationInput → String
id_of item = item.task.task_id

abbrev pub has_id : String → List TaskOrchestrationInput → Bool
has_id id items = any (λ (i : TaskOrchestrationInput). id_of i == id) items

-- `unique_items`: the first input of each task, after those of `seen`
unfoldable pub unique_items :
    List TaskOrchestrationInput → List TaskOrchestrationInput → List TaskOrchestrationInput
unique_items seen [] = seen
unique_items seen (item ∷ items) =
    unique_items (if has_id (id_of item) seen then seen else seen ++ (item ∷ [])) items

-- `duplicate_ids`: the tasks with a second input
unfoldable pub duplicate_ids :
    List TaskOrchestrationInput → List TaskOrchestrationInput → List String
duplicate_ids seen [] = []
duplicate_ids seen (item ∷ items) =
    let rest =
      duplicate_ids (if has_id (id_of item) seen then seen else seen ++ (item ∷ [])) items in
    if has_id (id_of item) seen then id_of item ∷ rest else rest

abbrev pub id_before : TaskOrchestrationInput → TaskOrchestrationInput → Bool
id_before a b = str_ltb (id_of a) (id_of b)

unfoldable pub canonical_items : List TaskOrchestrationInput → List TaskOrchestrationInput
unfolding sort_by unique_items
canonical_items items = sort_by id_before (unique_items [] items)

abbrev pub Entry : Type 0
Entry = TaskOrchestrationInput × OrchestrationDecision

abbrev pub is_member : String → List String → Bool
is_member id ids = any (λ i. i == id) ids

-- the decision of a task with several inputs
abbrev pub mark_duplicate : Bool → OrchestrationDecision → OrchestrationDecision
mark_duplicate false d = d
mark_duplicate true d = record d {
  kind = DecisionKind.reconcile;
  reason =
      Reason.text
        "duplicate orchestration inputs exist for one durable task; reconcile caller state";
  selected = false;
  blockers = d.blockers ++ (Blocker.blocker "duplicate durable task input" ∷ []);
  mutation_allowed = false;
}

abbrev pub is_actionable : DecisionKind → Bool
is_actionable DecisionKind.reconcile = true
is_actionable DecisionKind.recommend_action = true
is_actionable _ = false

-- `_FAIRNESS_STATE_RANK.get(state, 99)`
abbrev pub state_rank : SupervisorState → ℕ
state_rank SupervisorState.recovering = 0
state_rank SupervisorState.reconciling = 1
state_rank SupervisorState.suspect = 2
state_rank _ = 99

abbrev pub fairness_stamp : Option ℕ → ℕ → ℕ
fairness_stamp none created_at = created_at
fairness_stamp (some scheduled_at) created_at = scheduled_at

-- `_fairness_key(a) < _fairness_key(b)`
unfoldable pub fairer : TaskOrchestrationInput → TaskOrchestrationInput → Bool
fairer a b =
    let s = fairness_stamp a.last_scheduled_at a.task.created_at in
    let t = fairness_stamp b.last_scheduled_at b.task.created_at in
    ltb s t
    || (eqb s t
        && (ltb (state_rank a.task.state) (state_rank b.task.state)
            || (eqb (state_rank a.task.state) (state_rank b.task.state)
                && str_ltb (id_of a) (id_of b))))

abbrev pub entry_before : Entry → Entry → Bool
entry_before (a, _) (b, _) = fairer a b

-- an actionable decision of a task whose scheduling history is known
abbrev pub is_candidate : Entry → Bool
is_candidate (item, d) = is_actionable d.kind && item.scheduling_history_known

unfoldable pub candidates : List Entry → List Entry
candidates [] = []
candidates (e ∷ es) = let rest = candidates es in if is_candidate e then e ∷ rest else rest

abbrev pub entry_id : Entry → String
entry_id (_, d) = d.task_id

unfoldable pub selected_ids : OrchestrationPolicy → List Entry → List String
unfolding take sort_by candidates
selected_ids policy entries =
    map entry_id (take policy.max_selected_tasks (sort_by entry_before (candidates entries)))

-- the loop body that builds the result
unfoldable pub settle : OrchestrationPolicy → List String → Entry → OrchestrationDecision
settle policy selected (item, d) =
    if is_actionable d.kind && not item.scheduling_history_known
    then record d {
      kind = DecisionKind.wait_cooldown;
      reason =
          Reason.text
            "scheduler selection withheld because durable scheduling history is unavailable; supply it explicitly to the adapter";
      selected = false;
      retry_after = some (max 100 policy.max_backoff);
      deferred_kind = some d.kind;
      blockers = d.blockers ++ (Blocker.blocker "durable scheduling history unavailable" ∷ []);
    }
    else if is_member d.task_id selected
    then record d { selected = true }
    else if is_actionable d.kind
    then record d {
      kind = DecisionKind.wait_cooldown;
      reason = Reason.slot_deferred d.kind;
      selected = false;
      retry_after = some (bounded_backoff policy item.consecutive_waits);
      deferred_kind = some d.kind;
    }
    else d

unfoldable pub entry_of :
    Letters → ℕ → OrchestrationPolicy → List String → TaskOrchestrationInput → Entry
unfolding evaluate_task
entry_of letters now policy duplicates item = (
  item,
  mark_duplicate (is_member (id_of item) duplicates) (evaluate_task letters item now policy),
)

unfoldable pub plan_orchestration :
    Letters → List TaskOrchestrationInput → ℕ → OrchestrationPolicy → List OrchestrationDecision
plan_orchestration letters items now policy =
    let entries =
      map (entry_of letters now policy (duplicate_ids [] items)) (canonical_items items) in
    map (settle policy (selected_ids policy entries)) entries

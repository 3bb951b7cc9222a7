-- ===== src/Orchestration/PlanTests.antt =====
-- A plan for two tasks, one of them named twice.
use localshell_web_superviso.Base.{
  insert_by, sort_by, take, ◌≤◌, true, false, [], ◌∷◌, map, str_ltb, ◌≡◌, refl, List,
}
use localshell_web_superviso.Models.Task.{checkpoint_get, binding_is_fresh}
use localshell_web_superviso.Orchestration.Input.{
  TaskOrchestrationInput, OrchestrationDecision, bounded_backoff, same_directory,
}
use localshell_web_superviso.Orchestration.Stages.{
  state_stage, blocker_stage, lsm_checks, lsm_stage,
}
use localshell_web_superviso.Orchestration.Ownership.{
  workspace_checks, workspace_stage, worker_stage, cooldown_stage,
}
use localshell_web_superviso.Orchestration.Samples.{
  samples_agree, sample_checks, reconciliation_stage, binding_stage, capability_stage,
}
use localshell_web_superviso.Orchestration.Evaluate.{gates, evaluate_task}
use localshell_web_superviso.Orchestration.Plan.{
  plan_orchestration, entry_of, settle, duplicate_ids, canonical_items, unique_items, selected_ids,
  candidates, fairer,
}
use localshell_web_superviso.Orchestration.Selection.{count}
use localshell_web_superviso.Orchestration.Slots.{selection_bounded}
use localshell_web_superviso.Orchestration.Tests.{letters, policy, task, stalled}

-- two tasks that may be recovered, one of them named twice
abbrev queue : List TaskOrchestrationInput
queue =
    stalled ∷ record stalled { task = record task { task_id = "u"; created_at = 7 } } ∷ stalled ∷ []

-- only one of the two gets the slot of the cycle
queue_selected :
    map
      (λ (d : OrchestrationDecision). d.selected)
      (plan_orchestration letters queue 1000000 policy)
    ≡ (true ∷ false ∷ [])
unfolding plan_orchestration entry_of settle duplicate_ids canonical_items unique_items sort_by
    insert_by selected_ids candidates take fairer evaluate_task gates state_stage blocker_stage
    lsm_checks lsm_stage workspace_checks workspace_stage worker_stage cooldown_stage samples_agree
    sample_checks reconciliation_stage binding_stage capability_stage checkpoint_get
    binding_is_fresh same_directory bounded_backoff str_ltb
queue_selected = refl

selection_bounded_example :
    count
      (λ (d : OrchestrationDecision). d.selected)
      (plan_orchestration letters queue 1000000 policy)
    ≤ policy.max_selected_tasks
selection_bounded_example = selection_bounded letters queue 1000000 policy

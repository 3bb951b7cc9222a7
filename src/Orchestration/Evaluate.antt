-- ===== src/Orchestration/Evaluate.antt =====
-- src/lws/orchestration.py, `evaluate_task`: its stages in order.
use localshell_web_superviso.Base.{ℕ, none, []}
use localshell_web_superviso.Orchestration.Input.{
  Letters, DecisionKind, OrchestrationPolicy, TaskOrchestrationInput, Reason, Checks,
  OrchestrationDecision, decision, bounded_backoff,
}
use localshell_web_superviso.Orchestration.Gates.{Gate, stop, pass, and_then}
use localshell_web_superviso.Orchestration.Stages.{state_stage, blocker_stage, lsm_stage}
use localshell_web_superviso.Orchestration.Ownership.{workspace_stage, worker_stage, cooldown_stage}
use localshell_web_superviso.Orchestration.Samples.{
  reconciliation_stage, binding_stage, capability_stage,
}

-- every early return of `evaluate_task`
unfoldable pub gates : Letters → TaskOrchestrationInput → ℕ → OrchestrationPolicy → Gate Checks
gates letters item now policy =
    let backoff = bounded_backoff policy item.consecutive_waits in
    and_then (state_stage item now policy backoff) λ c.
      and_then (blocker_stage item now policy backoff c) λ c.
        and_then (lsm_stage item now policy backoff c) λ c.
          and_then (workspace_stage item now policy backoff letters c) λ c.
            and_then (worker_stage item now policy backoff c) λ (c, w).
              and_then (cooldown_stage item now policy backoff c) λ c.
                and_then (reconciliation_stage item now policy backoff c) λ c.
                  and_then (binding_stage item now policy backoff w c)
                    λ c. capability_stage item now policy backoff letters c

-- the decision where no stage has returned
abbrev pub conclude : TaskOrchestrationInput → Gate Checks → OrchestrationDecision
conclude item (stop d) = d
conclude item (pass checks) =
    decision item DecisionKind.recommend_action
      (Reason.text
        "all deterministic recovery gates are satisfied; surface an explicit action recommendation only")
      checks [] none

unfoldable pub evaluate_task :
    Letters → TaskOrchestrationInput → ℕ → OrchestrationPolicy → OrchestrationDecision
evaluate_task letters item now policy = conclude item (gates letters item now policy)

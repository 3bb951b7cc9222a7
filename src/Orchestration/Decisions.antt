-- ===== src/Orchestration/Decisions.antt =====
-- src/lws/orchestration.py: what the decisions of `evaluate_task` mean.
use localshell_web_superviso.Base.{ℕ, true, Option, none, some, ◌≡◌, ◌↔◌, refl, sym, subst}
use localshell_web_superviso.Models.Task.{WorkerRecord}
use localshell_web_superviso.Orchestration.Input.{
  Letters, DecisionKind, OrchestrationPolicy, TaskOrchestrationInput, Checks, bounded_backoff,
}
use localshell_web_superviso.Orchestration.Gates.{
  Gate, stop, pass, Guards, IsAdvisory, Anything, When, and_then-Guards,
}
use localshell_web_superviso.Orchestration.Stages.{in_recovery, lsm_stage}
use localshell_web_superviso.Orchestration.Ownership.{workspace_stage, worker_stage, cooldown_stage}
use localshell_web_superviso.Orchestration.Samples.{reconciliation_stage, binding_stage}
use localshell_web_superviso.Orchestration.Evaluate.{gates, conclude, evaluate_task}
use localshell_web_superviso.Orchestration.Requirements.{
  StateAllows, NothingBlocks, SessionIdle, state_stage-Guards, blocker_stage-Guards,
  lsm_stage-Guards,
}
use localshell_web_superviso.Orchestration.Holdings.{
  WorkspaceSound, HoldsLease, CooledDown, GivesWorker, workspace_stage-Guards, worker_stage-Guards,
  cooldown_stage-Guards,
}
use localshell_web_superviso.Orchestration.Stability.{SamplesStable, reconciliation_stage-Guards}
use localshell_web_superviso.Orchestration.Window.{
  IsBound, CapabilityQualifies, binding_stage-Guards, capability_stage-Guards,
}

-- A worker that is there has its exact window.
abbrev pub WindowBound : ℕ → Option WorkerRecord → TaskOrchestrationInput → Type 0
WindowBound now none item = ⊥
WindowBound now (some w) item =
    When item.requires_exact_window_binding (IsBound now w item.window_binding)

module _ (letters : Letters) (item : TaskOrchestrationInput) (now : ℕ)
    (policy : OrchestrationPolicy) where
  abbrev pub PageQualifies : Type 0
  PageQualifies = When item.page_continuity_relevant (
      CapabilityQualifies letters item.page_capability_kind now item.page_capability
        item.capability_context)

  -- All that the evidence must show before a recovery action is recommended.
  pub PermitsRecovery : Type 0
  PermitsRecovery =
      StateAllows item now policy
      × (NothingBlocks item now policy
          × (SessionIdle item now policy item.lsm
              × (WorkspaceSound item now policy letters item.workspace
                  × (HoldsLease item now policy item.worker item.worker_lease_expires_at
                      × (CooledDown item now policy item.last_recovery_at
                          × (SamplesStable item now policy item.previous_reconciliation
                                item.current_reconciliation
                              × (WindowBound now item.worker item × PageQualifies)))))))

  window_stage-Guards :
      (b : ℕ) (w : WorkerRecord) (c : Checks)
      → item.worker ≡ some w
      → Guards item
          (WindowBound now item.worker item)
          Anything
          (binding_stage item now policy b w c)
  window_stage-Guards b w c e =
      subst
        (λ o. Guards item (WindowBound now o item) Anything (binding_stage item now policy b w c))
        (sym e) (binding_stage-Guards item now policy b w c)

  gates-Guards : Guards item PermitsRecovery Anything (gates letters item now policy)
  unfolding gates PermitsRecovery lsm_stage workspace_stage worker_stage cooldown_stage
      reconciliation_stage
  gates-Guards =
      let b = bounded_backoff policy item.consecutive_waits in
      and_then-Guards item _ _ Anything Anything _ _ (state_stage-Guards item now policy b) λ c _.
        and_then-Guards item _ _ Anything Anything _ _ (blocker_stage-Guards item now policy b c)
          λ c _.
            and_then-Guards item _ _ Anything Anything _ _
              (lsm_stage-Guards item now policy b item.lsm c)
              λ c _.
                and_then-Guards item _ _ Anything Anything _ _
                  (workspace_stage-Guards item now policy b letters item.workspace c)
                  λ c _.
                    and_then-Guards item _ _ (GivesWorker item.worker) Anything _ _
                      (worker_stage-Guards item now policy b item.worker c)
                      λ (c, w) e.
                        and_then-Guards item _ _ Anything Anything _ _
                          (cooldown_stage-Guards item now policy b item.last_recovery_at c)
                          λ c _.
                            and_then-Guards item _ _ Anything Anything _ _
                              (reconciliation_stage-Guards item now policy b
                                item.previous_reconciliation item.current_reconciliation _)
                              λ c _.
                                and_then-Guards item _ _ Anything Anything _ _
                                  (window_stage-Guards b w c e)
                                  λ c _. capability_stage-Guards item now policy b letters c

conclude_iff :
    (item : TaskOrchestrationInput) (P : Type 0) (g : Gate Checks)
    → Guards item P Anything g
    → ((conclude item g).kind ≡ DecisionKind.recommend_action) ↔ P
unfolding Guards
conclude_iff item P (stop d) (k, n, s) = (λ e. absurd (k e), λ p. absurd (n p))
conclude_iff item P (pass c) (p, _) = (λ _. p, λ _. refl)

conclude-IsAdvisory :
    (item : TaskOrchestrationInput) (P : Type 0) (g : Gate Checks)
    → Guards item P Anything g
    → IsAdvisory item (conclude item g)
unfolding Guards IsAdvisory
conclude-IsAdvisory item P (stop d) (k, n, s) = s
conclude-IsAdvisory item P (pass c) h = (refl, refl, refl, refl)

-- A task is recommended for a recovery action exactly if every gate is open: its states, no
-- unresolved action, attempts left, an idle session, a sound workspace, the lease, the cooldown, two
-- stable reconciliations and, where they are asked for, its window and the page capability.
pub recommend_exactly :
    (letters : Letters) (item : TaskOrchestrationInput) (now : ℕ) (policy : OrchestrationPolicy)
    → ((evaluate_task letters item now policy).kind ≡ DecisionKind.recommend_action)
      ↔ PermitsRecovery letters item now policy
unfolding evaluate_task
recommend_exactly letters item now policy =
    conclude_iff item _ _ (gates-Guards letters item now policy)

-- Every decision of evaluate_task is on its own task; none allows a mutation, is selected, or
-- defers another decision.
pub evaluate_task-IsAdvisory :
    (letters : Letters) (item : TaskOrchestrationInput) (now : ℕ) (policy : OrchestrationPolicy)
    → IsAdvisory item (evaluate_task letters item now policy)
unfolding evaluate_task
evaluate_task-IsAdvisory letters item now policy =
    conclude-IsAdvisory item _ _ (gates-Guards letters item now policy)

-- The assessment of a task that may be recovered sees a stall.
pub permits_state :
    (letters : Letters) (item : TaskOrchestrationInput) (now : ℕ) (policy : OrchestrationPolicy)
    → PermitsRecovery letters item now policy
    → in_recovery item.assessment.state ≡ true
unfolding PermitsRecovery
permits_state letters item now policy ((h, _, _), _) = h

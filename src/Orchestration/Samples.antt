-- ===== src/Orchestration/Samples.antt =====
-- src/lws/orchestration.py, `evaluate_task`: the reconciliations, the window and the page capability.
use localshell_web_superviso.Base.{
  ℕ, ◌+◌, Bool, true, false, not, ◌&&◌, Option, none, some, is_some, [], ◌∷◌, ◌++◌, map, is_empty,
  ◌==◌, leb, if◌then◌else◌,
}
use localshell_web_superviso.Models.Task.{
  WorkerRecord, WorkerWindowBinding, PageCapabilityRecord, ReconciliationRecord, binding_is_fresh,
}
use localshell_web_superviso.Orchestration.Input.{
  Letters, DecisionKind, OrchestrationPolicy, TaskOrchestrationInput, CapabilityContext, Reason,
  Blocker, Checks, decision, age_is_fresh, same_text, capability_blockers, fence_matches,
}
use localshell_web_superviso.Orchestration.Gates.{Gate, stop, pass}
use localshell_web_superviso.Orchestration.Stages.{in_recovery}

-- `current.created_at - previous.created_at >= minimum`
abbrev pub separated : ReconciliationRecord → ReconciliationRecord → ℕ → Bool
separated previous current minimum = leb (previous.created_at + minimum) current.created_at

abbrev pub both_eligible : ReconciliationRecord → ReconciliationRecord → Bool
both_eligible previous current =
    in_recovery previous.state
    && in_recovery current.state
    && previous.requires_reconcile
    && current.requires_reconcile

module _ (item : TaskOrchestrationInput) (now : ℕ) (policy : OrchestrationPolicy)
    (backoff : ℕ) where
  abbrev pub same_worker : ReconciliationRecord → ReconciliationRecord → Bool
  same_worker previous current =
      same_text current.current_worker_id item.task.current_worker_id
      && same_text previous.current_worker_id item.task.current_worker_id

  abbrev pub same_task : ReconciliationRecord → ReconciliationRecord → Bool
  same_task previous current =
      (previous.task_id == item.task.task_id) && (current.task_id == item.task.task_id)

  abbrev pub sample_fresh : ReconciliationRecord → Bool
  sample_fresh r = age_is_fresh r.created_at now policy.max_reconciliation_age

  -- `all(...)` over the checks of two samples
  unfoldable pub samples_agree : ReconciliationRecord → ReconciliationRecord → Bool
  samples_agree previous current =
      not (previous.reconcile_id == current.reconcile_id)
      && (sample_fresh previous
          && (sample_fresh current
              && (separated previous current policy.min_reconciliation_separation
                  && (fence_matches previous current
                      && (same_task previous current
                          && (same_worker previous current && both_eligible previous current))))))

  -- two samples
  unfoldable pub sample_checks : Checks → ReconciliationRecord → ReconciliationRecord → Gate Checks
  sample_checks c1 previous current =
      let distinct = not (previous.reconcile_id == current.reconcile_id) in
      let apart = separated previous current policy.min_reconciliation_separation in
      let checks =
        c1
        ++ (("distinct_reconciliation_samples", distinct)
            ∷ ("previous_reconciliation_fresh", sample_fresh previous)
            ∷ ("current_reconciliation_fresh", sample_fresh current)
            ∷ ("reconciliation_separation_sufficient", apart)
            ∷ ("reconciliation_fence_stable", fence_matches previous current)
            ∷ ("reconciliation_task_matches", same_task previous current)
            ∷ ("reconciliation_worker_matches", same_worker previous current)
            ∷ ("reconciliation_state_recovery_eligible", both_eligible previous current)
            ∷ []) in
      if samples_agree previous current
      then pass checks
      else stop (
          decision item DecisionKind.reconcile
            (Reason.text "semantic reconciliation is not yet stable and fresh across two samples")
            checks [] (some backoff))

  abbrev pub samples_from :
      Option ReconciliationRecord → Option ReconciliationRecord → Checks → Gate Checks
  samples_from (some previous) (some current) c1 = sample_checks c1 previous current
  samples_from _ _ c1 = stop (
      decision item DecisionKind.reconcile
        (Reason.text "two semantic reconciliation samples are required before recovery") c1 []
        (some backoff))

  unfoldable pub reconciliation_stage : Checks → Gate Checks
  reconciliation_stage c0 = samples_from item.previous_reconciliation item.current_reconciliation (
      c0
      ++ (("previous_reconciliation_present", is_some item.previous_reconciliation)
          ∷ ("current_reconciliation_present", is_some item.current_reconciliation)
          ∷ []))

  abbrev pub binds : WorkerRecord → WorkerWindowBinding → Bool
  binds w b =
      (b.worker_id == w.worker_id)
      && binding_is_fresh b now
      && (b.conversation_url == w.conversation_url)

  abbrev binding_checks : Checks → Bool → Bool → Bool → Bool → Checks
  binding_checks c0 present current fresh url =
      c0
      ++ (("window_binding_present", present)
          ∷ ("window_binding_current_worker", current)
          ∷ ("window_binding_fresh", fresh)
          ∷ ("window_binding_url_matches", url)
          ∷ [])

  abbrev unbound : Checks → Gate Checks
  unbound checks = stop (
      decision item DecisionKind.reconcile
        (Reason.text "exact-window binding is missing or stale for the current worker") checks []
        (some backoff))

  abbrev pub binding_from : Option WorkerWindowBinding → WorkerRecord → Checks → Gate Checks
  binding_from none w c0 = unbound (binding_checks c0 false false false false)
  binding_from (some b) w c0 =
      let checks =
        binding_checks c0 true (b.worker_id == w.worker_id) (binding_is_fresh b now)
          (b.conversation_url == w.conversation_url) in
      if binds w b then pass checks else unbound checks

  -- the exact window of the worker
  unfoldable pub binding_stage : WorkerRecord → Checks → Gate Checks
  binding_stage w c0 =
      if item.requires_exact_window_binding then binding_from item.window_binding w c0 else pass c0

  abbrev pub capability_from :
      Letters → Option PageCapabilityRecord → Option CapabilityContext → Checks → Gate Checks
  capability_from letters (some c) (some context) c0 =
      let failures = capability_blockers letters c context item.page_capability_kind now in
      let checks =
        c0
        ++ (("page_capability_present", true)
            ∷ ("page_capability_matches_runtime", is_empty failures)
            ∷ []) in
      if is_empty failures
      then pass checks
      else stop (
          decision item DecisionKind.blocked_human
            (Reason.text "page-continuity capability provenance is stale or mismatched") checks
            (map Blocker.capability_check_failed failures) none)
  capability_from letters _ _ c0 = stop (
      decision item DecisionKind.blocked_human
        (Reason.text "page-continuity behavior lacks durable capability provenance")
        (c0 ++ (("page_capability_present", false) ∷ []))
        (Blocker.blocker "a dedicated accepted page-close/reopen experiment is required" ∷ []) none)

  -- the durable evidence that the page can be closed and opened again
  unfoldable pub capability_stage : Letters → Checks → Gate Checks
  capability_stage letters c0 =
      if item.page_continuity_relevant
      then capability_from letters item.page_capability item.capability_context c0
      else pass c0

-- ===== src/Orchestration/Caution.antt =====
-- src/lws/watcher.py, src/lws/recovery.py and src/lws/orchestration.py together, on live work.
use localshell_web_superviso.Base.{ℕ, true, Option, some, ◌≡◌, ◌≢◌, ◌∙◌, refl, ap, arith}
use localshell_web_superviso.Models.Task.{TaskRecord, SupervisorState}
use localshell_web_superviso.Models.Observation.{
  BrowserObservation, NetworkObservation, LsmObservation, WorkspaceObservation,
}
use localshell_web_superviso.Watcher.Assess.{WatchPolicy, assess}
use localshell_web_superviso.Watcher.Truth.{HasLiveWork, IsOpen, live_work_runs}
use localshell_web_superviso.Recovery.Recommend.{recommend}
use localshell_web_superviso.Orchestration.Input.{
  Letters, DecisionKind, OrchestrationPolicy, TaskOrchestrationInput,
}
use localshell_web_superviso.Orchestration.Stages.{in_recovery}
use localshell_web_superviso.Orchestration.Evaluate.{evaluate_task}
use localshell_web_superviso.Orchestration.Decisions.{recommend_exactly, permits_state}

-- While an open task has tracked Local Shell work, in a session that is neither completed nor cancelled
-- and under a plan that is not blocked, the advice on its assessment is to observe.
pub live_work_observed :
    (task : TaskRecord) (browser : Option BrowserObservation) (l : LsmObservation)
    (workspace : Option WorkspaceObservation) (network : Option NetworkObservation) (now : ℕ)
    (policy : WatchPolicy)
    → IsOpen task
    → HasLiveWork l
    → (recommend task
        (assess task browser (some l) workspace network now policy)
        (some l)
        workspace).action
      ≡ "observe"
unfolding recommend
live_work_observed task browser l workspace network now policy (p, q) h =
    let (r, _) = live_work_runs task browser l workspace network now policy (p, q) h in
    rw (p, q, r) refl

running_idle : (s : SupervisorState) → s ≡ SupervisorState.running → in_recovery s ≡ true → ⊥
running_idle s e h = ground arith

-- While an open task has tracked Local Shell work, in a session that is neither completed nor cancelled
-- and under a plan that is not blocked, no input of the orchestration with its assessment is recommended
-- for a recovery action, whatever else the input holds.
pub live_work_unraced :
    (letters : Letters) (item : TaskOrchestrationInput) (now : ℕ) (policy : OrchestrationPolicy)
    (browser : Option BrowserObservation) (l : LsmObservation)
    (workspace : Option WorkspaceObservation) (network : Option NetworkObservation)
    (watch : WatchPolicy)
    → IsOpen item.task
    → HasLiveWork l
    → item.assessment ≡ assess item.task browser (some l) workspace network now watch
    → (evaluate_task letters item now policy).kind ≢ DecisionKind.recommend_action
live_work_unraced letters item now policy browser l workspace network watch o h e k =
    let (r, _) = live_work_runs item.task browser l workspace network now watch o h in
    let (permitted, _) = recommend_exactly letters item now policy in
    let s = permits_state letters item now policy (permitted k) in
    running_idle item.assessment.state (ap (λ a. a.state) e ∙ r) s

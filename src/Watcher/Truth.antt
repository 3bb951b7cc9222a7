-- ===== src/Watcher/Truth.antt =====
-- src/lws/watcher.py: what the durable evidence decides.
use localshell_web_superviso.Base.{
  ℕ, ◌<◌, true, false, Option, none, some, List, ◌≡◌, refl, ◌⊎◌, inl, inr, if_intro, arith, ◌++◌,
}
use localshell_web_superviso.Models.Task.{TaskRecord, SupervisorState, Assessment}
use localshell_web_superviso.Models.Observation.{
  BrowserObservation, NetworkObservation, LsmObservation, WorkspaceObservation,
}
use localshell_web_superviso.Watcher.Evidence.{
  Evidence, workspace_evidence, lsm_evidence, evidence_of,
}
use localshell_web_superviso.Watcher.Assess.{
  WatchPolicy, verdict, says, durable_verdict, lsm_verdict, is_completed, is_abandoned, assess,
}
use localshell_web_superviso.Watcher.Caution.{
  IsLive, Decides, or_else_intro, assess_liveness-IsLive,
}

-- Local Shell work that is still tracked, in a session that is neither completed nor cancelled and under a
-- plan that is not blocked.
abbrev pub HasLiveWork : LsmObservation → Type 0
HasLiveWork l =
    (says l.session_status "completed" ≡ false)
    × (says l.session_status "cancelled" ≡ false)
    × (says l.plan_status "blocked" ≡ false)
    × ((0 < l.in_flight_calls) ⊎ (0 < l.active_jobs))

-- A task that is neither completed nor abandoned.
abbrev pub IsOpen : TaskRecord → Type 0
IsOpen task = (is_completed task.state ≡ false) × (is_abandoned task.state ≡ false)

durable_running :
    (l : LsmObservation) (evidence : List Evidence)
    → HasLiveWork l
    → durable_verdict l evidence
      ≡ some (
          verdict SupervisorState.running
            "durable Local Shell work is still active; UI state cannot override it" "high" evidence
            false)
unfolding durable_verdict
durable_running l evidence (a, b, c, inl d) = ground arith
durable_running l evidence (a, b, c, inr d) = ground arith

-- While an open task has such work, the task is running and needs no reconciliation, whatever the browser, the network sample, the
-- workspace, the clock and the policy say.
pub live_work_runs :
    (task : TaskRecord) (browser : Option BrowserObservation) (l : LsmObservation)
    (workspace : Option WorkspaceObservation) (network : Option NetworkObservation) (now : ℕ)
    (policy : WatchPolicy)
    → IsOpen task
    → HasLiveWork l
    → ((assess task browser (some l) workspace network now policy).state ≡ SupervisorState.running)
      × ((assess task browser (some l) workspace network now policy).requires_reconcile ≡ false)
unfolding assess lsm_verdict
live_work_runs task browser l workspace network now policy (p, q) h =
    let d =
      durable_running l (evidence_of workspace (workspace_evidence task) ++ lsm_evidence l) h in
    rw (p, q, d) (refl, refl)

-- What counts as durable evidence of completion.
abbrev pub ShowsCompletion : Option LsmObservation → Type 0
ShowsCompletion none = ⊥
ShowsCompletion (some l) =
    (says l.session_status "completed" ≡ true)
    ⊎ ((says l.plan_status "completed" ≡ true) × (l.in_flight_calls ≡ 0) × (l.active_jobs ≡ 0))

-- a completion has the cause `P`
CompletedOnlyIf : Type 0 → Assessment Evidence → Type 0
CompletedOnlyIf P a = is_completed a.state ≡ true → P

completed_intro : (P : Type 0) (a : Assessment Evidence) → P → CompletedOnlyIf P a
unfolding CompletedOnlyIf
completed_intro P a p h = p

uncompleted_intro :
    (P : Type 0) (a : Assessment Evidence) → is_completed a.state ≡ false → CompletedOnlyIf P a
unfolding CompletedOnlyIf
uncompleted_intro P a p h = cc

lsm_completed :
    (Q : Type 0) (o : Option LsmObservation) (evidence : List Evidence)
    → Decides (CompletedOnlyIf (Q ⊎ ShowsCompletion o)) (lsm_verdict o evidence)
unfolding lsm_verdict durable_verdict CompletedOnlyIf Decides
lsm_completed Q none evidence = tt
lsm_completed Q (some l) evidence = ground arith

live_completed : (P : Type 0) (a : Assessment Evidence) → IsLive a → CompletedOnlyIf P a
unfolding IsLive
live_completed P a (p, q) = uncompleted_intro P a q

assess_completed :
    (task : TaskRecord) (browser : Option BrowserObservation) (lsm : Option LsmObservation)
    (workspace : Option WorkspaceObservation) (network : Option NetworkObservation) (now : ℕ)
    (policy : WatchPolicy)
    → CompletedOnlyIf
        ((is_completed task.state ≡ true) ⊎ ShowsCompletion lsm)
        (assess task browser lsm workspace network now policy)
unfolding assess
assess_completed task browser lsm workspace network now policy =
    let P = (is_completed task.state ≡ true) ⊎ ShowsCompletion lsm in
    if_intro (CompletedOnlyIf P) (is_completed task.state) _ _ (λ h. completed_intro P _ (inl h))
      (λ _.
        if_intro (CompletedOnlyIf P) (is_abandoned task.state) _ _ (λ _. uncompleted_intro P _ refl)
          (λ _. or_else_intro (CompletedOnlyIf P) _ _ (lsm_completed _ lsm _) (
            live_completed P _
              (assess_liveness-IsLive task browser lsm workspace network now policy _))))

-- An assessment says completed only if the task is completed already, or a durable observation
-- shows a completed session or a completed plan without tracked work: never from the browser.
pub completion_durable :
    (task : TaskRecord) (browser : Option BrowserObservation) (lsm : Option LsmObservation)
    (workspace : Option WorkspaceObservation) (network : Option NetworkObservation) (now : ℕ)
    (policy : WatchPolicy)
    → is_completed (assess task browser lsm workspace network now policy).state ≡ true
    → (is_completed task.state ≡ true) ⊎ ShowsCompletion lsm
unfolding CompletedOnlyIf
completion_durable = assess_completed

-- ===== src/Watcher/Caution.antt =====
-- src/lws/watcher.py: which verdicts ask for a reconciliation.
use localshell_web_superviso.Base.{
  ℕ, Bool, true, false, Option, none, some, List, ◌≡◌, refl, if_intro, arith,
}
use localshell_web_superviso.Models.Task.{TaskRecord, SupervisorState, Assessment}
use localshell_web_superviso.Models.Observation.{
  BrowserObservation, NetworkObservation, LsmObservation, WorkspaceObservation,
}
use localshell_web_superviso.Watcher.Evidence.{Evidence}
use localshell_web_superviso.Watcher.Assess.{
  WatchPolicy, or_else, durable_verdict, lsm_verdict, continuation_verdict, stall_verdict,
  quiet_verdict, not_started, cwd_missing, shows_error, contradictory, dom_silence, assess_liveness,
  is_completed, is_abandoned, assess,
}

-- The states that ask for a reconciliation before anything else happens.
abbrev pub needs_reconcile : SupervisorState → Bool
needs_reconcile SupervisorState.needs_human = true
needs_reconcile SupervisorState.reconciling = true
needs_reconcile SupervisorState.suspect = true
needs_reconcile _ = false

pub IsCautious : Assessment Evidence → Type 0
IsCautious a = (a.requires_reconcile ≡ needs_reconcile a.state) × (a.may_auto_continue ≡ false)

-- cautious, and no completion either
unfoldable pub IsLive : Assessment Evidence → Type 0
IsLive a = IsCautious a × (is_completed a.state ≡ false)

IsLive-intro :
    (a : Assessment Evidence)
    → a.requires_reconcile ≡ needs_reconcile a.state
    → a.may_auto_continue ≡ false
    → is_completed a.state ≡ false
    → IsLive a
unfolding IsLive IsCautious
IsLive-intro a p q r = ((p, q), r)

-- The property of a verdict that is there.
unfoldable pub Decides : (Assessment Evidence → Type 0) → Option (Assessment Evidence) → Type 0
Decides P none = Unit
Decides P (some a) = P a

pub or_else_intro :
    (P : Assessment Evidence → Type 0) (o : Option (Assessment Evidence))
    (rest : Assessment Evidence)
    → Decides P o
    → P rest
    → P (or_else o rest)
unfolding Decides
or_else_intro P none rest p q = q
or_else_intro P (some a) rest p q = p

continuation_verdict-IsLive :
    (lsm : Option LsmObservation) (network : Option ℕ) (evidence : List Evidence)
    (policy : WatchPolicy)
    → Decides IsLive (continuation_verdict lsm network evidence policy)
unfolding continuation_verdict Decides IsLive IsCautious
continuation_verdict-IsLive lsm network evidence policy = ground arith

stall_verdict-IsLive :
    (dom network lsm : Option ℕ) (evidence : List Evidence) (policy : WatchPolicy)
    → Decides IsLive (stall_verdict dom network lsm evidence policy)
unfolding stall_verdict Decides IsLive IsCautious
stall_verdict-IsLive dom network lsm evidence policy = ground arith

not_started-live :
    (s : SupervisorState)
    → not_started s ≡ true
    → (false ≡ needs_reconcile s) × (is_completed s ≡ false)
not_started-live s h = ground arith

quiet_verdict-IsLive :
    (task : TaskRecord) (browser : Option BrowserObservation) (lsm : Option LsmObservation)
    (evidence : List Evidence)
    → IsLive (quiet_verdict task browser lsm evidence)
unfolding quiet_verdict IsLive IsCautious
quiet_verdict-IsLive task browser lsm evidence = ground (arith, not_started-live task.state)

pub assess_liveness-IsLive :
    (task : TaskRecord) (browser : Option BrowserObservation) (lsm : Option LsmObservation)
    (workspace : Option WorkspaceObservation) (network : Option NetworkObservation) (now : ℕ)
    (policy : WatchPolicy) (before : List Evidence)
    → IsLive (assess_liveness task browser lsm workspace network now policy before)
unfolding assess_liveness
assess_liveness-IsLive task browser lsm workspace network now policy before =
    if_intro IsLive (cwd_missing workspace) _ _ (λ _. IsLive-intro _ refl refl refl)
      (λ _.
        if_intro IsLive (shows_error browser) _ _ (λ _. IsLive-intro _ refl refl refl)
          (λ _.
            if_intro IsLive (contradictory browser (dom_silence now browser) policy) _ _
              (λ _. IsLive-intro _ refl refl refl)
              (λ _. or_else_intro IsLive _ _ (continuation_verdict-IsLive lsm _ _ policy) (
                or_else_intro IsLive _ _ (stall_verdict-IsLive _ _ _ _ policy)
                  (quiet_verdict-IsLive task browser lsm _)))))

durable_verdict-IsCautious :
    (o : Option LsmObservation) (evidence : List Evidence)
    → Decides IsCautious (lsm_verdict o evidence)
unfolding durable_verdict lsm_verdict IsCautious Decides
durable_verdict-IsCautious none evidence = tt
durable_verdict-IsCautious (some l) evidence = ground arith

IsCautious-intro :
    (a : Assessment Evidence)
    → a.requires_reconcile ≡ needs_reconcile a.state
    → a.may_auto_continue ≡ false
    → IsCautious a
unfolding IsCautious
IsCautious-intro a p q = (p, q)

live-IsCautious : (a : Assessment Evidence) → IsLive a → IsCautious a
unfolding IsLive
live-IsCautious a (p, q) = p

-- Every verdict asks for a reconciliation exactly when its state is needs_human, reconciling or
-- suspect, and none lets the supervisor continue the task by itself.
pub assess-IsCautious :
    (task : TaskRecord) (browser : Option BrowserObservation) (lsm : Option LsmObservation)
    (workspace : Option WorkspaceObservation) (network : Option NetworkObservation) (now : ℕ)
    (policy : WatchPolicy)
    → IsCautious (assess task browser lsm workspace network now policy)
unfolding assess
assess-IsCautious task browser lsm workspace network now policy =
    if_intro IsCautious (is_completed task.state) _ _ (λ _. IsCautious-intro _ refl refl)
      (λ _.
        if_intro IsCautious (is_abandoned task.state) _ _ (λ _. IsCautious-intro _ refl refl)
          (λ _. or_else_intro IsCautious _ _ (durable_verdict-IsCautious lsm _) (
            live-IsCautious _
              (assess_liveness-IsLive task browser lsm workspace network now policy _))))

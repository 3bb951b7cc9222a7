-- ===== src/Watcher/Assess.antt =====
-- src/lws/watcher.py, `assess`, in the order of its early returns.
use localshell_web_superviso.Base.{
  ℕ, Bool, true, false, not, ◌&&◌, ◌||◌, Option, none, some, is_some, String, List, [], ◌++◌, ◌==◌,
  ltb, leb, eqb, min, if◌then◌else◌,
}
use localshell_web_superviso.Models.Task.{TaskRecord, SupervisorState, Assessment}
use localshell_web_superviso.Models.Observation.{
  BrowserObservation, NetworkObservation, LsmObservation, WorkspaceObservation,
}
use localshell_web_superviso.Watcher.Evidence.{
  Evidence, truthy, silence, workspace_evidence, lsm_evidence, browser_evidence, network_evidence,
  silence_evidence, evidence_of,
}

-- in milliseconds
pub record WatchPolicy : Type 0 where
  pub browser_suspect_after : ℕ
  pub network_suspect_after : ℕ
  pub lsm_suspect_after : ℕ
  pub hard_stall_after : ℕ

abbrev pub default_policy : WatchPolicy
default_policy = record {
  browser_suspect_after = 120000;
  network_suspect_after = 180000;
  lsm_suspect_after = 180000;
  hard_stall_after = 600000;
}

abbrev pub verdict : SupervisorState → String → String → List Evidence → Bool → Assessment Evidence
verdict state reason confidence evidence requires_reconcile = record {
  state = state;
  reason = reason;
  confidence = confidence;
  evidence = evidence;
  requires_reconcile = requires_reconcile;
  may_auto_continue = false;
}

-- an early return, or the rest of the function
abbrev pub or_else : Option (Assessment Evidence) → Assessment Evidence → Assessment Evidence
or_else none rest = rest
or_else (some a) rest = a

-- `status == text`
abbrev pub says : Option String → String → Bool
says none text = false
says (some s) text = s == text

-- `value is True`, and the truth of an optional flag
abbrev pub is_true : Option Bool → Bool
is_true none = false
is_true (some b) = b

-- a durable session or plan that decides the state
unfoldable pub durable_verdict : LsmObservation → List Evidence → Option (Assessment Evidence)
durable_verdict l evidence =
    if says l.session_status "completed"
    then some
        (verdict SupervisorState.completed "durable LSM session is completed" "high" evidence false)
    else if says l.session_status "cancelled"
    then some
        (verdict SupervisorState.abandoned "durable LSM session is cancelled" "high" evidence false)
    else if says l.plan_status "blocked"
    then some (verdict SupervisorState.blocked "durable Goal plan is blocked" "high" evidence false)
    else if says l.plan_status "completed" && eqb l.in_flight_calls 0 && eqb l.active_jobs 0
    then some (
        verdict SupervisorState.completed "durable Goal plan completed with no tracked active work"
          "high" evidence false)
    else if ltb 0 l.in_flight_calls || ltb 0 l.active_jobs
    then some (
        verdict SupervisorState.running
          "durable Local Shell work is still active; UI state cannot override it" "high" evidence
          false)
    else none

unfoldable pub lsm_verdict : Option LsmObservation → List Evidence → Option (Assessment Evidence)
unfolding durable_verdict
lsm_verdict none evidence = none
lsm_verdict (some l) evidence = durable_verdict l evidence

-- a registered directory that is gone
abbrev pub cwd_missing : Option WorkspaceObservation → Bool
cwd_missing none = false
cwd_missing (some w) = not w.cwd_exists

abbrev pub dom_silence : ℕ → Option BrowserObservation → Option ℕ
dom_silence now none = none
dom_silence now (some b) = silence now b.last_dom_change_at

abbrev pub quiet_time : ℕ → Option NetworkObservation → Option ℕ
quiet_time now none = none
quiet_time now (some n) = silence now n.quiet_since_at

abbrev pub event_silence : ℕ → Option LsmObservation → Option ℕ
event_silence now none = none
event_silence now (some l) = silence now l.recent_event_at

abbrev pub shows_error : Option BrowserObservation → Bool
shows_error none = false
shows_error (some b) = is_some (truthy b.visible_error)

-- `pending_tool_calls or 0`
abbrev pub pending_calls : Option ℕ → ℕ
pending_calls none = 0
pending_calls (some n) = n

-- a silence of at least `limit`
abbrev pub at_least : Option ℕ → ℕ → Bool
at_least none limit = false
at_least (some t) limit = leb limit t

-- the composer is ready while a tool call still shows as pending
unfoldable pub contradictory : Option BrowserObservation → Option ℕ → WatchPolicy → Bool
contradictory none dom policy = false
contradictory (some b) dom policy =
    is_true b.send_button_ready
    && ltb 0 (pending_calls b.pending_tool_calls)
    && (not (is_some dom) || at_least dom policy.browser_suspect_after)

abbrev pub plan_active : Option LsmObservation → Bool
plan_active none = false
plan_active (some l) = says l.plan_status "active"

abbrev pub continuation_pending : Option LsmObservation → Bool
continuation_pending none = false
continuation_pending (some l) = is_true l.continuation_pending

abbrev pub continuation_due : Option LsmObservation → Bool
continuation_due none = false
continuation_due (some l) = is_true l.continuation_due

abbrev pub is_generating : Option BrowserObservation → Bool
is_generating none = false
is_generating (some b) = is_true b.generating

-- a continuation that is pending, or a plan lease that has run out
unfoldable pub continuation_verdict :
    Option LsmObservation → Option ℕ → List Evidence → WatchPolicy → Option (Assessment Evidence)
continuation_verdict lsm network evidence policy =
    if plan_active lsm && continuation_pending lsm
    then some (
        verdict SupervisorState.running
          "LSM continuation is already pending; supervisor must not compete with it" "high" evidence
          false)
    else if plan_active lsm && continuation_due lsm
    then some (
        if is_some network && not (at_least network policy.network_suspect_after)
        then verdict SupervisorState.reconciling
            "Goal lease is due but network lifecycle activity is recent; evidence conflicts, so do not race the worker"
            "medium" evidence true
        else verdict SupervisorState.suspect
            "Goal plan execution lease expired with no durable work in flight" "high" evidence true)
    else none

-- `min(value for value in silences if value is not None) >= limit`, over the DOM, the Local Shell
-- and, where it was sampled, the network
abbrev pub all_at_least : Option ℕ → Option ℕ → Option ℕ → ℕ → Bool
all_at_least (some d) (some l) none limit = leb limit (min d l)
all_at_least (some d) (some l) (some n) limit = leb limit (min (min d l) n)
all_at_least _ _ _ limit = false

-- the browser and the Local Shell have both been silent for too long
unfoldable pub stall_verdict :
    Option ℕ → Option ℕ → Option ℕ → List Evidence → WatchPolicy → Option (Assessment Evidence)
stall_verdict dom network lsm evidence policy =
    if at_least dom policy.browser_suspect_after && at_least lsm policy.lsm_suspect_after
    then some (
        if is_some network && not (at_least network policy.network_suspect_after)
        then verdict SupervisorState.reconciling
            "DOM and LSM are silent but network lifecycle activity is recent; reconcile conflicting evidence before recovery"
            "medium" evidence true
        else verdict SupervisorState.suspect
            (if is_some network
              then "browser DOM, network lifecycle, and durable LSM activity are silent"
              else "both browser DOM and durable LSM activity are silent")
            (if all_at_least dom lsm network policy.hard_stall_after then "high" else "medium")
            evidence true)
    else none

abbrev pub not_started : SupervisorState → Bool
not_started SupervisorState.queued = true
not_started SupervisorState.starting = true
not_started _ = false

-- no sign of a stall
unfoldable pub quiet_verdict :
    TaskRecord
    → Option BrowserObservation
    → Option LsmObservation
    → List Evidence
    → Assessment Evidence
quiet_verdict task browser lsm evidence =
    if is_generating browser
    then verdict SupervisorState.running "browser reports active generation" "medium" evidence false
    else if plan_active lsm
    then verdict SupervisorState.running
        "Goal plan remains active and no stall threshold has been crossed" "medium" evidence false
    else if not_started task.state
    then verdict task.state "no contradictory runtime evidence" "medium" evidence false
    else verdict SupervisorState.suspect
        "insufficient fresh evidence to prove progress or completion" "low" evidence true

-- the part of `assess` after the durable evidence
unfoldable pub assess_liveness :
    TaskRecord
    → Option BrowserObservation
    → Option LsmObservation
    → Option WorkspaceObservation
    → Option NetworkObservation
    → ℕ
    → WatchPolicy
    → List Evidence
    → Assessment Evidence
assess_liveness task browser lsm workspace network now policy before =
    if cwd_missing workspace
    then verdict SupervisorState.needs_human "registered working directory no longer exists" "high"
        before true
    else (let evidence =
          before
          ++ (evidence_of browser (browser_evidence now)
              ++ (evidence_of network (network_evidence now)
                  ++ evidence_of lsm (silence_evidence now))) in
        let dom = dom_silence now browser in
        let quiet = quiet_time now network in
        if shows_error browser
        then verdict SupervisorState.reconciling
            "web chat reports an error; reconcile durable LSM/workspace state before any retry"
            "high" evidence true
        else if contradictory browser dom policy
        then verdict SupervisorState.reconciling
            "composer is ready while a tool call still appears pending; delivery lifecycle is contradictory"
            "high" evidence true
        else or_else (continuation_verdict lsm quiet evidence policy) (
            or_else (stall_verdict dom quiet (event_silence now lsm) evidence policy)
              (quiet_verdict task browser lsm evidence)))

abbrev pub is_completed : SupervisorState → Bool
is_completed SupervisorState.completed = true
is_completed _ = false

abbrev pub is_abandoned : SupervisorState → Bool
is_abandoned SupervisorState.abandoned = true
is_abandoned _ = false

unfoldable pub assess :
    TaskRecord
    → Option BrowserObservation
    → Option LsmObservation
    → Option WorkspaceObservation
    → Option NetworkObservation
    → ℕ
    → WatchPolicy
    → Assessment Evidence
assess task browser lsm workspace network now policy =
    if is_completed task.state
    then verdict SupervisorState.completed "task is already durably completed" "high" [] false
    else if is_abandoned task.state
    then verdict SupervisorState.abandoned "task was explicitly abandoned" "high" [] false
    else (let evidence =
          evidence_of workspace (workspace_evidence task) ++ evidence_of lsm lsm_evidence in
        or_else (lsm_verdict lsm evidence)
          (assess_liveness task browser lsm workspace network now policy evidence))

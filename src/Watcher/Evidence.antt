-- ===== src/Watcher/Evidence.antt =====
-- src/lws/watcher.py, the evidence lines of an assessment, kept as the values that they print.
use localshell_web_superviso.Base.{
  ℕ, ◌-◌, Bool, Option, none, some, String, List, [], ◌∷◌, ◌++◌, ◌==◌, take_text, if◌then◌else◌,
  eqb,
}
use localshell_web_superviso.Models.Task.{TaskRecord, checkpoint_get}
use localshell_web_superviso.Models.Observation.{
  BrowserObservation, NetworkObservation, LsmObservation, WorkspaceObservation,
}

pub data Evidence : Type 0 where
  workspace_cwd_exists workspace_git_repo workspace_git_dirty checkpoint_head_match :
      Bool → Evidence
  workspace_git_head workspace_error lsm_session lsm_plan browser_error : String → Evidence
  lsm_in_flight lsm_active_jobs lsm_failed_jobs browser_observation_age browser_dom_silence
        browser_pending_tool_calls network_observation_age network_silence network_sample_events
        network_loading_failed lsm_event_silence :
      ℕ → Evidence

-- the text of a value that is neither `None` nor empty
abbrev pub truthy : Option String → Option String
truthy none = none
truthy (some t) = if t == "" then none else some t

-- `x or default`
abbrev pub or_text : Option String → String → String
or_text o default = elim (truthy o) [ none ↦ default | some t ↦ t ]

-- the line for a value that is there
abbrev pub line_of {ℓ} : {A : Type ℓ} → Option A → (A → Evidence) → List Evidence
line_of none f = []
line_of (some a) f = f a ∷ []

-- the line for a count that is not 0
abbrev pub line_of_count : ℕ → (ℕ → Evidence) → List Evidence
line_of_count n f = if eqb n 0 then [] else f n ∷ []

unfoldable pub workspace_evidence : TaskRecord → WorkspaceObservation → List Evidence
workspace_evidence task w =
    workspace_cwd_exists w.cwd_exists
    ∷ (line_of w.is_git_repo workspace_git_repo
        ++ (line_of (truthy w.git_head) (λ h. workspace_git_head (take_text 12 h))
            ++ (line_of w.git_dirty workspace_git_dirty
                ++ (line_of (truthy w.error) (λ e. workspace_error (take_text 160 e))
                    ++ elim (truthy (checkpoint_get task.checkpoint "git_head")) [
                      | none ↦ []
                      | some head ↦
                          line_of (truthy w.git_head) (λ h. checkpoint_head_match (head == h))
                    ]))))

unfoldable pub lsm_evidence : LsmObservation → List Evidence
lsm_evidence l =
    lsm_session (or_text l.session_status "unknown")
    ∷ lsm_plan (or_text l.plan_status "none")
    ∷ (line_of_count l.in_flight_calls lsm_in_flight
        ++ (line_of_count l.active_jobs lsm_active_jobs
            ++ line_of_count l.failed_jobs lsm_failed_jobs))

-- `max(0.0, now - t)`, where there is a `t`
abbrev pub silence : ℕ → Option ℕ → Option ℕ
silence now none = none
silence now (some t) = some (now - t)

unfoldable pub browser_evidence : ℕ → BrowserObservation → List Evidence
browser_evidence now b =
    browser_observation_age (now - b.observed_at)
    ∷ (line_of (silence now b.last_dom_change_at) browser_dom_silence
        ++ (line_of (truthy b.visible_error) (λ e. browser_error (take_text 120 e))
            ++ line_of b.pending_tool_calls browser_pending_tool_calls))

unfoldable pub network_evidence : ℕ → NetworkObservation → List Evidence
network_evidence now n =
    network_observation_age (now - n.observed_at)
    ∷ (line_of (silence now n.quiet_since_at) network_silence
        ++ (network_sample_events n.event_count
            ∷ line_of_count n.loading_failed network_loading_failed))

unfoldable pub silence_evidence : ℕ → LsmObservation → List Evidence
silence_evidence now l = line_of (silence now l.recent_event_at) lsm_event_silence

-- the evidence of an observation that is there
abbrev pub evidence_of {ℓ} : {A : Type ℓ} → Option A → (A → List Evidence) → List Evidence
evidence_of none f = []
evidence_of (some a) f = f a

-- ===== src/Recovery/Recommend.antt =====
-- src/lws/recovery.py, `recommend`: the prompt is kept as the values that fill its template.
use localshell_web_superviso.Base.{
  Bool, true, false, ◌||◌, Option, none, some, String, List, [], ◌∷◌, ◌++◌, ltb, leb, if◌then◌else◌,
}
use localshell_web_superviso.Models.Task.{TaskRecord, SupervisorState, Assessment}
use localshell_web_superviso.Models.Observation.{LsmObservation, WorkspaceObservation}
use localshell_web_superviso.Watcher.Evidence.{Evidence, truthy}
use localshell_web_superviso.Watcher.Assess.{is_true, is_completed, is_abandoned}

-- the parts of the workspace line
pub data WorkspacePart : Type 0 where
  unavailable : WorkspacePart
  cwd_exists git_repo git_dirty : Bool → WorkspacePart
  git_head git_status_hash error : String → WorkspacePart

abbrev part_of {ℓ} : {A : Type ℓ} → Option A → (A → WorkspacePart) → List WorkspacePart
part_of none f = []
part_of (some a) f = f a ∷ []

unfoldable pub workspace_summary : Option WorkspaceObservation → List WorkspacePart
workspace_summary none = unavailable ∷ []
workspace_summary (some w) =
    cwd_exists w.cwd_exists
    ∷ (part_of w.is_git_repo git_repo
        ++ (part_of (truthy w.git_head) git_head
            ++ (part_of w.git_dirty git_dirty
                ++ (part_of (truthy w.git_status_hash) git_status_hash
                    ++ part_of (truthy w.error) error))))

pub record RecoveryPrompt : Type 0 where
  pub task_id : String
  pub session_id : String
  pub cwd : String
  pub checkpoint : List (String × String)
  pub workspace : List WorkspacePart

pub record RecoveryRecommendation : Type 0 where
  pub task_id : String
  pub action : String
  pub safe_to_dispatch : Bool
  pub reason : String
  pub prompt : Option RecoveryPrompt
  pub evidence : List Evidence

abbrev pub advice :
    TaskRecord → String → String → Option RecoveryPrompt → List Evidence → RecoveryRecommendation
advice task action reason prompt evidence = record {
  task_id = task.task_id;
  action = action;
  safe_to_dispatch = false;
  reason = reason;
  prompt = prompt;
  evidence = evidence;
}

abbrev pub needs_human : SupervisorState → Bool
needs_human SupervisorState.needs_human = true
needs_human _ = false

abbrev pub is_blocked : SupervisorState → Bool
is_blocked SupervisorState.blocked = true
is_blocked _ = false

abbrev pub appears_active : SupervisorState → Bool
appears_active SupervisorState.running = true
appears_active SupervisorState.starting = true
appears_active SupervisorState.recovering = true
appears_active _ = false

unfoldable pub recovery_prompt : TaskRecord → String → Option WorkspaceObservation → RecoveryPrompt
recovery_prompt task session_id workspace = record {
  task_id = task.task_id;
  session_id = session_id;
  cwd = task.cwd;
  checkpoint = task.checkpoint;
  workspace = workspace_summary workspace;
}

-- `in_flight_calls > 0 or active_jobs > 0 or continuation_pending`
abbrev pub durable_work : LsmObservation → Bool
durable_work l = ltb 0 l.in_flight_calls || (ltb 0 l.active_jobs || is_true l.continuation_pending)

-- the end of `recommend`, for a task that has a session and an observation of it
abbrev recommend_continue :
    TaskRecord
    → List Evidence
    → Option WorkspaceObservation
    → Option String
    → Option LsmObservation
    → RecoveryRecommendation
recommend_continue task evidence workspace (some session_id) (some l) =
    if durable_work l
    then advice task "observe"
        "durable LSM work/continuation is active; takeover or continue is unsafe" none evidence
    else advice task "reconcile_then_continue"
        "candidate for a new web chat turn after explicit reconciliation; V0 does not auto-dispatch"
        (some (recovery_prompt task session_id workspace)) evidence
recommend_continue task evidence workspace _ _ =
    advice task "human_decision"
      "no durable LSM session observation is available for reconciliation" none evidence

unfoldable pub recommend :
    TaskRecord
    → Assessment Evidence
    → Option LsmObservation
    → Option WorkspaceObservation
    → RecoveryRecommendation
recommend task assessment lsm workspace =
    let evidence = assessment.evidence in
    if is_completed task.state
    then advice task "none" "task is durably complete" none evidence
    else if is_abandoned task.state
    then advice task "none" "task was abandoned/cancelled" none evidence
    else if is_completed assessment.state
    then advice task "none" "task is durably complete" none evidence
    else if is_abandoned assessment.state
    then advice task "none" "task was abandoned/cancelled" none evidence
    else if needs_human assessment.state
    then advice task "human_decision" "task requires a human decision before recovery" none evidence
    else if is_blocked assessment.state
    then advice task "human_decision"
        "Goal plan is blocked; automatic continuation would bypass an explicit blocker" none
        evidence
    else if appears_active assessment.state
    then advice task "observe" "work still appears active; do not compete with the current worker"
        none evidence
    else if leb task.max_recovery_attempts task.recovery_attempts
    then advice task "human_decision" "recovery-attempt budget exhausted" none evidence
    else recommend_continue task evidence workspace (truthy task.lsm_session_id) lsm

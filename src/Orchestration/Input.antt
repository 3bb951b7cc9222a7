-- ===== src/Orchestration/Input.antt =====
-- src/lws/orchestration.py, the records of the policy; src/lws/capabilities.py and src/lws/reconcile.py, the
-- comparisons that it calls. Python's `str.lower` and `str.casefold` are the fields of `Base.Letters`.
pub use localshell_web_superviso.Base.{Letters}
use localshell_web_superviso.Base.{
  rstrip_slash, ℕ, ◌-◌, ◌*◌, ◌^◌, Bool, true, false, ◌&&◌, Option, none, some, String, List, [],
  ◌∷◌, ◌++◌, ◌==◌, leb, eqb, min, max, if◌then◌else◌,
}
use Prim.Native.Char.{code}
use localshell_web_superviso.Models.Task.{
  TaskRecord, SupervisorState, Assessment, WorkerRecord, WorkerWindowBinding, PageCapabilityKind,
  PageCapabilityRecord, ReconciliationRecord, ProbeMutationState, capability_is_fresh,
}
use localshell_web_superviso.Models.Observation.{LsmObservation, WorkspaceObservation}
use localshell_web_superviso.Models.Mutation.{
  ProbeMutationOperation, ActionAttempt, ActionAttemptState,
}
use localshell_web_superviso.Watcher.Evidence.{Evidence}

pub data DecisionKind : Type 0 where
  observe reconcile recommend_action wait_cooldown blocked_human : DecisionKind

-- in milliseconds
pub record OrchestrationPolicy : Type 0 where
  pub max_lsm_observation_age : ℕ
  pub max_workspace_observation_age : ℕ
  pub max_reconciliation_age : ℕ
  pub min_reconciliation_separation : ℕ
  pub recovery_cooldown : ℕ
  pub base_backoff : ℕ
  pub max_backoff : ℕ
  pub max_selected_tasks : ℕ

abbrev pub default_policy : OrchestrationPolicy
default_policy = record {
  max_lsm_observation_age = 30000;
  max_workspace_observation_age = 30000;
  max_reconciliation_age = 120000;
  min_reconciliation_separation = 3000;
  recovery_cooldown = 60000;
  base_backoff = 5000;
  max_backoff = 60000;
  max_selected_tasks = 1;
}

pub record CapabilityContext : Type 0 where
  pub scope_host : String
  pub browser_family : String
  pub browser_major : ℕ
  pub platform : String
  pub surface : String

pub record TaskOrchestrationInput : Type 0 where
  pub task : TaskRecord
  pub assessment : Assessment Evidence
  pub worker : Option WorkerRecord
  pub lsm : Option LsmObservation
  pub workspace : Option WorkspaceObservation
  pub previous_reconciliation : Option ReconciliationRecord
  pub current_reconciliation : Option ReconciliationRecord
  pub unresolved_action : Option ActionAttempt
  pub unresolved_probe_mutation : Option ProbeMutationOperation
  pub worker_lease_expires_at : Option ℕ
  pub last_recovery_at : Option ℕ
  pub last_scheduled_at : Option ℕ
  pub consecutive_waits : ℕ
  pub requires_exact_window_binding : Bool
  pub window_binding : Option WorkerWindowBinding
  pub page_continuity_relevant : Bool
  pub page_capability : Option PageCapabilityRecord
  pub capability_context : Option CapabilityContext
  pub page_capability_kind : PageCapabilityKind
  pub reconcile_blockers : List String
  pub human_blockers : List String
  pub scheduling_history_known : Bool

-- the reasons, those with a value in the text as constructors of their own
pub data Reason : Type 0 where
  text : String → Reason
  task_state assessment_state : SupervisorState → Reason
  session_is_already : Option String → Reason
  slot_deferred : DecisionKind → Reason

pub data Blocker : Type 0 where
  blocker capability_check_failed : String → Blocker
  unresolved_probe : String → ProbeMutationState → Blocker
  unresolved_attempt : String → ActionAttemptState → Blocker

abbrev pub Checks : Type 0
Checks = List (String × Bool)

pub record OrchestrationDecision : Type 0 where
  pub task_id : String
  pub kind : DecisionKind
  pub reason : Reason
  pub selected : Bool
  pub retry_after : Option ℕ
  pub checks : Checks
  pub blockers : List Blocker
  pub deferred_kind : Option DecisionKind
  pub mutation_allowed : Bool

-- `_decision`
abbrev pub decision :
    TaskOrchestrationInput
    → DecisionKind
    → Reason
    → Checks
    → List Blocker
    → Option ℕ
    → OrchestrationDecision
decision item kind reason checks blockers retry_after = record {
  task_id = item.task.task_id;
  kind = kind;
  reason = reason;
  selected = false;
  retry_after = retry_after;
  checks = checks;
  blockers = blockers;
  deferred_kind = none;
  mutation_allowed = false;
}

-- `0.0 <= now - observed_at <= max(1.0, max_age)`
abbrev pub age_is_fresh : ℕ → ℕ → ℕ → Bool
age_is_fresh observed_at now max_age =
    leb observed_at now && leb (now - observed_at) (max 1000 max_age)

unfoldable pub bounded_backoff : OrchestrationPolicy → ℕ → ℕ
bounded_backoff policy consecutive_waits =
    let base = max 100 policy.base_backoff in
    let maximum = max base policy.max_backoff in min maximum (base * 2 ^ min 16 consecutive_waits)

-- equality of optional texts
abbrev pub same_text : Option String → Option String → Bool
same_text none none = true
same_text (some s) (some t) = s == t
same_text _ _ = false

-- `path.replace("\\", "/")`
forward_slashes : String → String
forward_slashes String.[] = ""
forward_slashes (String.◌∷◌ c s) =
    let rest = forward_slashes s in String.◌∷◌ (if eqb (code c) 92 then "/" else c) rest

unfoldable pub same_directory : Letters → String → String → Bool
unfolding forward_slashes rstrip_slash
same_directory letters a b =
    letters.casefold (rstrip_slash (forward_slashes a))
    == letters.casefold (rstrip_slash (forward_slashes b))

abbrev pub same_kind : PageCapabilityKind → PageCapabilityKind → Bool
same_kind PageCapabilityKind.generation PageCapabilityKind.generation = true
same_kind PageCapabilityKind.tool_execution PageCapabilityKind.tool_execution = true
same_kind _ _ = false

-- the name of a check that fails
abbrev pub failed : String → Bool → List String
failed name true = []
failed name false = name ∷ []

-- `capability_matches_context`, its list of blockers
unfoldable pub capability_blockers :
    Letters → PageCapabilityRecord → CapabilityContext → PageCapabilityKind → ℕ → List String
unfolding capability_is_fresh
capability_blockers letters c context expected_kind now =
    failed "kind" (same_kind c.kind expected_kind)
    ++ (failed "evaluator_version" (c.evaluator_version == "page-close-v2")
        ++ (failed "scope_host" (letters.lower c.scope_host == letters.lower context.scope_host)
            ++ (failed "browser_family"
                  (letters.lower c.browser_family == letters.lower context.browser_family)
                ++ (failed "browser_major" (eqb c.browser_major context.browser_major)
                    ++ (failed "platform"
                          (letters.lower c.platform == letters.lower context.platform)
                        ++ (failed "surface"
                              (letters.lower c.surface == letters.lower context.surface)
                            ++ failed "fresh" (capability_is_fresh c now)))))))

abbrev pub fence_matches : ReconciliationRecord → ReconciliationRecord → Bool
fence_matches a b =
    a.task_id == b.task_id
    && eqb a.fence_version b.fence_version
    && (a.fence_token == b.fence_token)

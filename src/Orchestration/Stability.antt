-- ===== src/Orchestration/Stability.antt =====
-- src/lws/orchestration.py: what the reconciliation stage of `evaluate_task` asks.
use localshell_web_superviso.Base.{
  ℕ, ◌+◌, ◌≤◌, Bool, true, false, not, ◌&&◌, Option, none, some, String, ◌==◌, eq_iff, ◌≡◌, ◌↔◌,
  refl, arith,
}
use localshell_web_superviso.Models.Task.{ReconciliationRecord}
use localshell_web_superviso.Orchestration.Input.{
  OrchestrationPolicy, TaskOrchestrationInput, Checks, age_is_fresh, fence_matches,
}
use localshell_web_superviso.Orchestration.Gates.{Guards, IsAdvisory, Anything}
use localshell_web_superviso.Orchestration.Stages.{in_recovery}
use localshell_web_superviso.Orchestration.Requirements.{IsRecent, same_text_iff}
use localshell_web_superviso.Orchestration.Samples.{
  sample_checks, samples_agree, samples_from, same_task, same_worker, both_eligible, separated,
}

and_iff :
    {a b : Bool} {P Q : Type 0} → ((a ≡ true) ↔ P) → ((b ≡ true) ↔ Q) → ((a && b) ≡ true) ↔ (P × Q)
and_iff {a = true} (f, g) (h, k) = (λ e. (f refl, h e), λ (p, q). k q)
and_iff {a = false} (f, g) (h, k) = (λ e. cc, λ (p, q). g p)

distinct_iff : (a b : String) → (not (a == b) ≡ true) ↔ ((a ≡ b) → ⊥)
distinct_iff a b = ground (arith, eq_iff a b)

age_is_fresh_iff :
    (t now max_age : ℕ) → (age_is_fresh t now max_age ≡ true) ↔ IsRecent t now max_age
age_is_fresh_iff t now max_age = ground arith

separated_iff :
    (previous current : ReconciliationRecord) (minimum : ℕ)
    → (separated previous current minimum ≡ true)
      ↔ (previous.created_at + minimum ≤ current.created_at)
separated_iff previous current minimum = ground arith

-- The samples have the same task, fence schema and fence token.
abbrev pub SameFence : ReconciliationRecord → ReconciliationRecord → Type 0
SameFence a b =
    (a.task_id ≡ b.task_id) × (a.fence_version ≡ b.fence_version) × (a.fence_token ≡ b.fence_token)

fence_matches_iff : (a b : ReconciliationRecord) → (fence_matches a b ≡ true) ↔ SameFence a b
fence_matches_iff a b =
    ground (arith, eq_iff a.task_id b.task_id, eq_iff a.fence_token b.fence_token)

-- Both samples ask for a recovery.
abbrev pub BothEligible : ReconciliationRecord → ReconciliationRecord → Type 0
BothEligible a b =
    (in_recovery a.state ≡ true)
    × (in_recovery b.state ≡ true)
    × (a.requires_reconcile ≡ true)
    × (b.requires_reconcile ≡ true)

both_eligible_iff : (a b : ReconciliationRecord) → (both_eligible a b ≡ true) ↔ BothEligible a b
both_eligible_iff a b = ground arith

module _ (item : TaskOrchestrationInput) (now : ℕ) (policy : OrchestrationPolicy) where
  -- Both samples are of the task, and of its current worker.
  abbrev pub OfTask : ReconciliationRecord → ReconciliationRecord → Type 0
  OfTask a b = (a.task_id ≡ item.task.task_id) × (b.task_id ≡ item.task.task_id)

  abbrev pub OfWorker : ReconciliationRecord → ReconciliationRecord → Type 0
  OfWorker a b =
      (b.current_worker_id ≡ item.task.current_worker_id)
      × (a.current_worker_id ≡ item.task.current_worker_id)

  same_task_iff :
      (backoff : ℕ) (a b : ReconciliationRecord)
      → (same_task item now policy backoff a b ≡ true) ↔ OfTask a b
  same_task_iff backoff a b =
      ground (arith, eq_iff a.task_id item.task.task_id, eq_iff b.task_id item.task.task_id)

  same_worker_iff :
      (backoff : ℕ) (a b : ReconciliationRecord)
      → (same_worker item now policy backoff a b ≡ true) ↔ OfWorker a b
  same_worker_iff backoff a b = ground (
    arith,
    same_text_iff a.current_worker_id item.task.current_worker_id,
    same_text_iff b.current_worker_id item.task.current_worker_id,
  )

  -- Two recent samples, far enough apart, of one task, worker and world, both asking for recovery.
  pub IsStable : ReconciliationRecord → ReconciliationRecord → Type 0
  IsStable previous current =
      ((previous.reconcile_id ≡ current.reconcile_id) → ⊥)
      × (IsRecent previous.created_at now policy.max_reconciliation_age
          × (IsRecent current.created_at now policy.max_reconciliation_age
              × ((previous.created_at + policy.min_reconciliation_separation ≤ current.created_at)
                  × (SameFence previous current
                      × (OfTask previous current
                          × (OfWorker previous current × BothEligible previous current))))))

  samples_agree_iff :
      (backoff : ℕ) (previous current : ReconciliationRecord)
      → (samples_agree item now policy backoff previous current ≡ true) ↔ IsStable previous current
  unfolding samples_agree IsStable
  samples_agree_iff backoff previous current =
      and_iff (distinct_iff previous.reconcile_id current.reconcile_id) (
        and_iff (age_is_fresh_iff previous.created_at now policy.max_reconciliation_age) (
          and_iff (age_is_fresh_iff current.created_at now policy.max_reconciliation_age) (
            and_iff (separated_iff previous current policy.min_reconciliation_separation) (
              and_iff (fence_matches_iff previous current) (
                and_iff (same_task_iff backoff previous current) (
                  and_iff (same_worker_iff backoff previous current)
                    (both_eligible_iff previous current)))))))

  sample_checks-Guards :
      (backoff : ℕ) (previous current : ReconciliationRecord) (c : Checks)
      → Guards item
          (IsStable previous current)
          Anything
          (sample_checks item now policy backoff c previous current)
  unfolding sample_checks Guards IsAdvisory
  sample_checks-Guards backoff previous current c =
      ground (arith, samples_agree_iff backoff previous current)

  -- Both samples are there, and stable.
  abbrev pub SamplesStable : Option ReconciliationRecord → Option ReconciliationRecord → Type 0
  SamplesStable (some previous) (some current) = IsStable previous current
  SamplesStable _ _ = ⊥

  pub reconciliation_stage-Guards :
      (backoff : ℕ) (o p : Option ReconciliationRecord) (c : Checks)
      → Guards item (SamplesStable o p) Anything (samples_from item now policy backoff o p c)
  unfolding Guards IsAdvisory
  reconciliation_stage-Guards backoff none p c = ground arith
  reconciliation_stage-Guards backoff (some a) none c = ground arith
  reconciliation_stage-Guards backoff (some a) (some b) c = sample_checks-Guards backoff a b c

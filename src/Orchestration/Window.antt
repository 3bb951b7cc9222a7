-- ===== src/Orchestration/Window.antt =====
-- src/lws/orchestration.py: what the window and capability stages of `evaluate_task` ask.
use localshell_web_superviso.Base.{
  ℕ, ◌≤◌, ◌<◌, Bool, true, false, ◌&&◌, Option, none, some, String, List, ◌++◌, eq_iff, is_empty,
  ◌≡◌, ◌↔◌, refl, arith,
}
use localshell_web_superviso.Models.Task.{
  WorkerRecord, WorkerWindowBinding, PageCapabilityKind, PageCapabilityRecord, binding_is_fresh,
  capability_is_fresh,
}
use localshell_web_superviso.Orchestration.Input.{
  Letters, OrchestrationPolicy, TaskOrchestrationInput, CapabilityContext, Checks,
  capability_blockers, same_kind, failed,
}
use localshell_web_superviso.Orchestration.Gates.{Guards, IsAdvisory, Anything, When, when-Guards}
use localshell_web_superviso.Orchestration.Samples.{
  binding_from, binding_stage, capability_from, capability_stage,
}

-- The window is bound to the worker and its conversation, and the binding holds now.
abbrev pub IsBound : ℕ → WorkerRecord → Option WorkerWindowBinding → Type 0
IsBound now w none = ⊥
IsBound now w (some b) =
    (b.worker_id ≡ w.worker_id)
    × (b.conversation_url ≡ w.conversation_url)
    × (b.bound_at ≤ b.observed_at)
    × (b.observed_at ≤ now)
    × (now < b.expires_at)

module _ (item : TaskOrchestrationInput) (now : ℕ) (policy : OrchestrationPolicy) where
  pub binding_from-Guards :
      (backoff : ℕ) (o : Option WorkerWindowBinding) (w : WorkerRecord) (c : Checks)
      → Guards item (IsBound now w o) Anything (binding_from item now policy backoff o w c)
  unfolding Guards IsAdvisory binding_is_fresh
  binding_from-Guards backoff none w c = ground arith
  binding_from-Guards backoff (some b) w c =
      ground (arith, eq_iff b.worker_id w.worker_id, eq_iff b.conversation_url w.conversation_url)

pub binding_stage-Guards :
    (item : TaskOrchestrationInput) (now : ℕ) (policy : OrchestrationPolicy) (backoff : ℕ)
    (w : WorkerRecord) (c : Checks)
    → Guards item
        (When item.requires_exact_window_binding (IsBound now w item.window_binding))
        Anything
        (binding_stage item now policy backoff w c)
unfolding binding_stage
binding_stage-Guards item now policy backoff w c =
    when-Guards item _ item.requires_exact_window_binding _ _
      (binding_from-Guards item now policy backoff item.window_binding w c)

-- A capability of the wanted kind, fresh, from the evaluator's version and for the same runtime.
abbrev pub Qualifies :
    Letters → PageCapabilityKind → ℕ → PageCapabilityRecord → CapabilityContext → Type 0
Qualifies letters kind now c context =
    (c.kind ≡ kind)
    × (c.evaluator_version ≡ "page-close-v2")
    × (letters.lower c.scope_host ≡ letters.lower context.scope_host)
    × (letters.lower c.browser_family ≡ letters.lower context.browser_family)
    × (c.browser_major ≡ context.browser_major)
    × (letters.lower c.platform ≡ letters.lower context.platform)
    × (letters.lower c.surface ≡ letters.lower context.surface)
    × (c.observed_at ≤ now)
    × (now < c.expires_at)

failed-empty :
    (name : String) (b : Bool) (rest : List String)
    → is_empty (failed name b ++ rest) ≡ (b && is_empty rest)
failed-empty name true rest = refl
failed-empty name false rest = refl

same_kind_iff : (a b : PageCapabilityKind) → (same_kind a b ≡ true) ↔ (a ≡ b)
same_kind_iff a b = ground arith

capability_blockers_iff :
    (letters : Letters) (c : PageCapabilityRecord) (context : CapabilityContext)
    (kind : PageCapabilityKind) (now : ℕ)
    → (is_empty (capability_blockers letters c context kind now) ≡ true)
      ↔ Qualifies letters kind now c context
unfolding capability_blockers capability_is_fresh
capability_blockers_iff letters c context kind now = ground (
  arith,
  eq_iff c.evaluator_version "page-close-v2",
  eq_iff (letters.lower c.scope_host) (letters.lower context.scope_host),
  eq_iff (letters.lower c.browser_family) (letters.lower context.browser_family),
  eq_iff (letters.lower c.platform) (letters.lower context.platform),
  eq_iff (letters.lower c.surface) (letters.lower context.surface),
  same_kind_iff c.kind kind,
)

-- The capability and the context of the runtime are there, and they agree.
abbrev pub CapabilityQualifies :
    Letters
    → PageCapabilityKind
    → ℕ
    → Option PageCapabilityRecord
    → Option CapabilityContext
    → Type 0
CapabilityQualifies letters kind now (some c) (some context) = Qualifies letters kind now c context
CapabilityQualifies letters kind now _ _ = ⊥

module _ (item : TaskOrchestrationInput) (now : ℕ) (policy : OrchestrationPolicy) where
  capability_from-Guards :
      (backoff : ℕ) (letters : Letters) (o : Option PageCapabilityRecord)
      (p : Option CapabilityContext) (c : Checks)
      → Guards item
          (CapabilityQualifies letters item.page_capability_kind now o p)
          Anything
          (capability_from item now policy backoff letters o p c)
  unfolding Guards IsAdvisory
  capability_from-Guards backoff letters none p c = ground arith
  capability_from-Guards backoff letters (some a) none c = ground arith
  capability_from-Guards backoff letters (some a) (some b) c =
      ground (arith, capability_blockers_iff letters a b item.page_capability_kind now)

  pub capability_stage-Guards :
      (backoff : ℕ) (letters : Letters) (c : Checks)
      → Guards item
          (When item.page_continuity_relevant (
            CapabilityQualifies letters item.page_capability_kind now item.page_capability
              item.capability_context))
          Anything
          (capability_stage item now policy backoff letters c)
  unfolding capability_stage
  capability_stage-Guards backoff letters c =
      when-Guards item _ item.page_continuity_relevant _ _
        (capability_from-Guards backoff letters item.page_capability item.capability_context c)

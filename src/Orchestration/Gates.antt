-- ===== src/Orchestration/Gates.antt =====
-- src/lws/orchestration.py: early returns of `evaluate_task`, and what a stage of it guarantees.
use localshell_web_superviso.Base.{◌≡◌, ◌≢◌, ◌↔◌, refl, Bool, false, true, none, if◌then◌else◌}
use localshell_web_superviso.Orchestration.Input.{
  OrchestrationDecision, DecisionKind, TaskOrchestrationInput,
}

-- A stage returns a decision, or goes on with a value.
pub data Gate {ℓ} (A : Type ℓ) : Type ℓ where
  stop : OrchestrationDecision → Gate A
  pass : A → Gate A

abbrev pub and_then {ℓ κ} : {A : Type ℓ} {B : Type κ} → Gate A → (A → Gate B) → Gate B
and_then (stop d) f = stop d
and_then (pass a) f = f a

-- A decision on the task that permits nothing: neither selected nor allowed to mutate.
unfoldable pub IsAdvisory : TaskOrchestrationInput → OrchestrationDecision → Type 0
IsAdvisory item d =
    (d.task_id ≡ item.task.task_id)
    × (d.mutation_allowed ≡ false)
    × (d.selected ≡ false)
    × (d.deferred_kind ≡ none)

-- The stage passes exactly if `P`, with a value that meets `V`; what it stops with is advisory and
-- recommends no action.
unfoldable pub Guards {ℓ} :
    {A : Type ℓ} → TaskOrchestrationInput → Type 0 → (A → Type 0) → Gate A → Type 0
Guards item P V (stop d) = (d.kind ≢ DecisionKind.recommend_action) × (P → ⊥) × IsAdvisory item d
Guards item P V (pass a) = P × V a

abbrev pub Anything {ℓ} : {A : Type ℓ} → A → Type 0
Anything a = Unit

guard_more {ℓ} :
    {B : Type ℓ} (item : TaskOrchestrationInput) (P Q : Type 0) (W : B → Type 0) (m : Gate B)
    → P
    → Guards item Q W m
    → Guards item (P × Q) W m
unfolding Guards
guard_more item P Q W (stop d) p (k, n, s) = (k, λ (_, q). n q, s)
guard_more item P Q W (pass b) p (q, w) = ((p, q), w)

pub and_then-Guards {ℓ κ} :
    {A : Type ℓ} {B : Type κ} (item : TaskOrchestrationInput) (P Q : Type 0) (V : A → Type 0)
    (W : B → Type 0) (m : Gate A) (f : A → Gate B)
    → Guards item P V m
    → ((a : A) → V a → Guards item Q W (f a))
    → Guards item (P × Q) W (and_then m f)
unfolding Guards
and_then-Guards item P Q V W (stop d) f (k, n, s) h = (k, λ (p, q). n p, s)
and_then-Guards item P Q V W (pass a) f (p, v) h = guard_more item P Q W (f a) p (h a v)

refuse-Guards {ℓ} :
    {A : Type ℓ} (item : TaskOrchestrationInput) (P : Type 0) (V : A → Type 0) (m : Gate A)
    → (P → ⊥)
    → Guards item ⊥ V m
    → Guards item P V m
unfolding Guards
refuse-Guards item P V (stop d) n (k, _, s) = (k, n, s)
refuse-Guards item P V (pass a) n (h, v) = absurd h

cc_false : false ≡ true → ⊥
cc_false h = cc

-- A test in front of a stage, with a refusal where it fails.
pub if-Guards {ℓ} :
    {A : Type ℓ} (item : TaskOrchestrationInput) (P Q : Type 0) (V : A → Type 0) (b : Bool)
    (m e : Gate A)
    → ((b ≡ true) ↔ P)
    → Guards item Q V m
    → Guards item ⊥ V e
    → Guards item (P × Q) V (if b then m else e)
if-Guards item P Q V true m e (h, _) g n = guard_more item P Q V m (h refl) g
if-Guards item P Q V false m e (_, h) g n =
    refuse-Guards item (P × Q) V e (λ (p, _). cc_false (h p)) n

-- `P`, where `b` holds.
abbrev pub When : Bool → Type 0 → Type 0
When true P = P
When false P = Unit

-- A stage that is left out where `b` fails.
pub when-Guards {ℓ} :
    {A : Type ℓ} (item : TaskOrchestrationInput) (P : Type 0) (b : Bool) (m : Gate A) (a : A)
    → Guards item P Anything m
    → Guards item (When b P) Anything (if b then m else pass a)
unfolding Guards
when-Guards item P true m a g = g
when-Guards item P false m a g = (tt, tt)

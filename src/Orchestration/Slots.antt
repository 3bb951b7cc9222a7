-- ===== src/Orchestration/Slots.antt =====
-- src/lws/orchestration.py, `plan_orchestration`: the slots of a cycle.
use localshell_web_superviso.Base.{
  sort_by, take, ℕ, ◌≤◌, Bool, true, false, String, List, [], ◌∷◌, map, All, length, ◌≡◌, subst,
  arith,
}
use localshell_web_superviso.Orchestration.Input.{
  Letters, OrchestrationPolicy, TaskOrchestrationInput, OrchestrationDecision,
}
use localshell_web_superviso.Orchestration.Gates.{IsAdvisory}
use localshell_web_superviso.Orchestration.Evaluate.{evaluate_task}
use localshell_web_superviso.Orchestration.Decisions.{evaluate_task-IsAdvisory}
use localshell_web_superviso.Orchestration.Plan.{
  Entry, id_of, entry_id, is_member, mark_duplicate, canonical_items, selected_ids, settle,
  entry_of, plan_orchestration, duplicate_ids, candidates, entry_before,
}
use localshell_web_superviso.Orchestration.Selection.{
  count, count_members, canonical_items-Distinct, length-take, length-map,
}

mark-IsAdvisory :
    (item : TaskOrchestrationInput) (b : Bool) (d : OrchestrationDecision)
    → IsAdvisory item d
    → IsAdvisory item (mark_duplicate b d)
unfolding IsAdvisory
mark-IsAdvisory item true d h = ground arith
mark-IsAdvisory item false d h = h

settle_member :
    (policy : OrchestrationPolicy) (ids : List String) (item : TaskOrchestrationInput)
    (d : OrchestrationDecision)
    → d.selected ≡ false
    → (settle policy ids (item, d)).selected ≡ true
    → is_member d.task_id ids ≡ true
unfolding settle
settle_member policy ids item d s h = ground arith

settle_selected :
    (policy : OrchestrationPolicy) (ids : List String) (item : TaskOrchestrationInput)
    (d : OrchestrationDecision)
    → IsAdvisory item d
    → (settle policy ids (item, d)).selected ≡ true
    → is_member (id_of item) ids ≡ true
unfolding IsAdvisory
settle_selected policy ids item d (t, m, s, e) h =
    subst (λ id. is_member id ids ≡ true) t (settle_member policy ids item d s h)

settle-mutation_allowed :
    (policy : OrchestrationPolicy) (ids : List String) (item : TaskOrchestrationInput)
    (d : OrchestrationDecision)
    → IsAdvisory item d
    → (settle policy ids (item, d)).mutation_allowed ≡ false
unfolding settle IsAdvisory
settle-mutation_allowed policy ids item d (t, m, s, e) = ground arith

entry-IsAdvisory :
    (letters : Letters) (now : ℕ) (policy : OrchestrationPolicy) (duplicates : List String)
    (item : TaskOrchestrationInput)
    → IsAdvisory item
        (mark_duplicate (is_member (id_of item) duplicates) (evaluate_task letters item now policy))
entry-IsAdvisory letters now policy duplicates item =
    mark-IsAdvisory item (is_member (id_of item) duplicates) (evaluate_task letters item now policy)
      (evaluate_task-IsAdvisory letters item now policy)

count-map {ℓ κ μ} :
    {A : Type ℓ} {B : Type κ} {C : Type μ} (test : C → Bool) (g : B → C) (f : A → B) (p : A → Bool)
    (xs : List A)
    → ((x : A) → test (g (f x)) ≡ true → p x ≡ true)
    → count test (map g (map f xs)) ≤ count p xs
count-map test g f p [] h = ground arith
count-map test g f p (x ∷ xs) h = let r = count-map test g f p xs h in let t = h x in ground arith

length-selected :
    (policy : OrchestrationPolicy) (entries : List Entry)
    → length (selected_ids policy entries) ≤ policy.max_selected_tasks
unfolding selected_ids
length-selected policy entries =
    let chosen = take policy.max_selected_tasks (sort_by entry_before (candidates entries)) in
    let h = length-take policy.max_selected_tasks (sort_by entry_before (candidates entries)) in
    let l = length-map entry_id chosen in ground arith

-- A plan selects at most max_selected_tasks decisions, however often the inputs name a task.
pub selection_bounded :
    (letters : Letters) (items : List TaskOrchestrationInput) (now : ℕ)
    (policy : OrchestrationPolicy)
    → count
        (λ (d : OrchestrationDecision). d.selected)
        (plan_orchestration letters items now policy)
      ≤ policy.max_selected_tasks
unfolding plan_orchestration entry_of
selection_bounded letters items now policy =
    let inputs = canonical_items items in
    let f = entry_of letters now policy (duplicate_ids [] items) in
    let ids = selected_ids policy (map f inputs) in
    let few = length-selected policy (map f inputs) in
    let once = count_members ids inputs (canonical_items-Distinct items) in
    let bound =
      count-map (λ (d : OrchestrationDecision). d.selected) (settle policy ids) f
        (λ i. is_member (id_of i) ids) inputs
        (λ i h.
          settle_selected policy ids i _
            (entry-IsAdvisory letters now policy (duplicate_ids [] items) i) h) in
    ground arith

-- a test of every member of a list that two functions make
All-map {ℓ κ μ} :
    {A : Type ℓ} {B : Type κ} {C : Type μ} (P : C → Type 0) (g : B → C) (f : A → B) (xs : List A)
    → ((x : A) → P (g (f x)))
    → All P (map g (map f xs))
All-map P g f [] h = tt
All-map P g f (x ∷ xs) h = (h x, All-map P g f xs h)

-- No decision of a plan allows a mutation, selected or not.
plan_advisory :
    (letters : Letters) (items : List TaskOrchestrationInput) (now : ℕ)
    (policy : OrchestrationPolicy)
    → All
        (λ (d : OrchestrationDecision). d.mutation_allowed ≡ false)
        (plan_orchestration letters items now policy)
unfolding plan_orchestration entry_of
plan_advisory letters items now policy =
    let f = entry_of letters now policy (duplicate_ids [] items) in
    let inputs = canonical_items items in
    All-map (λ (d : OrchestrationDecision). d.mutation_allowed ≡ false)
      (settle policy (selected_ids policy (map f inputs))) f inputs
      (λ i.
        settle-mutation_allowed policy (selected_ids policy (map f inputs)) i _
          (entry-IsAdvisory letters now policy (duplicate_ids [] items) i))

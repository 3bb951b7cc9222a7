-- ===== src/Scheduler/Queue.antt =====
-- src/lws/scheduler.py, `attention_queue`: which tasks stand in the queue.
use localshell_web_superviso.Base.{
  insert_by, sort_by, ℕ, max, Bool, true, false, ◌&&◌, ◌||◌, String, List, [], ◌∷◌, any, ◌==◌,
  eq_iff, leb, ◌≡◌, refl, ap, ◌∙◌, Option, none, some, is_some, All, if_intro, ◌<◌, ◌⊎◌, arith,
  str_ltb, if◌then◌else◌,
}
use localshell_web_superviso.Models.Task.{SupervisorState, TaskRecord, Assessment}
use localshell_web_superviso.Orchestration.Selection.{count, same_comm}
use localshell_web_superviso.Scheduler.{
  AttentionItem, is_eligible, is_better, put_best, candidate_of, best_by_task, item_before,
  attention_queue, priority_of,
}
use localshell_web_superviso.Scheduler.Sorting.{count-sort, any-sort, IsSorted, sort-IsSorted}

-- How urgent a state is, from 0 on, where it needs attention at all.
abbrev pub urgency : SupervisorState → Option ℕ
urgency SupervisorState.needs_human = some 0
urgency SupervisorState.blocked = some 1
urgency SupervisorState.reconciling = some 2
urgency SupervisorState.suspect = some 3
urgency _ = none

abbrev pub is_urgent_by : ℕ → SupervisorState → Bool
is_urgent_by p state = elim (urgency state) [ none ↦ false | some n ↦ leb n p ]

abbrev pub is_of : String → AttentionItem → Bool
is_of id i = i.task_id == id

-- an assessment of the task `id` that needs attention
abbrev pub is_due : {E : Type 0} → String → TaskRecord × Assessment E → Bool
is_due id (task, assessment) = is_some (urgency assessment.state) && (task.task_id == id)

-- one of urgency `p` or more urgent
abbrev pub is_urgent : {E : Type 0} → String → ℕ → TaskRecord × Assessment E → Bool
is_urgent id p (task, assessment) = (task.task_id == id) && is_urgent_by p assessment.state

-- an item of the task `id` with a state of urgency `p` or more urgent
abbrev pub is_within : String → ℕ → AttentionItem → Bool
is_within id p i = (i.task_id == id) && is_urgent_by p i.state

-- The item's state needs attention, and its priority says how much.
abbrev IsRanked : AttentionItem → Type 0
IsRanked i = urgency i.state ≡ some i.priority

-- the same tests by the priorities of the code
abbrev stands_within : String → ℕ → AttentionItem → Bool
stands_within id p i = (i.task_id == id) && leb i.priority p

abbrev is_asked : {E : Type 0} → String → TaskRecord × Assessment E → Bool
is_asked id (task, assessment) = is_eligible assessment.state && (task.task_id == id)

abbrev asks_within : {E : Type 0} → String → ℕ → TaskRecord × Assessment E → Bool
asks_within id p (task, assessment) =
    is_eligible assessment.state && ((task.task_id == id) && leb (priority_of assessment.state) p)

eligible-ranked :
    (state : SupervisorState) → is_eligible state ≡ true → urgency state ≡ some (priority_of state)
unfolding is_eligible
eligible-ranked state h = ground arith

due-asked :
    {E : Type 0} (id : String) (item : TaskRecord × Assessment E)
    → is_asked id item ≡ is_due id item
unfolding is_eligible
due-asked id (task, assessment) = ground arith

urgent-asks :
    {E : Type 0} (id : String) (p : ℕ) (item : TaskRecord × Assessment E)
    → asks_within id p item ≡ is_urgent id p item
unfolding is_eligible
urgent-asks id p (task, assessment) = ground arith

-- Equal names are equal to the same names.
same_name : (a b id : String) → (a == b) ≡ true → (a == id) ≡ (b == id)
same_name a b id h = ap (λ (n : String). n == id) ((eq_iff a b).0 h)

count-put :
    (id : String) (c : AttentionItem) (xs : List AttentionItem)
    → count (is_of id) (put_best c xs)
      ≡ (if c.task_id == id then max 1 (count (is_of id) xs) else count (is_of id) xs)
unfolding put_best
count-put id c [] = ground arith
count-put id c (x ∷ xs) =
    let h = count-put id c xs in
    let s = same_name x.task_id c.task_id id in
    let t = same_name x.task_id id c.task_id in let u = same_comm id c.task_id in ground arith

-- A better item does not stand behind the other, and one that is not better does not stand before it.
better-leb : (a b : AttentionItem) → is_better a b ≡ true → leb a.priority b.priority ≡ true
unfolding is_better
better-leb a b h = ground arith

worse-leb : (a b : AttentionItem) → is_better a b ≡ false → leb b.priority a.priority ≡ true
unfolding is_better
worse-leb a b h = ground arith

leb_refl : (a : ℕ) → leb a a ≡ true
leb_refl a = ground arith

leb_trans : (a b d : ℕ) → leb a b ≡ true → leb b d ≡ true → leb a d ≡ true
leb_trans a b d h k = ground arith

any-put :
    (id : String) (p : ℕ) (c : AttentionItem) (xs : List AttentionItem)
    → any (stands_within id p) (put_best c xs)
      ≡ (stands_within id p c || any (stands_within id p) xs)
unfolding put_best
any-put id p c [] = refl
any-put id p c (x ∷ xs) =
    let r = any-put id p c xs in
    let s = same_name x.task_id c.task_id id in
    let b = better-leb c x in
    let w = worse-leb c x in
    let l = leb_trans c.priority x.priority p in
    let k = leb_trans x.priority c.priority p in ground arith

count-best :
    {E : Type 0} (id : String) (best : List AttentionItem)
    (items : List (TaskRecord × Assessment E))
    → count (is_of id) (best_by_task best items)
      ≡ (if any (is_asked id) items then max 1 (count (is_of id) best) else count (is_of id) best)
unfolding best_by_task
count-best id best [] = refl
count-best id best ((task, assessment) ∷ items) =
    let c = candidate_of task assessment in
    let h = count-best id best items in
    let r = count-best id (put_best c best) items in let s = count-put id c best in ground arith

any-best :
    {E : Type 0} (id : String) (p : ℕ) (best : List AttentionItem)
    (items : List (TaskRecord × Assessment E))
    → any (stands_within id p) (best_by_task best items)
      ≡ (any (stands_within id p) best || any (asks_within id p) items)
unfolding best_by_task
any-best id p best [] = ground arith
any-best id p best ((task, assessment) ∷ items) =
    let c = candidate_of task assessment in
    let h = any-best id p best items in
    let r = any-best id p (put_best c best) items in let s = any-put id p c best in ground arith

put-IsRanked :
    (c : AttentionItem) (xs : List AttentionItem)
    → IsRanked c
    → All IsRanked xs
    → All IsRanked (put_best c xs)
unfolding put_best
put-IsRanked c [] h ps = (h, tt)
put-IsRanked c (x ∷ xs) h (p, ps) =
    let r = put-IsRanked c xs h ps in
    if_intro (All IsRanked) (x.task_id == c.task_id) _ _
      (λ t. (if_intro IsRanked (is_better c x) c x (λ b. h) (λ b. p), ps)) (λ f. (p, r))

best-IsRanked :
    {E : Type 0} (best : List AttentionItem) (items : List (TaskRecord × Assessment E))
    → All IsRanked best
    → All IsRanked (best_by_task best items)
unfolding best_by_task
best-IsRanked best [] ps = ps
best-IsRanked best ((task, assessment) ∷ items) ps =
    let c = candidate_of task assessment in
    best-IsRanked (if is_eligible assessment.state then put_best c best else best) items (
      if_intro (All IsRanked) (is_eligible assessment.state) (put_best c best) best
        (λ t. put-IsRanked c best (eligible-ranked assessment.state t) ps) (λ f. ps))

insert-IsRanked :
    (x : AttentionItem) (xs : List AttentionItem)
    → IsRanked x
    → All IsRanked xs
    → All IsRanked (insert_by item_before x xs)
unfolding insert_by
insert-IsRanked x [] h ps = (h, tt)
insert-IsRanked x (y ∷ ys) h (p, ps) =
    let r = insert-IsRanked x ys h ps in
    if_intro (All IsRanked) (item_before y x) _ _ (λ t. (p, r)) (λ f. (h, (p, ps)))

sort-IsRanked : (xs : List AttentionItem) → All IsRanked xs → All IsRanked (sort_by item_before xs)
unfolding sort_by
sort-IsRanked [] ps = tt
sort-IsRanked (x ∷ xs) (p, ps) = insert-IsRanked x (sort_by item_before xs) p (sort-IsRanked xs ps)

-- Of two items, the first has the more urgent state, or an equally urgent one and no later task.
pub record IsBefore (x y : AttentionItem) : Type 0 where
  pub first : ℕ
  pub second : ℕ
  pub first_urgency : urgency x.state ≡ some first
  pub second_urgency : urgency y.state ≡ some second
  pub in_order : (first < second) ⊎ ((first ≡ second) × (str_ltb y.task_id x.task_id ≡ false))

-- Every item stands directly before one that is not more urgent.
abbrev pub IsOrdered : List AttentionItem → Type 0
IsOrdered [] = Unit
IsOrdered (x ∷ []) = Unit
IsOrdered (x ∷ y ∷ ys) = IsBefore x y × IsOrdered (y ∷ ys)

ranks_in_order :
    (x y : AttentionItem)
    → item_before y x ≡ false
    → (x.priority < y.priority)
      ⊎ ((x.priority ≡ y.priority) × (str_ltb y.task_id x.task_id ≡ false))
ranks_in_order x y h = ground arith

ranked-IsOrdered : (xs : List AttentionItem) → All IsRanked xs → IsSorted xs → IsOrdered xs
ranked-IsOrdered [] ps o = tt
ranked-IsOrdered (x ∷ []) ps o = tt
ranked-IsOrdered (x ∷ y ∷ ys) (p, (q, ps)) (b, o) = (
  record {
    first = x.priority;
    second = y.priority;
    first_urgency = p;
    second_urgency = q;
    in_order = ranks_in_order x y b;
  },
  ranked-IsOrdered (y ∷ ys) (q, ps) o,
)

ranked_by : (p : ℕ) (x : AttentionItem) → IsRanked x → is_urgent_by p x.state ≡ leb x.priority p
ranked_by p x r = ap (λ (o : Option ℕ). elim o [ none ↦ false | some n ↦ leb n p ]) r

any-within :
    (id : String) (p : ℕ) (xs : List AttentionItem)
    → All IsRanked xs
    → any (is_within id p) xs ≡ any (stands_within id p) xs
any-within id p [] ps = refl
any-within id p (x ∷ xs) (r, ps) =
    let h = any-within id p xs ps in let s = ranked_by p x r in ground arith

any-same {ℓ} :
    {A : Type ℓ} (f g : A → Bool) (xs : List A) → ((x : A) → f x ≡ g x) → any f xs ≡ any g xs
any-same f g [] h = refl
any-same f g (x ∷ xs) h = let r = any-same f g xs h in let s = h x in ground arith

-- The queue is in the order of urgency, a task that needs a human first, then the blocked, the reconciling
-- and the suspect ones, and by task among equals. A task with an assessment of one of these states
-- stands in it exactly once, every other task not at all, and it stands there with a state of some
-- urgency or more exactly if some assessment of it has one.
pub queue_exactly :
    {E : Type 0} (id : String) (p : ℕ) (items : List (TaskRecord × Assessment E))
    → IsOrdered (attention_queue items)
      × (count (is_of id) (attention_queue items) ≡ (if any (is_due id) items then 1 else 0))
      × (any (is_within id p) (attention_queue items) ≡ any (is_urgent id p) items)
unfolding attention_queue
queue_exactly id p items =
    let best = best_by_task [] items in
    let ranked = sort-IsRanked best (best-IsRanked [] items tt) in
    (
      ranked-IsOrdered (sort_by item_before best) ranked (sort-IsSorted best),
      count-sort (is_of id) best
          ∙ count-best id [] items
          ∙ ap (λ (b : Bool). if b then 1 else 0)
              (any-same (is_asked id) (is_due id) items (due-asked id)),
      any-within id p (sort_by item_before best) ranked
          ∙ any-sort (stands_within id p) best
          ∙ any-best id p [] items
          ∙ any-same (asks_within id p) (is_urgent id p) items (urgent-asks id p),
    )

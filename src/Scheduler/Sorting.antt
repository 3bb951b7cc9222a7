-- ===== src/Scheduler/Sorting.antt =====
-- src/lws/scheduler.py, `queue.sort` in `attention_queue`.
use localshell_web_superviso.Base.{
  insert_by, sort_by, ◌+◌, Bool, true, false, ◌||◌, String, List, [], ◌∷◌, any, ◌≡◌, refl, arith,
  str_ltb, if◌then◌else◌,
}
use localshell_web_superviso.Orchestration.Selection.{count}
use localshell_web_superviso.Scheduler.{AttentionItem, item_before}

count-insert :
    (test : AttentionItem → Bool) (x : AttentionItem) (xs : List AttentionItem)
    → count test (insert_by item_before x xs) ≡ (if test x then 1 else 0) + count test xs
unfolding insert_by
count-insert test x [] = refl
count-insert test x (y ∷ ys) = let h = count-insert test x ys in ground arith

pub count-sort :
    (test : AttentionItem → Bool) (xs : List AttentionItem)
    → count test (sort_by item_before xs) ≡ count test xs
unfolding sort_by
count-sort test [] = refl
count-sort test (x ∷ xs) =
    let h = count-sort test xs in
    let r = count-insert test x (sort_by item_before xs) in ground arith

any-insert :
    (test : AttentionItem → Bool) (x : AttentionItem) (xs : List AttentionItem)
    → any test (insert_by item_before x xs) ≡ (test x || any test xs)
unfolding insert_by
any-insert test x [] = refl
any-insert test x (y ∷ ys) = let h = any-insert test x ys in ground arith

pub any-sort :
    (test : AttentionItem → Bool) (xs : List AttentionItem)
    → any test (sort_by item_before xs) ≡ any test xs
unfolding sort_by
any-sort test [] = refl
any-sort test (x ∷ xs) =
    let h = any-sort test xs in let r = any-insert test x (sort_by item_before xs) in ground arith

str_ltb_asym : (s t : String) → str_ltb s t ≡ true → str_ltb t s ≡ false
unfolding str_ltb
str_ltb_asym String.[] String.[] h = ground arith
str_ltb_asym String.[] (String.◌∷◌ d t) h = refl
str_ltb_asym (String.◌∷◌ c s) String.[] h = ground arith
str_ltb_asym (String.◌∷◌ c s) (String.◌∷◌ d t) h = let r = str_ltb_asym s t in ground arith

before_asym : (a b : AttentionItem) → item_before a b ≡ true → item_before b a ≡ false
before_asym a b h = let s = str_ltb_asym a.task_id b.task_id in ground arith

-- No item stands directly before one that precedes it in priority and task.
abbrev pub IsSorted : List AttentionItem → Type 0
IsSorted [] = Unit
IsSorted (x ∷ []) = Unit
IsSorted (x ∷ y ∷ ys) = (item_before y x ≡ false) × IsSorted (y ∷ ys)

insert-IsSorted :
    (x : AttentionItem) (xs : List AttentionItem)
    → IsSorted xs
    → IsSorted (insert_by item_before x xs)
unfolding insert_by
insert-IsSorted x [] o = tt
insert-IsSorted x (y ∷ []) o = let b = before_asym y x in ground arith
insert-IsSorted x (y ∷ z ∷ zs) (b, o) =
    let r = insert-IsSorted x (z ∷ zs) o in let a = before_asym y x in ground arith

pub sort-IsSorted : (xs : List AttentionItem) → IsSorted (sort_by item_before xs)
unfolding sort_by
sort-IsSorted [] = tt
sort-IsSorted (x ∷ xs) = insert-IsSorted x (sort_by item_before xs) (sort-IsSorted xs)

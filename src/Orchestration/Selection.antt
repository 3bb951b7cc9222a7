-- ===== src/Orchestration/Selection.antt =====
-- src/lws/orchestration.py, `plan_orchestration`: how many decisions are selected, and which.
use localshell_web_superviso.Base.{
  insert_by, sort_by, take, ℕ, zero, suc, ◌+◌, ◌≤◌, Bool, false, ◌||◌, String, List, [], ◌∷◌, ◌++◌,
  map, length, ◌==◌, eq_iff, ◌≡◌, refl, ap, subst, ◌∙◌, arith, if◌then◌else◌, if_intro,
}
use localshell_web_superviso.Orchestration.Input.{TaskOrchestrationInput}
use localshell_web_superviso.Orchestration.Plan.{
  id_of, has_id, is_member, unique_items, id_before, canonical_items,
}

-- How many members meet the test.
abbrev pub count {ℓ} : {A : Type ℓ} → (A → Bool) → List A → ℕ
count test [] = 0
count test (x ∷ xs) = (if test x then 1 else 0) + count test xs

-- No two inputs are of one task.
abbrev pub Distinct : List TaskOrchestrationInput → Type 0
Distinct [] = Unit
Distinct (x ∷ xs) = (has_id (id_of x) xs ≡ false) × Distinct xs

-- A task is absent from a list with one more input of another task.
has_id-snoc :
    (id : String) (xs : List TaskOrchestrationInput) (y : TaskOrchestrationInput)
    → has_id id (xs ++ (y ∷ [])) ≡ (has_id id xs || (id_of y == id))
has_id-snoc id [] y = ground arith
has_id-snoc id (x ∷ xs) y = let h = has_id-snoc id xs y in ground arith

same_sym : (a b : String) → (a == b) ≡ false → (b == a) ≡ false
same_sym a b h = ground (arith, eq_iff a b, eq_iff b a)

snoc-Distinct :
    (xs : List TaskOrchestrationInput) (y : TaskOrchestrationInput)
    → has_id (id_of y) xs ≡ false
    → Distinct xs
    → Distinct (xs ++ (y ∷ []))
snoc-Distinct [] y h d = (refl, tt)
snoc-Distinct (x ∷ xs) y h (a, d) =
    let r = snoc-Distinct xs y (ground arith) d in
    let s = has_id-snoc (id_of x) xs y in
    let t = same_sym (id_of x) (id_of y) (ground arith) in ground arith

unique_items-Distinct :
    (seen items : List TaskOrchestrationInput) → Distinct seen → Distinct (unique_items seen items)
unfolding unique_items
unique_items-Distinct seen [] d = d
unique_items-Distinct seen (item ∷ items) d =
    unique_items-Distinct (if has_id (id_of item) seen then seen else seen ++ (item ∷ [])) items (
      if_intro Distinct (has_id (id_of item) seen) seen (seen ++ (item ∷ [])) (λ _. d)
        (λ h. snoc-Distinct seen item h d))

module _ (before : TaskOrchestrationInput → TaskOrchestrationInput → Bool) where
  has_id-insert :
      (id : String) (x : TaskOrchestrationInput) (xs : List TaskOrchestrationInput)
      → has_id id (insert_by before x xs) ≡ ((id_of x == id) || has_id id xs)
  unfolding insert_by
  has_id-insert id x [] = refl
  has_id-insert id x (y ∷ ys) = let h = has_id-insert id x ys in ground arith

  insert_by-Distinct :
      (x : TaskOrchestrationInput) (xs : List TaskOrchestrationInput)
      → has_id (id_of x) xs ≡ false
      → Distinct xs
      → Distinct (insert_by before x xs)
  unfolding insert_by
  insert_by-Distinct x [] h d = (refl, tt)
  insert_by-Distinct x (y ∷ ys) h (a, d) =
      let r = insert_by-Distinct x ys (ground arith) d in
      let s = has_id-insert (id_of y) x ys in
      let t = same_sym (id_of y) (id_of x) (ground arith) in ground arith

  has_id-sort :
      (id : String) (xs : List TaskOrchestrationInput)
      → has_id id (sort_by before xs) ≡ has_id id xs
  unfolding sort_by
  has_id-sort id [] = refl
  has_id-sort id (x ∷ xs) =
      let h = has_id-sort id xs in let s = has_id-insert id x (sort_by before xs) in ground arith

  sort_by-Distinct : (xs : List TaskOrchestrationInput) → Distinct xs → Distinct (sort_by before xs)
  unfolding sort_by
  sort_by-Distinct [] d = tt
  sort_by-Distinct (x ∷ xs) (a, d) =
      let s = has_id-sort (id_of x) xs in
      insert_by-Distinct x (sort_by before xs) (s ∙ a) (sort_by-Distinct xs d)

pub canonical_items-Distinct :
    (items : List TaskOrchestrationInput) → Distinct (canonical_items items)
unfolding canonical_items
canonical_items-Distinct items =
    sort_by-Distinct id_before (unique_items [] items) (unique_items-Distinct [] items tt)

pub length-take {ℓ} : {A : Type ℓ} (n : ℕ) (xs : List A) → length (take n xs) ≤ n
unfolding take
length-take zero xs = ground arith
length-take (suc n) [] = ground arith
length-take (suc n) (x ∷ xs) = let h = length-take n xs in ground arith

pub length-map {ℓ κ} :
    {A : Type ℓ} {B : Type κ} (f : A → B) (xs : List A) → length (map f xs) ≡ length xs
length-map f [] = refl
length-map f (x ∷ xs) = let h = length-map f xs in ground arith

count-or {ℓ} :
    {A : Type ℓ} (p q r : A → Bool) (xs : List A)
    → ((x : A) → r x ≡ (p x || q x))
    → count r xs ≤ count p xs + count q xs
count-or p q r [] h = ground arith
count-or p q r (x ∷ xs) h = let s = count-or p q r xs h in let t = h x in ground arith

-- An absent task is counted nowhere, and a task of distinct inputs at most once.
count_absent :
    (id : String) (xs : List TaskOrchestrationInput)
    → has_id id xs ≡ false
    → count (λ i. id_of i == id) xs ≡ 0
count_absent id [] h = refl
count_absent id (x ∷ xs) h = let r = count_absent id xs (ground arith) in ground arith

pub same_comm : (a b : String) → (a == b) ≡ (b == a)
same_comm a b = ground (arith, eq_iff a b, eq_iff b a)

head_once :
    (id : String) (x : TaskOrchestrationInput) (xs : List TaskOrchestrationInput)
    → has_id (id_of x) xs ≡ false
    → id_of x ≡ id
    → count (λ i. id_of i == id) xs ≡ 0
head_once id x xs a e = count_absent id xs (subst (λ t. has_id t xs ≡ false) e a)

count_once :
    (id : String) (xs : List TaskOrchestrationInput)
    → Distinct xs
    → count (λ i. id_of i == id) xs ≤ 1
count_once id [] d = ground arith
count_once id (x ∷ xs) (a, d) =
    let r = count_once id xs d in let h = head_once id x xs a in ground (arith, eq_iff (id_of x) id)

count_none {ℓ} : {A : Type ℓ} (xs : List A) → count (λ _. false) xs ≡ 0
count_none [] = refl
count_none (x ∷ xs) = let h = count_none xs in ground arith

-- Distinct inputs have at most as many members in a list of tasks as it is long.
pub count_members :
    (ids : List String) (xs : List TaskOrchestrationInput)
    → Distinct xs
    → count (λ i. is_member (id_of i) ids) xs ≤ length ids
count_members [] xs d = let h = count_none xs in ground arith
count_members (id ∷ ids) xs d =
    let r = count_members ids xs d in
    let s = count_once id xs d in
    let t =
      count-or (λ i. id_of i == id) (λ i. is_member (id_of i) ids)
        (λ i. is_member (id_of i) (id ∷ ids)) xs
        (λ i. ap (λ b. b || is_member (id_of i) ids) (same_comm id (id_of i))) in
    ground arith

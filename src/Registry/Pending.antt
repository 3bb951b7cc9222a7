-- ===== src/Registry/Pending.antt =====
-- src/lws/registry.py, the action attempts: at most one of a task is unresolved.
use localshell_web_superviso.Base.{
  ℕ, suc, ◌≤◌, ◌≡◌, refl, sym, ap, ◌∙◌, subst, Bool, true, false, ◌||◌, ◌⊎◌, inl, inr, none, some,
  is_some, Bool-cases, String, List, [], ◌∷◌, ◌++◌, length, any, find, select, sort_by, insert_by,
  ◌==◌, eq_iff, ltb, if_inversion, arith,
}
use localshell_web_superviso.Models.Mutation.{ActionAttempt, action_unresolved}
use localshell_web_superviso.Registry.Actions.{is_pending, latest, put_attempt}

-- how many attempts of the task are unresolved
abbrev pub count : String → List ActionAttempt → ℕ
count id xs = length (select (is_pending id) xs)

count-append :
    (id : String) (xs : List ActionAttempt) (a : ActionAttempt)
    → count id (xs ++ a ∷ []) ≤ suc (count id xs)
unfolding select
count-append id [] a = ground arith
count-append id (x ∷ xs) a = ground (arith, count-append id xs a)

count-other :
    (id : String) (xs : List ActionAttempt) (a : ActionAttempt)
    → is_pending id a ≡ false
    → count id (xs ++ a ∷ []) ≡ count id xs
unfolding select
count-other id [] a h = ground arith
count-other id (x ∷ xs) a h = ground (arith, count-other id xs a h)

pub none-count :
    (id : String) (xs : List ActionAttempt) → any (is_pending id) xs ≡ false → count id xs ≡ 0
unfolding select
none-count id [] h = refl
none-count id (x ∷ xs) h = ground (arith, none-count id xs)

-- An attempt of a task without an unresolved one is added.
pub insert-count :
    (id : String) (xs : List ActionAttempt) (a : ActionAttempt)
    → count a.task_id xs ≡ 0
    → count id xs ≤ 1
    → count id (xs ++ a ∷ []) ≤ 1
insert-count id xs a free h = elim (Bool-cases (a.task_id == id)) [
  | inl t ↦
      let same = (eq_iff a.task_id id).0 t in
      let more = count-append id xs a in
      let zero = subst (λ i. count i xs ≡ 0) same free in omega arith
  | inr f ↦ subst (λ n. n ≤ 1) (sym (count-other id xs a (rw f))) h
]

pub option-cancel : {A : Type 0} {a b : A} → some a ≡ some b → a ≡ b
option-cancel h = cc

head-count :
    (id : String) (xs : List ActionAttempt) (new old : ActionAttempt)
    → new.task_id ≡ old.task_id
    → (action_unresolved old.state ≡ true) ⊎ (action_unresolved new.state ≡ false)
    → count id (new ∷ xs) ≤ count id (old ∷ xs)
unfolding select
head-count id xs new old same step =
    ground (arith, eq_iff new.task_id id, eq_iff old.task_id id, step)

put-here :
    (new x : ActionAttempt) (xs : List ActionAttempt)
    → (x.attempt_id == new.attempt_id) ≡ true
    → new ∷ xs ≡ put_attempt new (x ∷ xs)
unfolding put_attempt
put-here new x xs t = rw t

pub put-count :
    (id : String) (xs : List ActionAttempt) (new : ActionAttempt) {old : ActionAttempt}
    → find (λ (x : ActionAttempt). x.attempt_id == new.attempt_id) xs ≡ some old
    → new.task_id ≡ old.task_id
    → (action_unresolved old.state ≡ true) ⊎ (action_unresolved new.state ≡ false)
    → count id (put_attempt new xs) ≤ count id xs
unfolding find select put_attempt
put-count id [] new h same step = cc
put-count id (x ∷ xs) new {old} h same step =
    elim (if_inversion (x.attempt_id == new.attempt_id) h) [
      | inl (t, e) ↦
          let better = head-count id xs new old same step in
          subst (λ ys. count id ys ≤ count id (x ∷ xs)) (put-here new x xs t)
            (subst (λ y. count id (new ∷ xs) ≤ count id (y ∷ xs)) (sym (option-cancel e)) better)
      | inr (f, e) ↦ let rest = put-count id xs new e same step in ground (arith, f, rest)
    ]

module _ (test : ActionAttempt → Bool) where
  any-insert :
      (before : ActionAttempt → ActionAttempt → Bool) (a : ActionAttempt) (xs : List ActionAttempt)
      → any test (insert_by before a xs) ≡ (test a || any test xs)
  unfolding insert_by
  any-insert before a [] = refl
  any-insert before a (x ∷ xs) = ground (arith, any-insert before a xs)

  any-sort :
      (before : ActionAttempt → ActionAttempt → Bool) (xs : List ActionAttempt)
      → any test (sort_by before xs) ≡ any test xs
  unfolding sort_by
  any-sort before [] = refl
  any-sort before (x ∷ xs) =
      any-insert before x (sort_by before xs) ∙ ap (λ b. test x || b) (any-sort before xs)

  any-select :
      (p : ActionAttempt → Bool) (xs : List ActionAttempt)
      → any test (select p xs) ≡ true
      → any test xs ≡ true
  unfolding select
  any-select p [] h = cc
  any-select p (x ∷ xs) h = ground (arith, any-select p xs)

  pub found-any : (xs : List ActionAttempt) → is_some (find test xs) ≡ any test xs
  unfolding find
  found-any [] = refl
  found-any (x ∷ xs) = ground (arith, found-any xs)

pub latest-any :
    (id : String) (xs : List ActionAttempt) (p : ActionAttempt → Bool) {u : ActionAttempt}
    → latest (select p xs) ≡ some u
    → (u.attempt_id == id) ≡ true
    → any (λ (x : ActionAttempt). x.attempt_id == id) xs ≡ true
latest-any id xs p {u} h same =
    let test : ActionAttempt → Bool = λ x. x.attempt_id == id in
    any-select test p xs (
      sym (any-sort test (λ a b. ltb b.created_at a.created_at) (select p xs))
      ∙ head-any (sort_by (λ (a b : ActionAttempt). ltb b.created_at a.created_at) (select p xs)) h)
  where
    head-any :
        (ys : List ActionAttempt)
        → (elim ys [ [] ↦ none | a ∷ rest ↦ some a ]) ≡ some u
        → any (λ (x : ActionAttempt). x.attempt_id == id) ys ≡ true
    head-any [] e = cc
    head-any (y ∷ ys) e =
        subst
          (λ (v : ActionAttempt).
            (v.attempt_id == id || any (λ (x : ActionAttempt). x.attempt_id == id) ys) ≡ true)
          (sym (option-cancel e)) (rw (same))

insert-first :
    (before : ActionAttempt → ActionAttempt → Bool) (x : ActionAttempt) (ys : List ActionAttempt)
    → (elim (insert_by before x ys) [ [] ↦ none | a ∷ rest ↦ some a ]) ≡ none
    → ⊥
unfolding insert_by
insert-first before x [] h = cc
insert-first before x (y ∷ ys) h = ground arith

pub latest-none : (xs : List ActionAttempt) → latest xs ≡ none → length xs ≡ 0
unfolding sort_by
latest-none [] h = refl
latest-none (x ∷ xs) h = absurd (
    insert-first (λ a b. ltb b.created_at a.created_at) x
      (sort_by (λ (a b : ActionAttempt). ltb b.created_at a.created_at) xs) h)

-- ===== src/Registry/Final.antt =====
-- src/lws/registry.py, the action attempts whose outcome is known.
use localshell_web_superviso.Base.{
  ◌≡◌, sym, ap, ◌∙◌, subst, true, false, ◌⊎◌, inl, inr, some, String, List, [], ◌∷◌, ◌++◌, find,
  ◌==◌, eq_iff, if_inversion, arith,
}
use localshell_web_superviso.Models.Mutation.{ActionAttempt, ActionAttemptState, action_unresolved}
use localshell_web_superviso.Registry.Actions.{Store, attempt_of, put_attempt}
use localshell_web_superviso.Registry.Pending.{option-cancel}
use localshell_web_superviso.Registry.Changes.{Change, added, replaced}

pub find-append :
    (xs : List ActionAttempt) (b : ActionAttempt) (id : String) {a : ActionAttempt}
    → find (λ (x : ActionAttempt). x.attempt_id == id) xs ≡ some a
    → find (λ (x : ActionAttempt). x.attempt_id == id) (xs ++ b ∷ []) ≡ some a
unfolding find
find-append [] b id h = cc
find-append (x ∷ xs) b id {a} h = elim (if_inversion (x.attempt_id == id) h) [
  | inl (t, e) ↦ ground (arith, t, e)
  | inr (f, e) ↦ let rest = find-append xs b id e in ground (arith, f, rest)
]

pub find-put :
    (xs : List ActionAttempt) (new : ActionAttempt) (id : String) {a old : ActionAttempt}
    → find (λ (x : ActionAttempt). x.attempt_id == id) xs ≡ some a
    → find (λ (x : ActionAttempt). x.attempt_id == new.attempt_id) xs ≡ some old
    → ((find (λ (x : ActionAttempt). x.attempt_id == id) (put_attempt new xs) ≡ some a))
      ⊎ ((find (λ (x : ActionAttempt). x.attempt_id == id) (put_attempt new xs) ≡ some new)
          × (old ≡ a))
unfolding find put_attempt
find-put [] new id h k = cc
find-put (x ∷ xs) new id {a} {old} h k =
    let n1 = eq_iff x.attempt_id new.attempt_id in
    let n2 = eq_iff x.attempt_id id in
    let n3 = eq_iff new.attempt_id id in
    elim (if_inversion (x.attempt_id == new.attempt_id) k) [
      | inl (t, e) ↦ elim (if_inversion (x.attempt_id == id) h) [
        | inl (s, d) ↦
            inr (ground (arith, t, s, n1, n2, n3), sym (option-cancel e) ∙ option-cancel d)
        | inr (g, d) ↦ inl (ground (arith, t, g, d, n1, n2, n3))
      ]
      | inr (f, e) ↦ elim (if_inversion (x.attempt_id == id) h) [
        | inl (s, d) ↦ inl (ground (arith, f, s, d))
        | inr (g, d) ↦ elim (find-put xs new id d e) [
          | inl r ↦ inl (ground (arith, f, g, r))
          | inr (r, q) ↦ inr (ground (arith, f, g, r), q)
        ]
      ]
    ]

-- an attempt with this id and state
abbrev pub Stands : Store → String → ActionAttemptState → Type 0
Stands st id state = (a : ActionAttempt) × (attempt_of st id ≡ some a) × (a.state ≡ state)

pub Change-Stands :
    (st after : Store) (id : String) (state : ActionAttemptState)
    → Change st after
    → action_unresolved state ≡ false
    → Stands st id state
    → Stands after id state
Change-Stands st after id state (added b _ free same) done (a, found, is) = (
  a,
  subst (λ xs. find (λ (x : ActionAttempt). x.attempt_id == id) xs ≡ some a) (sym same)
      (find-append st.attempts b id found),
  is,
)
Change-Stands st after id state (replaced new old _ read task step same tasks) done (a, found, is) =
    subst
      (λ xs.
        (b : ActionAttempt) × (find (λ (x : ActionAttempt). x.attempt_id == id) xs ≡ some b)
        × (b.state ≡ state))
      (sym same)
      (elim (find-put st.attempts new id found read) [
        | inl r ↦ (a, r, is)
        | inr (r, q) ↦
            (new, r, kept step (subst (λ (x : ActionAttempt). x.state ≡ state) (sym q) is))
      ])
  where
    kept :
        (action_unresolved old.state ≡ true)
          ⊎ ((action_unresolved new.state ≡ false) × (new.state ≡ old.state))
        → old.state ≡ state
        → new.state ≡ state
    kept (inl x) e = cc (x, ap action_unresolved e, done)
    kept (inr (x, y)) e = y ∙ e

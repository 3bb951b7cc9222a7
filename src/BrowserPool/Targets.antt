-- ===== src/BrowserPool/Targets.antt =====
-- src/lws/browser_pool.py, `PagePool.next_probe_target`: the choice of the worker to probe next.
use localshell_web_superviso.Base.{
  ◌≡◌, refl, sym, ap, subst, Bool, true, false, ◌⊎◌, inl, inr, none, some, Bool-cases, String, List,
  [], ◌∷◌, All, str_ltb, if◌then◌else◌, arith,
}
use localshell_web_superviso.BrowserPool.{
  ProbeTarget, PagePool, ℤ, ltz, goes_before, least, next_probe_target,
}

-- `a` is not before `c`, and `b` is: then `a` is not before `b`.
str_not_before : (a b c : String) → str_ltb a c ≡ false → str_ltb b c ≡ true → str_ltb a b ≡ false
unfolding str_ltb
str_not_before String.[] String.[] String.[] h k = refl
str_not_before String.[] String.[] (String.◌∷◌ z c) h k = refl
str_not_before String.[] (String.◌∷◌ y b) String.[] h k = cc
str_not_before String.[] (String.◌∷◌ y b) (String.◌∷◌ z c) h k = cc
str_not_before (String.◌∷◌ x a) String.[] c h k = refl
str_not_before (String.◌∷◌ x a) (String.◌∷◌ y b) String.[] h k = cc
str_not_before (String.◌∷◌ x a) (String.◌∷◌ y b) (String.◌∷◌ z c) h k =
    ground (arith, str_not_before a b c)

ltz_not_before : (a b c : ℤ) → ltz a c ≡ false → ltz b c ≡ true → ltz a b ≡ false
ltz_not_before a b c h k = ground arith

goes_before_trans :
    (a b c : ProbeTarget)
    → goes_before a c ≡ false
    → goes_before b c ≡ true
    → goes_before a b ≡ false
unfolding goes_before
goes_before_trans a b c h k = ground (arith, str_not_before a.worker_id b.worker_id c.worker_id)

str_before : (a b c : String) → str_ltb a c ≡ false → str_ltb b c ≡ true → str_ltb b a ≡ true
unfolding str_ltb
str_before a String.[] String.[] h k = cc
str_before String.[] String.[] (String.◌∷◌ z c) h k = cc
str_before (String.◌∷◌ x a) String.[] (String.◌∷◌ z c) h k = refl
str_before a (String.◌∷◌ y b) String.[] h k = cc
str_before String.[] (String.◌∷◌ y b) (String.◌∷◌ z c) h k = cc
str_before (String.◌∷◌ x a) (String.◌∷◌ y b) (String.◌∷◌ z c) h k = ground (arith, str_before a b c)

goes_before_first :
    (a b c : ProbeTarget)
    → goes_before a c ≡ false
    → goes_before b c ≡ true
    → goes_before b a ≡ true
unfolding goes_before
goes_before_first a b c h k = ground (
  arith,
  str_before a.worker_id b.worker_id c.worker_id,
  str_not_before a.worker_id b.worker_id c.worker_id,
)

str_irrefl : (a : String) → str_ltb a a ≡ false
unfolding str_ltb
str_irrefl String.[] = refl
str_irrefl (String.◌∷◌ x a) = ground (arith, str_irrefl a)

not-true : {b : Bool} → (b ≡ true → ⊥) → b ≡ false
not-true {b = true} h = absurd (h refl)
not-true {b = false} h = refl

-- membership
abbrev pub Among : ProbeTarget → List ProbeTarget → Type 0
Among t [] = ⊥
Among t (x ∷ xs) = (t ≡ x) ⊎ Among t xs

Among-second :
    (a t x : ProbeTarget) (ts : List ProbeTarget) → Among a (t ∷ ts) → Among a (t ∷ x ∷ ts)
Among-second a t x ts (inl e) = inl e
Among-second a t x ts (inr m) = inr (inr m)

goes_before_irrefl : (a : ProbeTarget) → goes_before a a ≡ false
unfolding goes_before
goes_before_irrefl a = ground (arith, str_irrefl a.worker_id)

module _ (t x : ProbeTarget) (ts : List ProbeTarget) where
  least-taken : goes_before x t ≡ true → least x ts ≡ least t (x ∷ ts)
  unfolding least
  least-taken e = ap (λ b. least (if b then x else t) ts) (sym e)

  least-kept : goes_before x t ≡ false → least t ts ≡ least t (x ∷ ts)
  unfolding least
  least-kept e = ap (λ b. least (if b then x else t) ts) (sym e)

least-Among : (t : ProbeTarget) (ts : List ProbeTarget) → Among (least t ts) (t ∷ ts)
unfolding least
least-Among t [] = inl refl
least-Among t (x ∷ ts) = elim (Bool-cases (goes_before x t)) [
  | inl e ↦ subst (λ u. Among u (t ∷ x ∷ ts)) (least-taken t x ts e) (inr (least-Among x ts))
  | inr e ↦
      subst (λ u. Among u (t ∷ x ∷ ts)) (least-kept t x ts e)
        (Among-second (least t ts) t x ts (least-Among t ts))
]

-- Nothing in the list goes before `u`.
abbrev pub IsLeast : ProbeTarget → List ProbeTarget → Type 0
IsLeast u ts = All (λ x. goes_before x u ≡ false) ts

least-IsLeast : (t : ProbeTarget) (ts : List ProbeTarget) → IsLeast (least t ts) (t ∷ ts)
unfolding least
least-IsLeast t [] = (goes_before_irrefl t, tt)
least-IsLeast t (x ∷ ts) = elim (Bool-cases (goes_before x t)) [
  | inl e ↦
      let (a, rest) = least-IsLeast x ts in
      subst (λ u. IsLeast u (t ∷ x ∷ ts)) (least-taken t x ts e)
        (not-true (λ k. cc (e, goes_before_trans x t (least x ts) a k)), (a, rest))
  | inr e ↦
      let (a, rest) = least-IsLeast t ts in
      subst (λ u. IsLeast u (t ∷ x ∷ ts)) (least-kept t x ts e)
        (a, (not-true (λ k. cc (e, goes_before_first t x (least t ts) a k)), rest))
]

-- The worker chosen for the next probe is one of the targets, and none of the targets goes before it:
-- none has a higher priority, and none of the same priority was never probed or probed longer ago.
pub next-IsLeast :
    (p : PagePool) {t : ProbeTarget}
    → next_probe_target p ≡ some t
    → Among t p.probe_targets × IsLeast t p.probe_targets
unfolding next_probe_target
next-IsLeast p {t} h = go p.probe_targets h
  where
    go :
        (ts : List ProbeTarget)
        → (elim ts [ [] ↦ none | x ∷ xs ↦ some (least x xs) ]) ≡ some t
        → Among t ts × IsLeast t ts
    go [] e = cc
    go (x ∷ xs) e =
        let same : least x xs ≡ t = cc e in
        subst (λ u. Among u (x ∷ xs) × IsLeast u (x ∷ xs)) same
          (least-Among x xs, least-IsLeast x xs)

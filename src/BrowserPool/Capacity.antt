-- ===== src/BrowserPool/Capacity.antt =====
-- src/lws/browser_pool.py, `PagePool`: the capacity, and what a refused registration leaves.
use localshell_web_superviso.Base.{
  ℕ, ◌≤◌, ◌≡◌, refl, sym, ap, ◌∙◌, subst, Bool, true, false, inl, inr, Option, none, some, String,
  List, [], ◌∷◌, ◌++◌, length, select, find, ◌==◌, eq_iff, if◌then◌else◌, if_inversion, Outcome,
  Error, ok, raise, arith,
}
use localshell_web_superviso.BrowserPool.{
  PageRole, PageLease, PagePool, ℤ, new_pool, is_active_page, is_probe_page, find_page, change_page,
  drop_page, new_lease, register_over, assign, with_leases, or_restore, enforce_capacity,
  register_page, touch, touch_found, release_page, register_probe_target, remove_probe_target,
  mark_probed,
}

-- No more pages than the pool may have, of either role.
pub record Fits (p : PagePool) : Type 0 where
  pub actives : length (select is_active_page p.leases) ≤ p.max_active_pages
  pub probes : length (select is_probe_page p.leases) ≤ p.max_probe_pages

enforce_capacity-Fits : (p : PagePool) → enforce_capacity p ≡ ok tt → Fits p
unfolding enforce_capacity
enforce_capacity-Fits p h = record { actives = ground arith; probes = ground arith }

drop-append :
    (ls : List PageLease) (l : PageLease) (id : String)
    → find_page ls id ≡ none
    → (l.page_id == id) ≡ true
    → drop_page id (ls ++ l ∷ []) ≡ ls
unfolding find drop_page
drop-append [] l id h same = rw same
drop-append (x ∷ ls) l id h same = elim (if_inversion (x.page_id == id) h) [
  | inl (t, e) ↦ cc
  | inr (f, e) ↦ rw (f) (ap (λ xs. x ∷ xs) (drop-append ls l id e same))
]

option-cancel : {A : Type 0} {a b : A} → some a ≡ some b → a ≡ b
option-cancel h = cc

module _ (f : PageLease → PageLease) (id : String) (x : PageLease) (ls : List PageLease) where
  change-here : (x.page_id == id) ≡ true → change_page f id (x ∷ ls) ≡ f x ∷ ls
  unfolding change_page
  change-here t = rw t

  change-there : (x.page_id == id) ≡ false → change_page f id (x ∷ ls) ≡ x ∷ change_page f id ls
  unfolding change_page
  change-there t = rw t

change-restore :
    (ls : List PageLease) (id : String) (role : PageRole) (worker : Option String) (now : ℕ)
    (old : PageLease)
    → find_page ls id ≡ some old
    → change_page
        (assign old.role old.worker_id old.last_used_at)
        id
        (change_page (assign role worker now) id ls)
      ≡ ls
unfolding find
change-restore [] id role worker now old h = cc
change-restore (x ∷ ls) id role worker now old h = elim (if_inversion (x.page_id == id) h) [
  | inl (t, e) ↦
      ap (change_page (assign old.role old.worker_id old.last_used_at) id)
        (change-here (assign role worker now) id x ls t)
      ∙ change-here (assign old.role old.worker_id old.last_used_at) id (assign role worker now x)
          ls t
      ∙ subst
          (λ (y : PageLease).
            assign y.role y.worker_id y.last_used_at (assign role worker now x) ∷ ls ≡ x ∷ ls)
          (option-cancel e) refl
  | inr (f, e) ↦
      ap (change_page (assign old.role old.worker_id old.last_used_at) id)
        (change-there (assign role worker now) id x ls f)
      ∙ change-there (assign old.role old.worker_id old.last_used_at) id x
          (change_page (assign role worker now) id ls) f
      ∙ ap (λ xs. x ∷ xs) (change-restore ls id role worker now old e)
]

-- What a registration does: it is within the capacity, or it raises and leaves the pool as it was.
pub data Registered (p : PagePool) : Outcome PageLease × PagePool → Type 0 where
  within : (l : PageLease) (after : PagePool) → Fits after → Registered p (ok l, after)
  refused : (e : Error) → Registered p (raise e, p)

or_restore-Registered :
    (p changed : PagePool) (l : PageLease) (undo : List PageLease → List PageLease)
    (r : Outcome (Unit {0}))
    → enforce_capacity changed ≡ r
    → with_leases changed (undo changed.leases) ≡ p
    → Registered p (or_restore r l changed undo)
or_restore-Registered p changed l undo (ok u) e back =
    within l changed (enforce_capacity-Fits changed e)
or_restore-Registered p changed l undo (raise x) e back =
    subst (λ q. Registered p (raise x, q)) (sym back) (refused x)

register_over-Registered :
    (p : PagePool) (id : String) (role : PageRole) (worker : Option String) (now : ℕ)
    (o : Option PageLease)
    → find_page p.leases id ≡ o
    → Registered p (register_over p id role worker now o)
register_over-Registered p id role worker now none n =
    or_restore-Registered p _ _ (drop_page id) _ refl (
      ap (with_leases p)
        (drop-append p.leases (new_lease id role worker now) id n ((eq_iff id id).1 refl)))
register_over-Registered p id role worker now (some old) f =
    or_restore-Registered p _ _ _ _ refl
      (ap (with_leases p) (change-restore p.leases id role worker now old f))

-- A registration either is within the capacity, or it raises and leaves the pool as it was.
pub registration :
    (p : PagePool) (id : String) (role : PageRole) (worker : Option String) (now : ℕ)
    → Registered p (register_page p id role worker now)
unfolding register_page
registration p id role worker now = register_over-Registered p id role worker now _ refl

-- The calls that change the pages or the targets.
pub data Call : Type 0 where
  register : String → PageRole → Option String → ℕ → Call
  touched : String → ℕ → Call
  released : String → Call
  target : String → String → ℤ → Option ℕ → Call
  untarget : String → Call
  probed : String → ℕ → Call

unfoldable pub after_call : PagePool → Call → PagePool
after_call p (register id role worker now) = (register_page p id role worker now).1
after_call p (touched id now) = (touch p id now).1
after_call p (released id) = (release_page p id).1
after_call p (target worker url priority last) =
    (register_probe_target p worker url priority last).1
after_call p (untarget worker) = remove_probe_target p worker
after_call p (probed worker now) = (mark_probed p worker now).1

abbrev pub after_calls : PagePool → List Call → PagePool
after_calls p [] = p
after_calls p (c ∷ cs) = after_calls (after_call p c) cs

module _ (test : PageLease → Bool) where
  drop-le :
      (id : String) (ls : List PageLease)
      → length (select test (drop_page id ls)) ≤ length (select test ls)
  unfolding drop_page select
  drop-le id [] = omega arith
  drop-le id (l ∷ ls) = ground (arith, drop-le id ls)

  change-count :
      (f : PageLease → PageLease) (id : String) (ls : List PageLease)
      → ((l : PageLease) → test (f l) ≡ test l)
      → length (select test (change_page f id ls)) ≡ length (select test ls)
  unfolding change_page select
  change-count f id [] same = refl
  change-count f id (l ∷ ls) same = ground (arith, same l, change-count f id ls same)

Registered-Fits :
    (p : PagePool) (r : Outcome PageLease × PagePool) → Registered p r → Fits p → Fits r.1
Registered-Fits p _ (within l after fits) h = fits
Registered-Fits p _ (refused e) h = h

touch_found-Fits :
    (p : PagePool) (id : String) (now : ℕ) (o : Option PageLease)
    → Fits p
    → Fits (touch_found p id now o).1
touch_found-Fits p id now none h = h
touch_found-Fits p id now (some l) h =
    let used = λ (x : PageLease). record x { last_used_at = now } in
    record {
      actives =
          subst (λ n. n ≤ p.max_active_pages)
            (sym (change-count is_active_page used id p.leases (λ x. refl))) h.actives;
      probes =
          subst (λ n. n ≤ p.max_probe_pages)
            (sym (change-count is_probe_page used id p.leases (λ x. refl))) h.probes;
    }

if-Fits {ℓ} :
    {A : Type ℓ} (b : Bool) (x y : A × PagePool) → Fits x.1 → Fits y.1 → Fits (if b then x else y).1
if-Fits true x y h k = h
if-Fits false x y h k = k

call-Fits : (p : PagePool) (c : Call) → Fits p → Fits (after_call p c)
unfolding after_call touch release_page register_probe_target remove_probe_target mark_probed
call-Fits p (register id role worker now) h =
    Registered-Fits p _ (registration p id role worker now) h
call-Fits p (touched id now) h = touch_found-Fits p id now (find_page p.leases id) h
call-Fits p (released id) h =
    let a = drop-le is_active_page id p.leases in
    let b = drop-le is_probe_page id p.leases in
    let c = h.actives in let d = h.probes in record { actives = omega arith; probes = omega arith }
call-Fits p (target worker url priority last) h = record { actives = h.actives; probes = h.probes }
call-Fits p (untarget worker) h = record { actives = h.actives; probes = h.probes }
call-Fits p (probed worker now) h =
    if-Fits _ _ _ (record { actives = h.actives; probes = h.probes }) h

-- Whatever calls follow one another, a new pool never has more active or more probe pages than its
-- limits.
pub pool-Fits :
    (max_active max_probe : ℕ) (cs : List Call)
    → Fits (after_calls (new_pool max_active max_probe) cs)
unfolding new_pool select
pool-Fits max_active max_probe cs =
    go cs (new_pool max_active max_probe) (record { actives = omega arith; probes = omega arith })
  where
    go : (cs : List Call) (p : PagePool) → Fits p → Fits (after_calls p cs)
    go [] p h = h
    go (c ∷ cs) p h = go cs (after_call p c) (call-Fits p c h)

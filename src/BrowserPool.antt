-- ===== src/BrowserPool.antt =====
-- src/lws/browser_pool.py: the pages that are leased, and the workers to probe. The dictionaries are
-- lists in their insertion order; the lease that a call returns is the pool's own object. A caller
-- without a time passes `time.time()`, so that every call here has one.
pub mod Capacity
pub mod Targets
mod Tests
use localshell_web_superviso.Base.{
  ℕ, max, Bool, true, false, not, ◌&&◌, ◌||◌, Option, none, some, is_some, String, List, [], ◌∷◌,
  ◌++◌, length, select, find, sort_by, ◌==◌, ltb, eqb, str_ltb, if◌then◌else◌, Outcome, ok, raise,
  pool_error, raise_if, ◌>>=◌, ◌>>◌, any, Letters,
}

pub data PageRole : Type 0 where
  active probe : PageRole

pub record PageLease : Type 0 where
  pub page_id : String
  pub role : PageRole
  pub worker_id : Option String
  pub opened_at : ℕ
  pub last_used_at : ℕ

-- an integer: `pos n`, or `negsuc n` for -(n + 1)
pub data ℤ : Type 0 where
  pos negsuc : ℕ → ℤ

pub record ProbeTarget : Type 0 where
  pub worker_id : String
  pub conversation_url : String
  pub last_probed_at : Option ℕ
  pub priority : ℤ

pub record PagePool : Type 0 where
  pub max_active_pages : ℕ
  pub max_probe_pages : ℕ
  pub leases : List PageLease
  pub probe_targets : List ProbeTarget

-- `ProbeResourcePolicy.should_block`
unfoldable pub should_block : Letters → List String → String → Bool
should_block letters blocked kind = any (λ t. t == letters.lower kind) blocked

-- `PagePool()`
unfoldable pub new_pool : ℕ → ℕ → PagePool
new_pool max_active max_probe = record {
  max_active_pages = max 1 max_active;
  max_probe_pages = max 1 max_probe;
  leases = [];
  probe_targets = [];
}

abbrev pub is_active_page : PageLease → Bool
is_active_page l = elim l.role [ PageRole.active ↦ true | PageRole.probe ↦ false ]

abbrev pub is_probe_page : PageLease → Bool
is_probe_page l = elim l.role [ PageRole.active ↦ false | PageRole.probe ↦ true ]

abbrev role_value : PageRole → String
role_value PageRole.active = "active"
role_value PageRole.probe = "probe"

-- `PagePool.leases()`
unfoldable pub sorted_leases : PagePool → List PageLease
sorted_leases p =
    sort_by
      (λ (a b : PageLease).
        str_ltb (role_value a.role) (role_value b.role)
        || (role_value a.role == role_value b.role && str_ltb a.page_id b.page_id))
      p.leases

abbrev pub find_page : List PageLease → String → Option PageLease
find_page ls id = find (λ (l : PageLease). l.page_id == id) ls

-- assignment to the lease with this id
unfoldable pub change_page : (PageLease → PageLease) → String → List PageLease → List PageLease
change_page f id [] = []
change_page f id (l ∷ ls) = if l.page_id == id then f l ∷ ls else l ∷ change_page f id ls

-- `self._leases.pop(page_id, None)`
unfoldable pub drop_page : String → List PageLease → List PageLease
drop_page id [] = []
drop_page id (l ∷ ls) = if l.page_id == id then ls else l ∷ drop_page id ls

-- `_enforce_capacity`
unfoldable pub enforce_capacity : PagePool → Outcome (Unit {0})
enforce_capacity p = do
  raise_if (ltb p.max_active_pages (length (select is_active_page p.leases)))
      (pool_error "active page capacity exceeded")
  raise_if (ltb p.max_probe_pages (length (select is_probe_page p.leases)))
      (pool_error "probe page capacity exceeded")

abbrev pub with_leases : PagePool → List PageLease → PagePool
with_leases p ls = record p { leases = ls }

abbrev pub assign : PageRole → Option String → ℕ → PageLease → PageLease
assign role worker now l = record l { role = role; worker_id = worker; last_used_at = now }

abbrev pub new_lease : String → PageRole → Option String → ℕ → PageLease
new_lease id role worker now = record {
  page_id = id;
  role = role;
  worker_id = worker;
  opened_at = now;
  last_used_at = now;
}

-- `changed` if it is within the capacity, else what the `except` clause makes of it
abbrev pub or_restore :
    Outcome (Unit {0})
    → PageLease
    → PagePool
    → (List PageLease → List PageLease)
    → Outcome PageLease × PagePool
or_restore (ok u) l changed undo = (ok l, changed)
or_restore (raise e) l changed undo = (raise e, with_leases changed (undo changed.leases))

-- the rest of `register_page`, with `existing`
abbrev pub register_over :
    PagePool
    → String
    → PageRole
    → Option String
    → ℕ
    → Option PageLease
    → Outcome PageLease × PagePool
register_over p id role worker now (some existing) =
    let changed = with_leases p (change_page (assign role worker now) id p.leases) in
    or_restore (enforce_capacity changed) (assign role worker now existing) changed
      (change_page (assign existing.role existing.worker_id existing.last_used_at) id)
register_over p id role worker now none =
    let lease = new_lease id role worker now in
    let changed = with_leases p (p.leases ++ lease ∷ []) in
    or_restore (enforce_capacity changed) lease changed (drop_page id)

unfoldable pub register_page :
    PagePool → String → PageRole → Option String → ℕ → Outcome PageLease × PagePool
register_page p id role worker now = register_over p id role worker now (find_page p.leases id)

abbrev pub touch_found : PagePool → String → ℕ → Option PageLease → Outcome (Unit {0}) × PagePool
touch_found p id now none = (raise (pool_error "unknown page lease"), p)
touch_found p id now (some l) = (
  ok tt,
  with_leases p (change_page (λ (x : PageLease). record x { last_used_at = now }) id p.leases),
)

unfoldable pub touch : PagePool → String → ℕ → Outcome (Unit {0}) × PagePool
touch p id now = touch_found p id now (find_page p.leases id)

unfoldable pub release_page : PagePool → String → Option PageLease × PagePool
release_page p id = (find_page p.leases id, with_leases p (drop_page id p.leases))

-- `self._probe_targets[worker_id] = target`
abbrev pub put_target : ProbeTarget → List ProbeTarget → List ProbeTarget
put_target t [] = t ∷ []
put_target t (x ∷ xs) = if x.worker_id == t.worker_id then t ∷ xs else x ∷ put_target t xs

unfoldable pub register_probe_target :
    PagePool → String → String → ℤ → Option ℕ → ProbeTarget × PagePool
register_probe_target p worker url priority last =
    let t : ProbeTarget = record {
      worker_id = worker;
      conversation_url = url;
      last_probed_at = last;
      priority = priority;
    } in
    (t, record p { probe_targets = put_target t p.probe_targets })

abbrev drop_target : String → List ProbeTarget → List ProbeTarget
drop_target id [] = []
drop_target id (t ∷ ts) = if t.worker_id == id then ts else t ∷ drop_target id ts

unfoldable pub remove_probe_target : PagePool → String → PagePool
remove_probe_target p worker = record p { probe_targets = drop_target worker p.probe_targets }

-- `a < b`, `a == b` on integers
abbrev pub ltz : ℤ → ℤ → Bool
ltz (pos a) (pos b) = ltb a b
ltz (pos a) (negsuc b) = false
ltz (negsuc a) (pos b) = true
ltz (negsuc a) (negsuc b) = ltb b a

-- `a < b` on optional times, with none first
abbrev pub earlier : Option ℕ → Option ℕ → Bool
earlier none none = false
earlier none (some b) = true
earlier (some a) none = false
earlier (some a) (some b) = ltb a b

-- The key of `min`: a higher priority, then never or longest ago probed, then the worker's id.
unfoldable pub goes_before : ProbeTarget → ProbeTarget → Bool
goes_before a b =
    ltz b.priority a.priority
    || not (ltz a.priority b.priority)
      && (earlier a.last_probed_at b.last_probed_at
          || not (earlier b.last_probed_at a.last_probed_at) && str_ltb a.worker_id b.worker_id)

-- Python's `min`: the first of the least members
unfoldable pub least : ProbeTarget → List ProbeTarget → ProbeTarget
least t [] = t
least t (x ∷ xs) = least (if goes_before x t then x else t) xs

unfoldable pub next_probe_target : PagePool → Option ProbeTarget
next_probe_target p = elim p.probe_targets [ [] ↦ none | t ∷ ts ↦ some (least t ts) ]

abbrev pub mark_target : String → ℕ → List ProbeTarget → List ProbeTarget
mark_target id now [] = []
mark_target id now (t ∷ ts) =
    if t.worker_id == id
    then record t { last_probed_at = some now } ∷ ts
    else t ∷ mark_target id now ts

unfoldable pub mark_probed : PagePool → String → ℕ → Outcome (Unit {0}) × PagePool
mark_probed p worker now =
    if any (λ (t : ProbeTarget). t.worker_id == worker) p.probe_targets
    then (ok tt, record p { probe_targets = mark_target worker now p.probe_targets })
    else (raise (pool_error "unknown probe target"), p)

-- ===== src/WorkerProtocol/Workers/Active.antt =====
-- The active leases after the tuple of workers has been sorted or a lease replaced.
use localshell_web_superviso.Base.{◌≡◌, refl, true, false, some, List, [], ◌∷◌, eq_iff, arith}
use localshell_web_superviso.WorkerProtocol.State.{WorkerLease, is_active}
use localshell_web_superviso.WorkerProtocol.Workers.{
  find_worker, active_workers, insert_worker, sorted_workers, substitute_worker, replace_worker,
  has_worker,
}
use localshell_web_superviso.WorkerProtocol.Workers.Lookup.{Unique}

active-insert_inactive :
    (w : WorkerLease) (ws : List WorkerLease)
    → is_active w.status ≡ false
    → active_workers (insert_worker w ws) ≡ active_workers ws
unfolding insert_worker active_workers
active-insert_inactive w [] h = ground arith
active-insert_inactive w (x ∷ xs) h = ground (arith, active-insert_inactive w xs)

active-insert_only :
    (w : WorkerLease) (ws : List WorkerLease)
    → is_active w.status ≡ true
    → active_workers ws ≡ []
    → active_workers (insert_worker w ws) ≡ w ∷ []
unfolding insert_worker active_workers
active-insert_only w [] h e = ground arith
active-insert_only w (x ∷ xs) h e = ground (arith, active-insert_only w xs)

pub active-sorted_none :
    (ws : List WorkerLease) → active_workers ws ≡ [] → active_workers (sorted_workers ws) ≡ []
unfolding sorted_workers active_workers
active-sorted_none [] e = refl
active-sorted_none (w ∷ ws) e =
    ground (arith, active-insert_inactive w (sorted_workers ws), active-sorted_none ws)

pub active-sorted_one :
    (ws : List WorkerLease) (a : WorkerLease)
    → active_workers ws ≡ a ∷ []
    → active_workers (sorted_workers ws) ≡ a ∷ []
unfolding sorted_workers active_workers
active-sorted_one [] a e = ground arith
active-sorted_one (w ∷ ws) a e = ground (
  arith,
  active-insert_inactive w (sorted_workers ws),
  active-insert_only w (sorted_workers ws),
  active-sorted_none ws,
  active-sorted_one ws a,
)

substitute_idle :
    (ws : List WorkerLease) (v : WorkerLease)
    → active_workers ws ≡ []
    → is_active v.status ≡ false
    → active_workers (substitute_worker ws v) ≡ []
unfolding substitute_worker active_workers
substitute_idle [] v e h = refl
substitute_idle (w ∷ ws) v e h = ground (arith, substitute_idle ws v)

substitute_ended :
    (ws : List WorkerLease) (a v : WorkerLease)
    → active_workers ws ≡ a ∷ []
    → v.worker_id ≡ a.worker_id
    → is_active v.status ≡ false
    → active_workers (substitute_worker ws v) ≡ []
unfolding substitute_worker active_workers
substitute_ended [] a v e i h = ground arith
substitute_ended (w ∷ ws) a v e i h =
    ground (arith, substitute_ended ws a v, substitute_idle ws v, eq_iff w.worker_id v.worker_id)

substitute_absent :
    (ws : List WorkerLease) (v : WorkerLease)
    → has_worker ws v.worker_id ≡ false
    → active_workers (substitute_worker ws v) ≡ active_workers ws
unfolding substitute_worker active_workers has_worker
substitute_absent [] v h = refl
substitute_absent (w ∷ ws) v h = ground (arith, substitute_absent ws v)

-- An inactive lease becomes active, where none is.
substitute_claimed :
    (ws : List WorkerLease) (v : WorkerLease) {old : WorkerLease}
    → Unique ws
    → active_workers ws ≡ []
    → find_worker ws v.worker_id ≡ some old
    → is_active v.status ≡ true
    → active_workers (substitute_worker ws v) ≡ v ∷ []
unfolding substitute_worker active_workers find_worker
substitute_claimed [] v u e f h = ground arith
substitute_claimed (w ∷ ws) v {old} u e f h = ground (
  arith,
  substitute_claimed ws v {old = old},
  substitute_absent ws v,
  eq_iff w.worker_id v.worker_id,
)

has-active :
    (ws : List WorkerLease) (a : WorkerLease)
    → active_workers ws ≡ a ∷ []
    → has_worker ws a.worker_id ≡ true
unfolding active_workers has_worker
has-active [] a e = ground arith
has-active (w ∷ ws) a e = ground (arith, has-active ws a, eq_iff w.worker_id a.worker_id)

substitute_renewed :
    (ws : List WorkerLease) (a v : WorkerLease)
    → Unique ws
    → active_workers ws ≡ a ∷ []
    → v.worker_id ≡ a.worker_id
    → is_active v.status ≡ true
    → active_workers (substitute_worker ws v) ≡ v ∷ []
unfolding substitute_worker active_workers
substitute_renewed [] a v u e i h = ground arith
substitute_renewed (w ∷ ws) a v u e i h = ground (
  arith,
  substitute_renewed ws a v,
  substitute_absent ws v,
  has-active ws a,
  eq_iff w.worker_id v.worker_id,
)

-- Replacing the active lease by one that has ended leaves no active lease.
pub active-replace_ended :
    (ws : List WorkerLease) (a v : WorkerLease)
    → active_workers ws ≡ a ∷ []
    → v.worker_id ≡ a.worker_id
    → is_active v.status ≡ false
    → active_workers (replace_worker ws v) ≡ []
unfolding replace_worker
active-replace_ended ws a v e i h =
    active-sorted_none (substitute_worker ws v) (substitute_ended ws a v e i h)

-- Where no lease is active, a lease that becomes active is the only one.
pub active-replace_claimed :
    (ws : List WorkerLease) (v : WorkerLease) {old : WorkerLease}
    → Unique ws
    → active_workers ws ≡ []
    → find_worker ws v.worker_id ≡ some old
    → is_active v.status ≡ true
    → active_workers (replace_worker ws v) ≡ v ∷ []
unfolding replace_worker
active-replace_claimed ws v u e f h =
    active-sorted_one (substitute_worker ws v) v (substitute_claimed ws v u e f h)

-- A renewal of the active lease keeps it the only one.
pub active-replace_renewed :
    (ws : List WorkerLease) (a v : WorkerLease)
    → Unique ws
    → active_workers ws ≡ a ∷ []
    → v.worker_id ≡ a.worker_id
    → is_active v.status ≡ true
    → active_workers (replace_worker ws v) ≡ v ∷ []
unfolding replace_worker
active-replace_renewed ws a v u e i h =
    active-sorted_one (substitute_worker ws v) v (substitute_renewed ws a v u e i h)

-- The active lease is in the tuple.
pub find-active :
    (ws : List WorkerLease) (a : WorkerLease)
    → Unique ws
    → active_workers ws ≡ a ∷ []
    → (find_worker ws a.worker_id ≡ some a) × (is_active a.status ≡ true)
unfolding active_workers find_worker has_worker
find-active [] a u e = ground arith
find-active (w ∷ ws) a u e =
    ground (arith, find-active ws a, has-active ws a, eq_iff w.worker_id a.worker_id)

-- ===== src/WorkerProtocol/Workers.antt =====
-- src/lws/worker_protocol.py, the tuple of workers of a snapshot: lookup, replacement, sorting.
pub mod Lookup
pub mod Active
pub mod Members
use localshell_web_superviso.Base.{
  ℕ, Bool, true, false, ◌||◌, Option, none, some, String, List, [], ◌∷◌, map, ◌==◌, str_ltb,
  if◌then◌else◌, suc,
}
use localshell_web_superviso.WorkerProtocol.State.{WorkerLease, WorkerTaskState, is_active}

-- `next((worker for worker in workers if worker.worker_id == worker_id), None)`
unfoldable pub find_worker : List WorkerLease → String → Option WorkerLease
find_worker [] worker_id = none
find_worker (w ∷ ws) worker_id =
    if w.worker_id == worker_id then some w else find_worker ws worker_id

abbrev pub worker_by_id : WorkerTaskState → String → Option WorkerLease
worker_by_id s worker_id = find_worker s.workers worker_id

-- `[worker for worker in workers if worker.status == WorkerLeaseStatus.ACTIVE]`
unfoldable pub active_workers : List WorkerLease → List WorkerLease
active_workers [] = []
active_workers (w ∷ ws) =
    let rest = active_workers ws in if is_active w.status then w ∷ rest else rest

-- Python's stable `sorted(workers, key=worker_id)`, by insertion.
unfoldable pub insert_worker : WorkerLease → List WorkerLease → List WorkerLease
insert_worker w [] = w ∷ []
insert_worker w (x ∷ xs) =
    let rest = insert_worker w xs in
    if str_ltb x.worker_id w.worker_id then x ∷ rest else w ∷ x ∷ xs

unfoldable pub sorted_workers : List WorkerLease → List WorkerLease
sorted_workers [] = []
sorted_workers (w ∷ ws) = insert_worker w (sorted_workers ws)

-- the generator `updated if worker.worker_id == updated.worker_id else worker`
unfoldable pub substitute_worker : List WorkerLease → WorkerLease → List WorkerLease
substitute_worker [] updated = []
substitute_worker (w ∷ ws) updated =
    (if w.worker_id == updated.worker_id then updated else w) ∷ substitute_worker ws updated

unfoldable pub replace_worker : List WorkerLease → WorkerLease → List WorkerLease
replace_worker ws updated = sorted_workers (substitute_worker ws updated)

-- `worker_id in {worker.worker_id for worker in workers}`
unfoldable pub has_worker : List WorkerLease → String → Bool
has_worker [] worker_id = false
has_worker (w ∷ ws) worker_id = w.worker_id == worker_id || has_worker ws worker_id

-- `len({worker.worker_id for worker in workers})`
unfoldable pub distinct_ids : List WorkerLease → ℕ
unfolding has_worker
distinct_ids [] = 0
distinct_ids (w ∷ ws) =
    let rest = distinct_ids ws in if has_worker ws w.worker_id then rest else suc rest

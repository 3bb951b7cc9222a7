-- ===== src/WorkerProtocol/Workers/Members.antt =====
-- Predicates on all leases, and the active leases, after sorting, replacing or registering.
use localshell_web_superviso.Base.{
  ◌≡◌, false, List, [], ◌∷◌, ◌++◌, All, arith, str_ltb, ◌==◌, Bool-cases, inl, inr,
}
use localshell_web_superviso.WorkerProtocol.State.{WorkerLease, is_active}
use localshell_web_superviso.WorkerProtocol.Workers.{
  active_workers, insert_worker, sorted_workers, substitute_worker, replace_worker,
}

module _ (P : WorkerLease → Type 0) where
  All-insert :
      (w : WorkerLease) (ws : List WorkerLease) → P w → All P ws → All P (insert_worker w ws)
  unfolding insert_worker
  All-insert w [] h hs = (h, tt)
  All-insert w (x ∷ xs) h hs = elim (Bool-cases (str_ltb x.worker_id w.worker_id)) [
    | inl later ↦ rw later (hs.0, All-insert w xs h hs.1)
    | inr here ↦ rw here (h, hs)
  ]

  pub All-sorted : (ws : List WorkerLease) → All P ws → All P (sorted_workers ws)
  unfolding sorted_workers
  All-sorted [] hs = hs
  All-sorted (w ∷ ws) hs = All-insert w (sorted_workers ws) hs.0 (All-sorted ws hs.1)

  All-substitute :
      (ws : List WorkerLease) (v : WorkerLease) → P v → All P ws → All P (substitute_worker ws v)
  unfolding substitute_worker
  All-substitute [] v h hs = hs
  All-substitute (w ∷ ws) v h hs = elim (Bool-cases (w.worker_id == v.worker_id)) [
    | inl same ↦ rw same (h, All-substitute ws v h hs.1)
    | inr other ↦ rw other (hs.0, All-substitute ws v h hs.1)
  ]

  pub All-replace :
      (ws : List WorkerLease) (v : WorkerLease) → P v → All P ws → All P (replace_worker ws v)
  unfolding replace_worker
  All-replace ws v h hs = All-sorted (substitute_worker ws v) (All-substitute ws v h hs)

  pub All-append-one :
      (ws : List WorkerLease) (v : WorkerLease) → P v → All P ws → All P (ws ++ v ∷ [])
  All-append-one [] v h hs = (h, tt)
  All-append-one (w ∷ ws) v h hs = (hs.0, All-append-one ws v h hs.1)

pub active-append-one :
    (ws : List WorkerLease) (v : WorkerLease)
    → is_active v.status ≡ false
    → active_workers (ws ++ v ∷ []) ≡ active_workers ws
unfolding active_workers
active-append-one [] v h = ground arith
active-append-one (w ∷ ws) v h = ground (arith, active-append-one ws v)

-- ===== src/WorkerProtocol/Workers/Lookup.antt =====
-- Looking a worker up after the tuple of workers has been sorted or a lease replaced.
use localshell_web_superviso.Base.{
  ◌≡◌, refl, subst, false, ◌||◌, none, some, String, List, [], ◌∷◌, ◌++◌, ◌==◌, eq_iff, str_ltb,
  if◌then◌else◌, arith, Bool-cases, inl, inr, ◌∙◌,
}
use localshell_web_superviso.WorkerProtocol.State.{WorkerLease}
use localshell_web_superviso.WorkerProtocol.Workers.{
  find_worker, insert_worker, sorted_workers, substitute_worker, replace_worker, has_worker,
}

-- No two leases have one worker id.
abbrev pub Unique : List WorkerLease → Type 0
Unique [] = Unit
Unique (w ∷ ws) = (has_worker ws w.worker_id ≡ false) × Unique ws

pub has-insert :
    (w : WorkerLease) (ws : List WorkerLease) (k : String)
    → has_worker (insert_worker w ws) k ≡ (w.worker_id == k || has_worker ws k)
unfolding insert_worker has_worker
has-insert w [] k = refl
has-insert w (x ∷ xs) k = ground (arith, has-insert w xs k)

pub has-sorted :
    (ws : List WorkerLease) (k : String) → has_worker (sorted_workers ws) k ≡ has_worker ws k
unfolding sorted_workers has_worker
has-sorted [] k = refl
has-sorted (w ∷ ws) k = ground (arith, has-insert w (sorted_workers ws) k, has-sorted ws k)

pub find-insert :
    (w : WorkerLease) (ws : List WorkerLease) (k : String)
    → has_worker ws w.worker_id ≡ false
    → find_worker (insert_worker w ws) k ≡ (if w.worker_id == k then some w else find_worker ws k)
unfolding insert_worker has_worker find_worker
find-insert w [] k h = refl
find-insert w (x ∷ xs) k h = ground (
  arith,
  find-insert w xs k,
  eq_iff x.worker_id w.worker_id,
  eq_iff x.worker_id k,
  eq_iff w.worker_id k,
)

pub find-sorted :
    (ws : List WorkerLease) (k : String)
    → Unique ws
    → find_worker (sorted_workers ws) k ≡ find_worker ws k
unfolding sorted_workers find_worker
find-sorted [] k u = refl
find-sorted (w ∷ ws) k u =
    ground (arith, find-insert w (sorted_workers ws) k, find-sorted ws k, has-sorted ws w.worker_id)

Unique-insert :
    (w : WorkerLease) (ws : List WorkerLease)
    → has_worker ws w.worker_id ≡ false
    → Unique ws
    → Unique (insert_worker w ws)
unfolding insert_worker has_worker
Unique-insert w [] h u = ground arith
Unique-insert w (x ∷ xs) h u = elim (Bool-cases (str_ltb x.worker_id w.worker_id)) [
  | inl later ↦ rw later (
      ground (
        arith,
        Unique-insert w xs,
        has-insert w xs x.worker_id,
        eq_iff x.worker_id w.worker_id,
        eq_iff w.worker_id x.worker_id,
      ))
  | inr here ↦ rw here (ground arith)
]

pub Unique-sorted : (ws : List WorkerLease) → Unique ws → Unique (sorted_workers ws)
unfolding sorted_workers
Unique-sorted [] u = u
Unique-sorted (w ∷ ws) u =
    Unique-insert w (sorted_workers ws) (rw has-sorted u.0) (Unique-sorted ws u.1)

pub has-substitute :
    (ws : List WorkerLease) (v : WorkerLease) (k : String)
    → has_worker (substitute_worker ws v) k ≡ has_worker ws k
unfolding substitute_worker has_worker
has-substitute [] v k = refl
has-substitute (w ∷ ws) v k = ground (arith, has-substitute ws v k, eq_iff w.worker_id v.worker_id)

Unique-substitute :
    (ws : List WorkerLease) (v : WorkerLease) → Unique ws → Unique (substitute_worker ws v)
unfolding substitute_worker
Unique-substitute [] v u = u
Unique-substitute (w ∷ ws) v u =
    ground (
      arith,
      has-substitute ws v w.worker_id,
      Unique-substitute ws v,
      eq_iff w.worker_id v.worker_id,
    )

pub Unique-replace :
    (ws : List WorkerLease) (v : WorkerLease) → Unique ws → Unique (replace_worker ws v)
unfolding replace_worker
Unique-replace ws v u = Unique-sorted (substitute_worker ws v) (Unique-substitute ws v u)

find-substitute_ne :
    (ws : List WorkerLease) (v : WorkerLease) (k : String)
    → (v.worker_id == k) ≡ false
    → find_worker (substitute_worker ws v) k ≡ find_worker ws k
unfolding substitute_worker find_worker
find-substitute_ne [] v k h = refl
find-substitute_ne (w ∷ ws) v k h =
    ground (arith, find-substitute_ne ws v k, eq_iff w.worker_id v.worker_id)

find-substitute_self :
    (ws : List WorkerLease) (v old : WorkerLease)
    → find_worker ws v.worker_id ≡ some old
    → find_worker (substitute_worker ws v) v.worker_id ≡ some v
unfolding substitute_worker find_worker
find-substitute_self [] v old h = ground arith
find-substitute_self (w ∷ ws) v old h = ground (
  arith,
  find-substitute_self ws v old,
  eq_iff w.worker_id v.worker_id,
  eq_iff v.worker_id v.worker_id,
)

find-substitute :
    (ws : List WorkerLease) (v : WorkerLease) (k : String) {old : WorkerLease}
    → find_worker ws v.worker_id ≡ some old
    → find_worker (substitute_worker ws v) k
      ≡ (if v.worker_id == k then some v else find_worker ws k)
find-substitute ws v k {old} h = elim (Bool-cases (v.worker_id == k)) [
  | inl same ↦ rw same (
      subst (λ i. find_worker (substitute_worker ws v) i ≡ some v) ((eq_iff v.worker_id k).0 same)
        (find-substitute_self ws v old h))
  | inr other ↦ rw other (find-substitute_ne ws v k other)
]

-- The replaced lease is found under its id, and every other lookup is as before.
pub find-replace :
    (ws : List WorkerLease) (v : WorkerLease) (k : String) {old : WorkerLease}
    → Unique ws
    → find_worker ws v.worker_id ≡ some old
    → find_worker (replace_worker ws v) k ≡ (if v.worker_id == k then some v else find_worker ws k)
unfolding replace_worker
find-replace ws v k u h =
    find-sorted (substitute_worker ws v) k (Unique-substitute ws v u) ∙ find-substitute ws v k h

pub has-append-one :
    (ws : List WorkerLease) (v : WorkerLease) (k : String)
    → has_worker (ws ++ v ∷ []) k ≡ (has_worker ws k || v.worker_id == k)
unfolding has_worker
has-append-one [] v k = ground arith
has-append-one (w ∷ ws) v k = ground (arith, has-append-one ws v k)

pub Unique-append-one :
    (ws : List WorkerLease) (v : WorkerLease)
    → Unique ws
    → find_worker ws v.worker_id ≡ none
    → Unique (ws ++ v ∷ [])
unfolding find_worker has_worker
Unique-append-one [] v u h = (refl, tt)
Unique-append-one (w ∷ ws) v u h = ground (
  arith,
  Unique-append-one ws v,
  has-append-one ws v w.worker_id,
  eq_iff w.worker_id v.worker_id,
  eq_iff v.worker_id w.worker_id,
)

pub find-append-one :
    (ws : List WorkerLease) (v : WorkerLease) (k : String)
    → find_worker ws v.worker_id ≡ none
    → find_worker (ws ++ v ∷ []) k ≡ (if v.worker_id == k then some v else find_worker ws k)
unfolding find_worker
find-append-one [] v k h = refl
find-append-one (w ∷ ws) v k h = ground (
  arith,
  find-append-one ws v k,
  eq_iff w.worker_id v.worker_id,
  eq_iff w.worker_id k,
  eq_iff v.worker_id k,
)

-- the id of the lease that a lookup finds
pub find-id :
    (ws : List WorkerLease) (k : String) {w : WorkerLease}
    → find_worker ws k ≡ some w
    → w.worker_id ≡ k
unfolding find_worker
find-id [] k h = ground arith
find-id (x ∷ xs) k {w} h = ground (arith, find-id xs k {w = w}, eq_iff x.worker_id k)

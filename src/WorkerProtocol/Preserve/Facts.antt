-- ===== src/WorkerProtocol/Preserve/Facts.antt =====
-- src/lws/worker_protocol.py: what a valid snapshot says of its leases and its current worker.
use localshell_web_superviso.Base.{
  ℕ, ◌<◌, ◌≡◌, sym, ap, subst, true, Option, none, some, is_some, String, List, [], ◌∷◌, All, arith,
  ◌==◌, eq_iff, ◌∙◌, some-cancel, Bool-cases, inl, inr,
}
use localshell_web_superviso.WorkerProtocol.State.{
  WorkerLease, WorkerTaskState, is_candidate, is_active,
}
use localshell_web_superviso.WorkerProtocol.Workers.{
  find_worker, active_workers, sorted_workers, replace_worker,
}
use localshell_web_superviso.WorkerProtocol.Workers.Lookup.{Unique, find-replace}
use localshell_web_superviso.WorkerProtocol.Workers.Active.{
  active-sorted_none, active-sorted_one, find-active,
}
use localshell_web_superviso.WorkerProtocol.Validity.{IsValid, CurrentIs, HandoffIs}

-- a registered lease belongs to the task
pub task_of_find :
    (id : String) (ws : List WorkerLease) (k : String) {w : WorkerLease}
    → All (λ w. w.task_id ≡ id) ws
    → find_worker ws k ≡ some w
    → w.task_id ≡ id
unfolding find_worker
task_of_find id [] k h e = ground arith
task_of_find id (x ∷ xs) k {w} h e = ground (arith, task_of_find id xs k {w = w})

pub CurrentIs-sorted :
    (current : Option String) (generation : ℕ) (ws : List WorkerLease)
    → CurrentIs current generation (active_workers ws)
    → CurrentIs current generation (active_workers (sorted_workers ws))
CurrentIs-sorted none g ws c = active-sorted_none ws c
CurrentIs-sorted (some k) g ws (a, e, i, n, pos, x) = (a, active-sorted_one ws a e, i, n, pos, x)

-- A handoff stays in order where the lookup of its target does not change.
pub HandoffIs-find :
    (target : Option String) (requested : Option ℕ) (current : Option String)
    (ws ws' : List WorkerLease)
    → ((k : String) (w : WorkerLease)
        → find_worker ws k ≡ some w
        → is_candidate w.status ≡ true
        → find_worker ws' k ≡ some w)
    → HandoffIs target requested current ws
    → HandoffIs target requested current ws'
HandoffIs-find none r c ws ws' keep h = h
HandoffIs-find (some k) r c ws ws' keep (w, found, cand, x, y) =
    (w, keep k w found cand, cand, x, y)

-- The current worker's lease is the active one.
pub holder_lem :
    {s : WorkerTaskState} (id : String) {w : WorkerLease}
    → IsValid s
    → s.current_worker_id ≡ some id
    → find_worker s.workers id ≡ some w
    → (active_workers s.workers ≡ w ∷ [])
      × (is_active w.status ≡ true)
      × (w.generation ≡ some s.generation)
      × (0 < s.generation)
      × (is_some w.lease_expires_at ≡ true)
holder_lem {s} id {w} v current found = go current_at
  where
    current_at : CurrentIs (some id) s.generation (active_workers s.workers)
    current_at = subst (λ o. CurrentIs o s.generation (active_workers s.workers)) current v.current

    go :
        CurrentIs (some id) s.generation (active_workers s.workers)
        → (active_workers s.workers ≡ w ∷ [])
          × (is_active w.status ≡ true)
          × (w.generation ≡ some s.generation)
          × (0 < s.generation)
          × (is_some w.lease_expires_at ≡ true)
    go (a, e, i, n, pos, x) =
        let at = find-active s.workers a v.unique e in
        let same : a ≡ w = some-cancel (sym at.0 ∙ ap (find_worker s.workers) i ∙ found) in
        subst
          (λ (b : WorkerLease).
            (active_workers s.workers ≡ b ∷ [])
            × (is_active b.status ≡ true)
            × (b.generation ≡ some s.generation)
            × (0 < s.generation)
            × (is_some b.lease_expires_at ≡ true))
          same (e, at.1, n, pos, x)

-- Replacing an active lease keeps the lookup of a candidate.
pub candidate_kept :
    (ws : List WorkerLease) (w u : WorkerLease) (k : String) (v : WorkerLease)
    → Unique ws
    → u.worker_id ≡ w.worker_id
    → find_worker ws w.worker_id ≡ some w
    → is_active w.status ≡ true
    → find_worker ws k ≡ some v
    → is_candidate v.status ≡ true
    → find_worker (replace_worker ws u) k ≡ some v
candidate_kept ws w u k v uniq same found act held cand =
    find-replace ws u k uniq (ap (find_worker ws) same ∙ found)
    ∙ elim (Bool-cases (u.worker_id == k)) [
      | inl hit ↦ rw hit (ground (arith, eq_iff u.worker_id k, same_lookup hit))
      | inr miss ↦ rw miss held
    ]
  where
    same_lookup : (u.worker_id == k) ≡ true → some w ≡ some v
    same_lookup hit =
        sym found ∙ ap (find_worker ws) (sym same ∙ (eq_iff u.worker_id k).0 hit) ∙ held

-- ===== src/WorkerPersistence/Legacy.antt =====
-- src/lws/worker_persistence.py, `bootstrap_worker_protocol`: what a task from before the protocol gets.
use localshell_web_superviso.Base.{
  ℕ, ◌<◌, ◌≡◌, refl, sym, ap, ◌∙◌, subst, true, false, ◌⊎◌, inl, inr, Option, none, some, is_some,
  String, List, [], ◌∷◌, All, ◌==◌, Option-cases, if_inversion, arith, Outcome, ok, raise,
  bind-eq-ok, ok-cancel, collect,
}
use localshell_web_superviso.WorkerProtocol.State.{
  TaskLineage, WorkerLease, WorkerTaskState, is_active,
}
use localshell_web_superviso.WorkerProtocol.Workers.{find_worker}
use localshell_web_superviso.WorkerProtocol.Workers.Lookup.{find-id}
use localshell_web_superviso.WorkerProtocol.Workers.Members.{All-sorted}
use localshell_web_superviso.WorkerProtocol.Checks.{validate_state, lease_is_fresh}
use localshell_web_superviso.WorkerProtocol.Validity.{IsValid, IsValid-of_validate}
use localshell_web_superviso.WorkerPersistence.Tables.{
  TaskRow, WorkerRow, Database, find_task, find_protocol, worker_rows,
}
use localshell_web_superviso.WorkerPersistence.Load.{load_worker_protocol}
use localshell_web_superviso.WorkerPersistence.Consistent.{load-IsValid}
use localshell_web_superviso.WorkerPersistence.Apply.{or_rollback}
use localshell_web_superviso.WorkerPersistence.FromRows.{
  lease_from_legacy, check_legacy, legacy_snapshot, valid_or_refuse, state_from_legacy,
}
use localshell_web_superviso.WorkerPersistence.Bootstrap.{
  resolve_lineage, insert_protocol_snapshot, bootstrap_task, bootstrap_new, bootstrap_existing,
  require_requested_lineage, bootstrap_worker_protocol,
}

-- The row is one of the table's.
abbrev pub IsAmong : WorkerRow → List WorkerRow → Type 0
IsAmong r [] = ⊥
IsAmong r (x ∷ rows) = (r ≡ x) ⊎ IsAmong r rows

-- What the row says of when its worker was last seen: its start, until there is a heartbeat.
pub data SeenAt (r : WorkerRow) (seen : ℕ) : Type 0 where
  by_heartbeat : r.last_seen_at ≡ some seen → SeenAt r seen
  by_start : r.last_seen_at ≡ none → r.started_at ≡ seen → SeenAt r seen

-- The worker's row among `rows`, which says that it was last seen at `seen`.
pub record IsSeen (rows : List WorkerRow) (worker : String) (seen : ℕ) : Type 0 where
  pub row : WorkerRow
  pub among : IsAmong row rows
  pub own : row.worker_id ≡ worker
  pub at : SeenAt row seen

-- An active lease ends when the row of its worker says that it was last seen.
abbrev EndsWhenSeen : List WorkerRow → WorkerLease → Type 0
EndsWhenSeen rows w =
    (is_active w.status ≡ false)
    ⊎ ((seen : ℕ) × (w.lease_expires_at ≡ some seen) × IsSeen rows w.worker_id seen)

-- A lease ends when its row says, or it is not active.
from_row :
    (t : TaskRow) (r : WorkerRow) {w : WorkerLease}
    → lease_from_legacy t r ≡ ok w
    → (is_active w.status ≡ false)
      ⊎ ((seen : ℕ) × (w.lease_expires_at ≡ some seen)
          × (r.worker_id ≡ w.worker_id)
          × SeenAt r seen)
unfolding lease_from_legacy
from_row t r {w} h = elim (if_inversion (r.status == "active") h) [
  | inl (a, e) ↦ elim (if_inversion (is_some r.ended_at) e) [
    | inl (b, x) ↦ cc x
    | inr (b, x) ↦
        let same = ok-cancel x in
        let own = ap (λ (v : WorkerLease). v.worker_id) same in
        let ends = sym (ap (λ (v : WorkerLease). v.lease_expires_at) same) in
        let seen_or : Option ℕ → ℕ = λ o. elim o [ none ↦ r.started_at | some n ↦ n ] in
        elim (Option-cases r.last_seen_at) [
          | inl n ↦ inr (r.started_at, ends ∙ ap (λ o. some (seen_or o)) n, own, by_start n refl)
          | inr (seen, k) ↦ inr (seen, ends ∙ ap (λ o. some (seen_or o)) k, own, by_heartbeat k)
        ]
  ]
  | inr (f, e) ↦ inl (ground arith)
]

collect-EndsWhenSeen :
    (t : TaskRow) (rows whole : List WorkerRow) {ws : List WorkerLease}
    → ((r : WorkerRow) → IsAmong r rows → IsAmong r whole)
    → collect (lease_from_legacy t) rows ≡ ok ws
    → All (EndsWhenSeen whole) ws
collect-EndsWhenSeen t [] whole within h = subst (All (EndsWhenSeen whole)) (ok-cancel h) tt
collect-EndsWhenSeen t (r ∷ rows) whole within h =
    let (w, e1, h1) = bind-eq-ok (lease_from_legacy t r) _ h in
    let (rest, e2, h2) = bind-eq-ok (collect (lease_from_legacy t) rows) _ h1 in
    let first : EndsWhenSeen whole w = elim (from_row t r e1) [
      | inl idle ↦ inl idle
      | inr (seen, ends, own, at) ↦
          inr (seen, ends, record { row = r; among = within r (inl refl); own = own; at = at })
    ] in
    subst (All (EndsWhenSeen whole)) (ok-cancel h2)
      (first, collect-EndsWhenSeen t rows whole (λ x m. within x (inr m)) e2)

found-All :
    (P : WorkerLease → Type 0) (ws : List WorkerLease) (id : String) {w : WorkerLease}
    → All P ws
    → find_worker ws id ≡ some w
    → P w
unfolding find_worker
found-All P [] id ps h = cc
found-All P (x ∷ ws) id ps h = elim (if_inversion (x.worker_id == id) h) [
  | inl (t, e) ↦ subst P (cc e) ps.0
  | inr (f, e) ↦ found-All P ws id ps.1 e
]

module _ (rows : List WorkerRow) where
  abbrev IsUnseen : String → ℕ → Type 0
  IsUnseen worker now = (seen : ℕ) × IsSeen rows worker seen × (now < seen)

  expires :
      (s : WorkerTaskState) (w : WorkerLease) (id : String) (now : ℕ)
      → find_worker s.workers id ≡ some w
      → EndsWhenSeen rows w
      → lease_is_fresh s id now ≡ true
      → IsUnseen w.worker_id now
  unfolding lease_is_fresh
  expires s w id now f (inl idle) h = absurd (ground arith)
  expires s w id now f (inr (seen, ends, row)) h = (seen, row, ground arith)

valid_or_refuse-ok {ℓ} : {A : Type ℓ} (m : Outcome A) {a : A} → valid_or_refuse m ≡ ok a → m ≡ ok a
valid_or_refuse-ok (ok b) h = h
valid_or_refuse-ok (raise e) h = cc

legacy-fresh :
    (rows : List WorkerRow) (s : WorkerTaskState) (id : String) (now : ℕ)
    → All (EndsWhenSeen rows) s.workers
    → lease_is_fresh s id now ≡ true
    → (seen : ℕ) × IsSeen rows id seen × (now < seen)
unfolding lease_is_fresh
legacy-fresh rows s id now all h = elim (Option-cases (find_worker s.workers id)) [
  | inl n ↦ absurd (ground arith)
  | inr (w, f) ↦
      let ends = found-All (EndsWhenSeen rows) s.workers id all f in
      subst (λ x. (seen : ℕ) × IsSeen rows x seen × (now < seen)) (find-id s.workers id f)
        (expires rows s w id now f ends h)
]

snapshot_of :
    (t : TaskRow) (rows : List WorkerRow) (lineage : TaskLineage) {s : WorkerTaskState}
    → state_from_legacy t rows lineage ≡ ok s
    → IsValid s × All (EndsWhenSeen rows) s.workers
unfolding state_from_legacy
snapshot_of t rows lineage {s} h =
    let (u, e1, h1) = bind-eq-ok (check_legacy t rows) _ h in
    let (leases, e2, h2) = bind-eq-ok (collect (lease_from_legacy t) rows) _ h1 in
    let state = legacy_snapshot t lineage leases in
    let (v, e3, h3) = bind-eq-ok (valid_or_refuse (validate_state state)) _ h2 in
    subst (λ x. IsValid x × All (EndsWhenSeen rows) x.workers) (ok-cancel h3)
      (
        IsValid-of_validate state (valid_or_refuse-ok _ e3),
        All-sorted (EndsWhenSeen rows) leases (collect-EndsWhenSeen t rows rows (λ x m. m) e2),
      )

new_snapshot :
    (db : Database) (id : String) (parent root key : Option String) (t : TaskRow)
    {s : WorkerTaskState} {after : Database}
    → bootstrap_task db id parent root key t ≡ ok (s, after)
    → IsValid s × All (EndsWhenSeen (worker_rows db id)) s.workers
unfolding bootstrap_task
new_snapshot db id parent root key t {s} {after} h =
    let (lineage, e1, h1) = bind-eq-ok (resolve_lineage db id parent root key) _ h in
    let (made, e2, h2) = bind-eq-ok (state_from_legacy t (worker_rows db id) lineage) _ h1 in
    let (inserted, e3, h3) = bind-eq-ok (insert_protocol_snapshot made db) _ h2 in
    subst (λ x. IsValid x × All (EndsWhenSeen (worker_rows db id)) x.workers)
      (ap (λ x. x.0) (ok-cancel h3)) (snapshot_of t (worker_rows db id) lineage e2)

or_rollback-ok :
    (db : Database) (m : Outcome (WorkerTaskState × Database)) {s : WorkerTaskState}
    {after : Database}
    → or_rollback db m ≡ (ok s, after)
    → m ≡ ok (s, after)
or_rollback-ok db (ok (x, y)) h = cc
or_rollback-ok db (raise e) h = cc (ap (λ x. x.0) h)

new_snapshot_lem :
    (db : Database) (id : String) (parent root key : Option String) {s : WorkerTaskState}
    {after : Database}
    → bootstrap_new db id parent root key ≡ ok (s, after)
    → IsValid s × All (EndsWhenSeen (worker_rows db id)) s.workers
unfolding bootstrap_new
new_snapshot_lem db id parent root key {s} {after} made = elim (Option-cases (find_task db id)) [
  | inl n ↦ ground arith
  | inr (t, f) ↦ new_snapshot db id parent root key t {s = s} {after = after} (ground arith)
]

-- A call returns with the snapshot that is there, or it makes a new one.
bootstrap_cases :
    (db : Database) (id : String) (parent root key : Option String) {s : WorkerTaskState}
    {after : Database}
    → bootstrap_worker_protocol db id parent root key ≡ (ok s, after)
    → ((is_some (find_protocol db id) ≡ true)
        × (bootstrap_existing db id parent root key ≡ ok (s, after)))
      ⊎ ((is_some (find_protocol db id) ≡ false)
          × (bootstrap_new db id parent root key ≡ ok (s, after)))
unfolding bootstrap_worker_protocol
bootstrap_cases db id parent root key h =
    if_inversion (is_some (find_protocol db id)) (or_rollback-ok db _ h)

existing_lem :
    (db : Database) (id : String) (parent root key : Option String) {s : WorkerTaskState}
    {after : Database}
    → bootstrap_existing db id parent root key ≡ ok (s, after)
    → (load_worker_protocol db id ≡ ok s) × (after ≡ db)
unfolding bootstrap_existing
existing_lem db id parent root key h =
    let (x, e1, h1) = bind-eq-ok (load_worker_protocol db id) _ h in
    let (u, e2, h2) = bind-eq-ok (require_requested_lineage x parent root key) _ h1 in
    (e1 ∙ ap (λ p. ok p.0) (ok-cancel h2), sym (ap (λ p. p.1) (ok-cancel h2)))

-- Whatever a task's rows say, a snapshot that the bootstrap returns satisfies the invariant of the
-- protocol; and where the task had a snapshot already, the bootstrap returns that one and writes
-- nothing.
pub bootstrap-IsValid :
    (db : Database) (id : String) (parent root key : Option String) {s : WorkerTaskState}
    {after : Database}
    → bootstrap_worker_protocol db id parent root key ≡ (ok s, after)
    → IsValid s
      × ((find_protocol db id ≡ none) ⊎ ((load_worker_protocol db id ≡ ok s) × (after ≡ db)))
bootstrap-IsValid db id parent root key h = elim (bootstrap_cases db id parent root key h) [
  | inl (there, e) ↦
      let (loaded, same) = existing_lem db id parent root key e in
      ((load-IsValid db id loaded).0, inr (loaded, same))
  | inr (fresh, e) ↦ ((new_snapshot_lem db id parent root key e).0, inl (ground arith))
]

-- A task from before the protocol gets a snapshot that grants no fresh authority: a worker has a fresh
-- lease in it only at times before the worker was last seen, as its row of the table `workers` says.
pub bootstrap_grants_nothing :
    (db : Database) (id : String) (parent root key : Option String) {s : WorkerTaskState}
    {after : Database} (worker : String) (now : ℕ)
    → find_protocol db id ≡ none
    → bootstrap_worker_protocol db id parent root key ≡ (ok s, after)
    → lease_is_fresh s worker now ≡ true
    → (seen : ℕ) × IsSeen (worker_rows db id) worker seen × (now < seen)
bootstrap_grants_nothing db id parent root key {s} {after} worker now fresh h lease =
    elim (bootstrap_cases db id parent root key h) [
      | inl (there, e) ↦ absurd (ground arith)
      | inr (absent, e) ↦
          legacy-fresh (worker_rows db id) s worker now (new_snapshot_lem db id parent root key e).1
            lease
    ]

-- ===== src/WorkerProtocol/Tokens.antt =====
-- src/lws/worker_protocol.py: generations as fencing tokens.
use localshell_web_superviso.Base.{
  ℕ, ◌+◌, ◌<◌, ◌≤◌, ◌≡◌, refl, sym, ap, ◌∙◌, subst, Option, some, String, List, [], ◌∷◌, ◌++◌, ◌⊎◌,
  inl, inr, arith, ok, ◌==◌, eq_iff, strip, Bool-cases, some-cancel, if◌then◌else◌,
}
use localshell_web_superviso.WorkerProtocol.State.{
  WorkerLeaseStatus, WorkerLease, WorkerTaskState, ProtocolDecision,
}
use localshell_web_superviso.WorkerProtocol.Workers.{find_worker, sorted_workers, replace_worker}
use localshell_web_superviso.WorkerProtocol.Workers.Lookup.{
  Unique, Unique-append-one, Unique-replace, find-sorted, find-append-one, find-replace, find-id,
}
use localshell_web_superviso.WorkerProtocol.Operations.{new_candidate, claim_lease, new_task_state}
use localshell_web_superviso.WorkerProtocol.Endings.{superseded_lease, ended_lease}
use localshell_web_superviso.WorkerProtocol.Validity.{IsValid}
use localshell_web_superviso.WorkerProtocol.Preserve.{holder_lem, candidate_kept}
use localshell_web_superviso.WorkerProtocol.Spec.{
  Operation, register, claim, heartbeat, handoff, takeover, complete, abandon, close, Transition,
  Answer, rejected, known, moved,
}
use localshell_web_superviso.WorkerProtocol.Traces.{
  Steps, here, next, answer_lem, Steps-IsValid, new_task_state-IsValid, new_task_state-workers,
}
use localshell_web_superviso.WorkerProtocol.Fencing.{found_again}

-- No generation passes `n`, and none belongs to two leases.
pub record HasTokens (ws : List WorkerLease) (n : ℕ) : Type 0 where
  pub bounded :
      (k : String) (w : WorkerLease) (g : ℕ)
      → find_worker ws k ≡ some w
      → w.generation ≡ some g
      → g ≤ n
  pub distinct :
      (j k : String) (v w : WorkerLease) (g : ℕ)
      → find_worker ws j ≡ some v
      → find_worker ws k ≡ some w
      → v.generation ≡ some g
      → w.generation ≡ some g
      → j ≡ k

-- Each generation of `ws'` was that lease's in `ws`, or is new and belongs to `id`.
abbrev Origin : List WorkerLease → List WorkerLease → String → ℕ → ℕ → Type 0
Origin ws ws' id n n' =
    (k : String) (w : WorkerLease) (g : ℕ)
    → find_worker ws' k ≡ some w
    → w.generation ≡ some g
    → ((v : WorkerLease) × (find_worker ws k ≡ some v) × (v.generation ≡ some g))
      ⊎ ((k ≡ id) × (n < g) × (g ≤ n'))

HasTokens-empty : (n : ℕ) → HasTokens [] n
unfolding find_worker
HasTokens-empty n = record {
  bounded = λ k w g found gen. cc found;
  distinct = λ j k v w g fj fk gj gk. cc fj;
}

HasTokens-Origin :
    (ws ws' : List WorkerLease) (id : String) (n n' : ℕ)
    → n ≤ n'
    → Origin ws ws' id n n'
    → HasTokens ws n
    → HasTokens ws' n'
HasTokens-Origin ws ws' id n n' le from h = record {
  bounded = λ k w g found gen. elim (from k w g found gen) [
    | inl (v, held, old) ↦ omega (arith, h.bounded k v g held old)
    | inr (same, low, high) ↦ high
  ];
  distinct = λ j k v w g fj fk gj gk. elim (from j v g fj gj) [
    | inl (v', held, old) ↦ elim (from k w g fk gk) [
      | inl (w', held', old') ↦ h.distinct j k v' w' g held held' old old'
      | inr (same, low, high) ↦ absurd (omega (arith, h.bounded j v' g held old))
    ]
    | inr (same, low, high) ↦ elim (from k w g fk gk) [
      | inl (w', held', old') ↦ absurd (omega (arith, h.bounded k w' g held' old'))
      | inr (same', low', high') ↦ same ∙ sym same'
    ]
  ];
}

Origin-replace :
    (ws : List WorkerLease) (u old : WorkerLease) (n n' : ℕ)
    → Unique ws
    → find_worker ws u.worker_id ≡ some old
    → ((g : ℕ) → u.generation ≡ some g → (old.generation ≡ some g) ⊎ ((n < g) × (g ≤ n')))
    → Origin ws (replace_worker ws u) u.worker_id n n'
Origin-replace ws u old n n' uniq found from k w g held gen = elim (Bool-cases (u.worker_id == k)) [
  | inl hit ↦
      let same : u ≡ w = some-cancel (sym (lookup ∙ rw hit) ∙ held) in
      let id : u.worker_id ≡ k = (eq_iff u.worker_id k).0 hit in
      elim (from g (ap (λ (x : WorkerLease). x.generation) same ∙ gen)) [
        | inl kept ↦ inl (old, ap (find_worker ws) (sym id) ∙ found, kept)
        | inr new ↦ inr (sym id, new.0, new.1)
      ]
  | inr miss ↦ inl (w, sym (lookup ∙ rw miss) ∙ held, gen)
]
  where
    lookup :
        find_worker (replace_worker ws u) k
        ≡ (if u.worker_id == k then some u else find_worker ws k)
    lookup = find-replace ws u k uniq found

-- The lease has the next generation.
new_token :
    (n : ℕ) (w : WorkerLease) (g : ℕ)
    → some (n + 1) ≡ some g
    → (w.generation ≡ some g) ⊎ ((n < g) × (g ≤ n + 1))
new_token n w g e = let same = some-cancel e in inr (omega arith, omega arith)

module _ (s : WorkerTaskState) (h : IsValid s) where
  -- a lease gives way to one with its id and its generation
  renewed :
      (c u : WorkerLease) (id : String)
      → find_worker s.workers id ≡ some c
      → u.worker_id ≡ c.worker_id
      → u.generation ≡ c.generation
      → HasTokens s.workers s.generation
      → HasTokens (replace_worker s.workers u) s.generation
  renewed c u id found same_id same tokens =
      HasTokens-Origin s.workers (replace_worker s.workers u) u.worker_id s.generation s.generation
        (omega arith)
        (Origin-replace s.workers u c s.generation s.generation h.unique
          (found_again s.workers id c u found same_id) (λ g e. inl (sym same ∙ e)))
        tokens

  Transition-HasTokens :
      (op : Operation) (t : WorkerTaskState)
      → Transition s op t
      → HasTokens s.workers s.generation
      → HasTokens t.workers t.generation
  Transition-HasTokens (register id ref now) t (opened, absent, e) tokens =
      let v = new_candidate s (strip id) ref now in
      rw e (
        HasTokens-Origin s.workers (sorted_workers (s.workers ++ v ∷ [])) id s.generation
          s.generation (omega arith)
          (λ k w g found gen.
            let lookup =
              find-sorted (s.workers ++ v ∷ []) k (Unique-append-one s.workers v h.unique absent)
              ∙ find-append-one s.workers v k absent in
            elim (Bool-cases (strip id == k)) [
              | inl hit ↦
                  let same : v ≡ w = some-cancel (sym (lookup ∙ rw hit) ∙ found) in
                  cc (ap (λ (x : WorkerLease). x.generation) same, gen)
              | inr miss ↦ inl (w, sym (lookup ∙ rw miss) ∙ found, gen)
            ])
          tokens)
  Transition-HasTokens (claim id now lease) t (c, opened, found, cand, idle, e) tokens =
      let u = claim_lease c (s.generation + 1) now lease in
      rw e (
        HasTokens-Origin s.workers (replace_worker s.workers u) u.worker_id s.generation
          (s.generation + 1) (omega arith)
          (Origin-replace s.workers u c s.generation (s.generation + 1) h.unique
            (found_again s.workers id c u found refl) (new_token s.generation c))
          tokens)
  Transition-HasTokens (heartbeat id g now lease) t (c, holder, timely, e) tokens =
      let u : WorkerLease = record c {
        last_heartbeat_at = some now;
        lease_expires_at = some (now + lease);
      } in
      rw e (renewed c u id holder.1 refl refl tokens)
  Transition-HasTokens (handoff id target g now) t m tokens = rw m.6 tokens
  Transition-HasTokens (takeover id now lease) t
        (current, old, c, opened, at, found_old, found, cand, why, e) tokens =
      let v = superseded_lease old now id in
      let u = claim_lease c (s.generation + 1) now lease in
      let ws = replace_worker s.workers v in
      let found_v = found_again s.workers current old v found_old refl in
      let act = (holder_lem current h at found_old).1 in
      let kept = candidate_kept s.workers old v id c h.unique refl found_v act found cand in
      rw e (
        HasTokens-Origin ws (replace_worker ws u) u.worker_id s.generation (s.generation + 1)
          (omega arith)
          (Origin-replace ws u c s.generation (s.generation + 1)
            (Unique-replace s.workers v h.unique)
            (ap (find_worker ws) (find-id s.workers id found) ∙ kept) (new_token s.generation c))
          (renewed old v current found_old refl refl tokens))
  Transition-HasTokens (complete id g now) t (c, holder, timely, e) tokens =
      rw e (renewed c (ended_lease c WorkerLeaseStatus.completed now) id holder.1 refl refl tokens)
  Transition-HasTokens (abandon id g now) t (c, holder, e) tokens =
      rw e (renewed c (ended_lease c WorkerLeaseStatus.abandoned now) id holder.1 refl refl tokens)
  Transition-HasTokens (close ref now) t m tokens = rw m.3 tokens

  Answer-HasTokens :
      (op : Operation) (d : ProtocolDecision)
      → Answer s op d
      → HasTokens s.workers s.generation
      → HasTokens d.state.workers d.state.generation
  Answer-HasTokens op d (rejected a e n) tokens = rw e tokens
  Answer-HasTokens op d (known id ref now w i f o a c r e n) tokens = rw e tokens
  Answer-HasTokens op d (moved t move a r e) tokens = rw e (Transition-HasTokens op t move tokens)

Steps-HasTokens :
    {s t : WorkerTaskState}
    → IsValid s
    → HasTokens s.workers s.generation
    → Steps s t
    → HasTokens t.workers t.generation
Steps-HasTokens h tokens here = tokens
Steps-HasTokens h tokens (next {t} steps op rev d f e same) =
    let valid = Steps-IsValid h steps in
    subst (λ (v : WorkerTaskState). HasTokens v.workers v.generation) same
      (Answer-HasTokens t valid op d (answer_lem t op rev valid f e)
        (Steps-HasTokens h tokens steps))

-- In every snapshot that a new task can reach, no lease has a generation above the task's, and two
-- leases with one generation are the lease of one worker.
pub generations_are_tokens :
    (id : String) (parent root key : Option String) {s t : WorkerTaskState}
    → new_task_state id parent root key ≡ ok s
    → Steps s t
    → HasTokens t.workers t.generation
generations_are_tokens id parent root key {s} e steps =
    Steps-HasTokens (new_task_state-IsValid id parent root key e) start steps
  where
    start : HasTokens s.workers s.generation
    start =
        subst (λ ws. HasTokens ws s.generation) (sym (new_task_state-workers id parent root key e))
          (HasTokens-empty s.generation)

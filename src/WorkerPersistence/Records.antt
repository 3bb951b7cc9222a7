-- ===== src/WorkerPersistence/Records.antt =====
-- src/lws/worker_persistence.py, `_append_events`: what the rows of the log say of the events.
use localshell_web_superviso.Base.{
  ℕ, ◌≡◌, refl, true, false, ◌⊎◌, inl, inr, List, [], ◌∷◌, length, select, eqb, arith, Outcome, ok,
  raise, Bool-cases, if◌then◌else◌,
}
use localshell_web_superviso.WorkerProtocol.State.{ProtocolEvent, ProtocolDecision, mutated}
use localshell_web_superviso.WorkerPersistence.Tables.{EventRow, event_kind_value}
use localshell_web_superviso.WorkerPersistence.Persist.{event_values, count_at}

-- the rows that the loop writes, after the events `before`
abbrev pub event_rows : List ProtocolEvent → List ProtocolEvent → List EventRow
event_rows before [] = []
event_rows before (e ∷ es) =
    event_values e (count_at e.revision before) ∷ event_rows (e ∷ before) es

-- The row has every field of the event.
pub record IsRecordOf (e : ProtocolEvent) (r : EventRow) : Type 0 where
  pub task : r.task_id ≡ e.task_id
  pub revision : r.revision ≡ e.revision
  pub kind : r.kind ≡ event_kind_value e.kind
  pub at : r.at ≡ e.at
  pub worker : r.worker_id ≡ e.worker_id
  pub generation : r.generation ≡ e.generation
  pub related : r.related_worker_id ≡ e.related_worker_id
  pub ref : r.ref ≡ e.ref

abbrev pub of_revision : ℕ → List ProtocolEvent → List ProtocolEvent
of_revision rev es = select (λ (e : ProtocolEvent). eqb e.revision rev) es

-- One row for each event, in their order, numbered from 0 within each revision; `before` are the events
-- that came earlier, the last one first.
abbrev pub AreRecords : List ProtocolEvent → List ProtocolEvent → List EventRow → Type 0
AreRecords before [] [] = Unit
AreRecords before [] (r ∷ rs) = ⊥
AreRecords before (e ∷ es) [] = ⊥
AreRecords before (e ∷ es) (r ∷ rs) =
    IsRecordOf e r
    × (r.event_index ≡ length (of_revision e.revision before))
    × AreRecords (e ∷ before) es rs

-- What a call adds to the log: the events of a mutation, and nothing else.
abbrev pub Appends : Outcome ProtocolDecision → List EventRow → Type 0
Appends (raise e) rows = rows ≡ []
Appends (ok d) rows =
    ((mutated d ≡ true) × AreRecords [] d.events rows) ⊎ ((mutated d ≡ false) × (rows ≡ []))

count_at-length :
    (rev : ℕ) (es : List ProtocolEvent) → count_at rev es ≡ length (of_revision rev es)
unfolding select
count_at-length rev [] = refl
count_at-length rev (e ∷ es) = let h = count_at-length rev es in ground arith

pub event_rows-AreRecords :
    (before es : List ProtocolEvent) → AreRecords before es (event_rows before es)
event_rows-AreRecords before [] = tt
event_rows-AreRecords before (e ∷ es) = (
  record {
    task = refl;
    revision = refl;
    kind = refl;
    at = refl;
    worker = refl;
    generation = refl;
    related = refl;
    ref = refl;
  },
  count_at-length e.revision before,
  event_rows-AreRecords (e ∷ before) es,
)

-- the rows that a call adds to the log, by what it returned or raised
abbrev pub logged : Outcome ProtocolDecision → List EventRow
logged (raise e) = []
logged (ok d) = if mutated d then event_rows [] d.events else []

pub logged-Appends : (r : Outcome ProtocolDecision) → Appends r (logged r)
logged-Appends (raise e) = refl
logged-Appends (ok d) = elim (Bool-cases (mutated d)) [
  | inl t ↦ rw (t) (inl (refl, event_rows-AreRecords [] d.events))
  | inr f ↦ rw (f) (inr (refl, refl))
]

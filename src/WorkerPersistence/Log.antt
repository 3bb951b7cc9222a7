-- ===== src/WorkerPersistence/Log.antt =====
-- src/lws/worker_persistence.py, `_append_events`: the table `worker_protocol_events` is a log.
use localshell_web_superviso.Base.{
  ℕ, ◌≡◌, refl, sym, ap, ◌∙◌, subst, Bool, true, false, not, Option, none, some, String, List, [],
  ◌∷◌, ◌++◌, arith, Outcome, Error, ok, raise, raise_if, ◌>>=◌, ◌>>◌, for_each,
}
use mathlib.Core.List.{append_assoc, append-nil}
use localshell_web_superviso.WorkerProtocol.State.{
  WorkerLease, WorkerTaskState, ProtocolEvent, ProtocolDecision, task_id,
}
use localshell_web_superviso.WorkerPersistence.Tables.{WorkerRow, EventRow, Database, find_row}
use localshell_web_superviso.WorkerPersistence.Persist.{
  release_window, insert_worker_row, update_worker_row, sync_worker, sync_legacy_workers,
  write_worker_row, update_task, swap_protocol_task, upsert_protocol_lease, event_values,
  insert_event, count_at, append_events, persist_decision, same_lineage,
}
use localshell_web_superviso.WorkerPersistence.Records.{event_rows, logged, Appends, logged-Appends}
use localshell_web_superviso.WorkerPersistence.Apply.{apply_worker_protocol_transition}
use localshell_web_superviso.WorkerPersistence.Commit.{unchanged, committed}
use localshell_web_superviso.WorkerPersistence.Histories.{
  Effect, rolled_back, returned, transition-Effect,
}

-- If the step returned, the log holds `rows`.
abbrev LogIs : List EventRow → Outcome Database → Type 0
LogIs rows (ok after) = after.protocol_events ≡ rows
LogIs rows (raise e) = Unit

-- The step leaves the log as it is, or it raises.
abbrev Keeps : (Database → Outcome Database) → Type 0
Keeps step = (db : Database) → LogIs db.protocol_events (step db)

bind-LogIs :
    (m : Outcome Database) (f : Database → Outcome Database) (rows last : List EventRow)
    → LogIs rows m
    → ((db : Database) → db.protocol_events ≡ rows → LogIs last (f db))
    → LogIs last (m >>= f)
bind-LogIs (ok db) f rows last h k = k db h
bind-LogIs (raise e) f rows last h k = tt

keep-LogIs :
    (f : Database → Outcome Database)
    → Keeps f
    → (rows : List EventRow) (db : Database) → db.protocol_events ≡ rows
    → LogIs rows (f db)
keep-LogIs f keep rows db h = subst (λ x. LogIs x (f db)) h (keep db)

for_each-Keeps {ℓ} :
    {A : Type ℓ} (body : A → Database → Outcome Database) (xs : List A)
    → ((x : A) → Keeps (body x))
    → Keeps (for_each body xs)
for_each-Keeps body [] keep db = refl
for_each-Keeps body (x ∷ xs) keep db =
    bind-LogIs (body x db) (for_each body xs) _ _ (keep x db)
      (keep-LogIs (for_each body xs) (for_each-Keeps body xs keep) _)

raise_if-LogIs :
    (b : Bool) (e : Error) (rest : Outcome Database) (rows : List EventRow)
    → LogIs rows rest
    → LogIs rows (raise_if b e >> rest)
raise_if-LogIs true e rest rows h = tt
raise_if-LogIs false e rest rows h = h

insert_worker_row-Keeps : (w : WorkerLease) → Keeps (insert_worker_row w)
unfolding insert_worker_row
insert_worker_row-Keeps w db = ground arith

update_worker_row-Keeps :
    (id : String) (r : WorkerRow) (w : WorkerLease) → Keeps (update_worker_row id r w)
unfolding update_worker_row
update_worker_row-Keeps id r w db = ground arith

release_window-LogIs :
    (w : WorkerLease) (db : Database) → LogIs db.protocol_events (ok (release_window w db))
unfolding release_window
release_window-LogIs w db = ground arith

write_worker_row-Keeps :
    (id : String) (o : Option WorkerRow) (w : WorkerLease) → Keeps (write_worker_row id o w)
write_worker_row-Keeps id none w db = insert_worker_row-Keeps w db
write_worker_row-Keeps id (some r) w db = update_worker_row-Keeps id r w db

sync_worker-Keeps :
    (id : String) (rows : List WorkerRow) (w : WorkerLease) → Keeps (sync_worker id rows w)
unfolding sync_worker
sync_worker-Keeps id rows w db =
    bind-LogIs (write_worker_row id (find_row w.worker_id rows) w db)
      (λ synced. ok (release_window w synced)) _ _ (write_worker_row-Keeps id _ w db)
      (λ synced same.
        keep-LogIs (λ x. ok (release_window w x)) (release_window-LogIs w) _ synced same)

sync_legacy_workers-Keeps : (s : WorkerTaskState) → Keeps (sync_legacy_workers s)
unfolding sync_legacy_workers
sync_legacy_workers-Keeps s db =
    bind-LogIs _ _ _ _ (for_each-Keeps _ s.workers (sync_worker-Keeps (task_id s) _) db)
      (λ synced same. ground arith)

update_task-Keeps : (d : ProtocolDecision) → Keeps (update_task d)
unfolding update_task
update_task-Keeps d db = ground arith

swap-Keeps : (s : WorkerTaskState) (rev : ℕ) → Keeps (swap_protocol_task s rev)
unfolding swap_protocol_task
swap-Keeps s rev db = ground arith

upsert-Keeps : (w : WorkerLease) → Keeps (upsert_protocol_lease w)
unfolding upsert_protocol_lease
upsert-Keeps w db = ground arith

insert_event-LogIs :
    (r : EventRow) (db : Database) → LogIs (db.protocol_events ++ r ∷ []) (insert_event r db)
unfolding insert_event
insert_event-LogIs r db = ground arith

append_events-LogIs :
    (before events : List ProtocolEvent) (db : Database)
    → LogIs (db.protocol_events ++ event_rows before events) (append_events before events db)
unfolding append_events
append_events-LogIs before [] db = sym (append-nil db.protocol_events)
append_events-LogIs before (e ∷ es) db =
    let r = event_values e (count_at e.revision before) in
    bind-LogIs (insert_event r db) (append_events (e ∷ before) es) _ _ (insert_event-LogIs r db)
      (λ middle same.
        subst (λ x. LogIs x (append_events (e ∷ before) es middle))
          (ap (λ x. x ++ event_rows (e ∷ before) es) same
            ∙ append_assoc db.protocol_events (r ∷ []) (event_rows (e ∷ before) es))
          (append_events-LogIs (e ∷ before) es middle))

persist-LogIs :
    (previous : WorkerTaskState) (d : ProtocolDecision) (rev : ℕ) (db : Database)
    → LogIs (db.protocol_events ++ event_rows [] d.events) (persist_decision previous d rev db)
unfolding persist_decision
persist-LogIs previous d rev db =
    bind-LogIs (sync_legacy_workers d.state db) _ _ _ (sync_legacy_workers-Keeps d.state db)
      (λ synced e1.
        bind-LogIs (update_task d synced) _ _ _ (keep-LogIs _ (update_task-Keeps d) _ synced e1)
          (λ updated e2.
            bind-LogIs (swap_protocol_task d.state rev updated) _ _ _
              (keep-LogIs _ (swap-Keeps d.state rev) _ updated e2)
              (λ swapped e3.
                bind-LogIs (for_each upsert_protocol_lease d.state.workers swapped) _ _ _
                  (keep-LogIs _ (for_each-Keeps upsert_protocol_lease d.state.workers upsert-Keeps)
                    _ swapped e3)
                  (λ leased e4.
                    bind-LogIs (append_events [] d.events leased) _ _ _
                      (append_events-LogIs [] d.events leased)
                      (λ appended e5.
                        let logged = e5 ∙ ap (λ x. x ++ event_rows [] d.events) e4 in
                        raise_if-LogIs (not (same_lineage previous.lineage d.state.lineage)) _
                          (ok appended) _ logged)))))

Effect-logged :
    (db : Database) (id : String) (rev : ℕ)
    (transition : WorkerTaskState → Outcome ProtocolDecision) (r : Outcome ProtocolDecision)
    (after : Database)
    → Effect db id rev transition r after
    → after.protocol_events ≡ db.protocol_events ++ logged r
Effect-logged db id rev transition _ _ (rolled_back e) = sym (append-nil db.protocol_events)
Effect-logged db id rev transition _ _ (returned (unchanged s l a c m same)) =
    rw (m, same) (sym (append-nil db.protocol_events))
Effect-logged db id rev transition _ after (returned {d} (committed s l a c m done)) = rw (m) (
    subst (LogIs (db.protocol_events ++ event_rows [] d.events)) done.written
      (persist-LogIs s d rev db))

-- The log of events only grows, and only by whole mutations: a call, whatever its transition function
-- does, appends one row for each event of its decision, in their order, with the fields of the event
-- and its number among the decision's events of its revision, if it is a mutation, and nothing if it
-- is not or if the call raises.
pub call_logs :
    (db : Database) (id : String) (rev : ℕ)
    (transition : WorkerTaskState → Outcome ProtocolDecision)
    → (rows : List EventRow) × ((apply_worker_protocol_transition db id rev
          transition).1.protocol_events
        ≡ db.protocol_events ++ rows)
      × Appends (apply_worker_protocol_transition db id rev transition).0 rows
call_logs db id rev transition =
    let r = (apply_worker_protocol_transition db id rev transition).0 in
    (
      logged r,
      Effect-logged db id rev transition _ _ (transition-Effect db id rev transition),
      logged-Appends r,
    )

-- ===== src/WorkerPersistence/Bootstrap.antt =====
-- src/lws/worker_persistence.py, `bootstrap_worker_protocol`: the protocol of a task from before it.
use localshell_web_superviso.Base.{
  Bool, false, not, ◌&&◌, ◌||◌, Option, none, some, is_some, String, [], ◌∷◌, ◌==◌, ◌++◌, strip,
  if◌then◌else◌, Outcome, ok, raise, key_error, integrity_error, raise_if, ◌>>=◌, ◌>>◌, for_each,
}
use localshell_web_superviso.WorkerProtocol.State.{TaskLineage, WorkerTaskState, task_id}
use localshell_web_superviso.WorkerPersistence.Tables.{
  TaskRow, ProtocolRow, Database, find_task, has_task, find_protocol, worker_rows,
}
use localshell_web_superviso.WorkerPersistence.Load.{same_id, load_worker_protocol}
use localshell_web_superviso.WorkerPersistence.Persist.{
  references_hold, task_values, upsert_protocol_lease,
}
use localshell_web_superviso.WorkerPersistence.Apply.{or_rollback}
use localshell_web_superviso.WorkerPersistence.FromRows.{refuse, refuse_if, state_from_legacy}

-- `_optional_nonempty`
unfoldable pub optional_nonempty : Option String → Outcome (Option String)
optional_nonempty none = ok none
optional_nonempty (some text) =
    if strip text == ""
    then refuse "child_key must be non-empty when supplied"
    else ok (some (strip text))

-- the root that a child names, or that its parent's row has
abbrev pub child_root : Option String → Option ProtocolRow → Outcome String
child_root (some root) parent = ok root
child_root none none =
    refuse "child bootstrap requires root_task_id until parent protocol state exists"
child_root none (some parent) = ok parent.root_task_id

abbrev root_differs : Option ProtocolRow → String → Bool
root_differs none root = false
root_differs (some parent) root = not (parent.root_task_id == root)

unfoldable pub child_lineage :
    Database → String → String → Option String → Option String → Outcome TaskLineage
child_lineage db id parent root key = do
  refuse_if (parent == "" || parent == id) "parent_task_id must name a different durable task"
  refuse_if (not (has_task db parent)) "parent_task_id does not exist"
  named ← child_root root (find_protocol db parent)
  let top = strip named
  refuse_if (top == "" || top == id) "child root_task_id must name an ancestor task"
  refuse_if (not (has_task db top)) "root_task_id does not exist"
  refuse_if (root_differs (find_protocol db parent) top)
      "child root_task_id disagrees with parent lineage"
  ok (record { task_id = id; parent_task_id = some parent; root_task_id = top; child_key = key })

unfoldable pub resolve_lineage :
    Database → String → Option String → Option String → Option String → Outcome TaskLineage
unfolding optional_nonempty child_lineage
resolve_lineage db id parent root key = do
  named ← optional_nonempty key
  elim parent [
    | none ↦ do
      refuse_if (is_some root && not (same_id root (some id)))
          "root protocol task must name itself as root_task_id"
      ok (record { task_id = id; parent_task_id = none; root_task_id = id; child_key = named })
    | some parent_id ↦ child_lineage db id (strip parent_id) root named
  ]

abbrev stripped : Option String → Option String
stripped none = none
stripped (some t) = some (strip t)

unfoldable pub require_requested_lineage :
    WorkerTaskState → Option String → Option String → Option String → Outcome (Unit {0})
require_requested_lineage s parent root key =
    if not (is_some parent) && not (is_some root) && not (is_some key)
    then ok tt
    else let expected_root : String = elim root [
      | none ↦ s.lineage.root_task_id
      | some t ↦ strip t
    ] in
      refuse_if
        (not (
          same_id s.lineage.parent_task_id (stripped parent)
          && s.lineage.root_task_id == expected_root
          && same_id s.lineage.child_key (stripped key)))
        "protocol lineage already initialized"

unfoldable pub insert_protocol_snapshot : WorkerTaskState → Database → Outcome Database
insert_protocol_snapshot s db = do
  raise_if
      (is_some (find_protocol db (task_id s))
        || not (has_task db (task_id s) && references_hold db s))
      (integrity_error "worker_protocol_tasks")
  let inserted = record db { protocol_tasks = db.protocol_tasks ++ task_values s ∷ [] }
  for_each upsert_protocol_lease s.workers inserted

-- the task `t` has no row of the protocol yet
unfoldable pub bootstrap_task :
    Database
    → String
    → Option String
    → Option String
    → Option String
    → TaskRow
    → Outcome (WorkerTaskState × Database)
bootstrap_task db id parent root key t = do
  lineage ← resolve_lineage db id parent root key
  s ← state_from_legacy t (worker_rows db id) lineage
  inserted ← insert_protocol_snapshot s db
  ok (s, inserted)

unfoldable pub bootstrap_new :
    Database
    → String
    → Option String
    → Option String
    → Option String
    → Outcome (WorkerTaskState × Database)
bootstrap_new db id parent root key = elim (find_task db id) [
  | none ↦ raise (key_error "unknown task")
  | some t ↦ bootstrap_task db id parent root key t
]

-- the task has a row of the protocol already
unfoldable pub bootstrap_existing :
    Database
    → String
    → Option String
    → Option String
    → Option String
    → Outcome (WorkerTaskState × Database)
bootstrap_existing db id parent root key = do
  s ← load_worker_protocol db id
  require_requested_lineage s parent root key
  ok (s, db)

unfoldable pub bootstrap_worker_protocol :
    Database
    → String
    → Option String
    → Option String
    → Option String
    → Outcome WorkerTaskState × Database
bootstrap_worker_protocol db id parent root key = or_rollback db (
    if is_some (find_protocol db id)
    then bootstrap_existing db id parent root key
    else bootstrap_new db id parent root key)

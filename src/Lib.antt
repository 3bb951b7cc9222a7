-- ===== src/Lib.antt =====
-- A model of the LocalShell Web Supervisor, the Python package src/lws.
--
-- The supervisor watches tasks that a web chat works on through a local shell. A task has one
-- current worker at a time (src/lws/worker_protocol.py). The watcher (src/lws/watcher.py) reads what
-- was observed of the browser, the network, the durable shell session and the workspace and
-- classifies the task; src/lws/recovery.py turns the class into advice, and
-- src/lws/orchestration.py decides whether the durable evidence permits a recovery at all. The
-- registry keeps the tasks' snapshots (src/lws/worker_persistence.py) and the actions whose outcome may
-- be unknown (src/lws/registry.py), so that no two callers act on one state.
--
-- Files and what they model:
--   Base            Python's exceptions as values, Boolean tests, texts, lists.
--   WorkerProtocol  src/lws/worker_protocol.py. State, Workers, Checks, Operations and Endings are
--                   the code; Spec is the transition relation, and Refine relates the code to it;
--                   Validity, Preserve and Traces are the invariant of a snapshot and its runs;
--                   Fencing, Tokens, Revisions and Leases are what callers rely on.
--   WorkerPersistence
--                   src/lws/worker_persistence.py over the tables of src/lws/db.py. Tables has the
--                   rows, Load, Persist, Apply, FromRows and Bootstrap are the code; Compare, Consistent
--                   and Commit are on a single call, Histories, Writers, Records and Log on what calls
--                   leave, Rows on what is written and read back, Legacy on the bootstrap.
--   Registry        src/lws/registry.py. Watchdog is the lease of the watchdog process, LeaseRows and
--                   Exclusion its theorems; Actions and Updates are the action attempts with
--                   `validate_acknowledgement` of src/lws/actions.py, Pending, Changes, Attempts and Budget
--                   on their calls one after another, Final, Overlap and Race on calls that overlap;
--                   Probes and ProbeSteps are the probe mutation operations, Once and Opened on their
--                   authority to open a window.
--   ProbeOps        src/lws/probe_ops.py. Slots is the snapshots of a window slot, Observation and
--                   Decide are `decide_probe_reconciliation`, Authority what its decision permits.
--   BrowserPool     src/lws/browser_pool.py; Capacity is on the pages, Targets on the next probe.
--   Models          src/lws/models.py and the record of src/lws/actions.py: plain records.
--   Watcher         src/lws/watcher.py. Evidence has the lines of evidence as values, Assess the
--                   function `assess` with its early returns in order, Truth and Caution its
--                   theorems.
--   Recovery        src/lws/recovery.py. Recommend is `recommend`, Advice its theorems.
--   Orchestration   src/lws/orchestration.py. Stages, Ownership and Samples are the early returns of
--                   `evaluate_task` in order, Evaluate puts them together; Requirements, Holdings,
--                   Stability and Window say what each asks for, Decisions what a decision means, Backoff
--                   is on the waits and Caution joins the three policies. Plan is
--                   `plan_orchestration`; Selection and Slots are on what it selects. `fence_matches` of
--                   src/lws/reconcile.py and `capability_matches_context` of
--                   src/lws/capabilities.py stand in Input.
--   Scheduler       src/lws/scheduler.py, `attention_queue`; Sorting and Queue are on what stands in it.
--   The Tests modules run the code on concrete values.
--
-- Operations take the state and return the new one; `raise` is a value of Outcome. Times are whole
-- milliseconds on the natural numbers, where the code has floating-point seconds: a difference that
-- could be negative is written as a comparison, and a clamped one as subtraction that stops at 0.
-- Negative durations of a policy are outside the model. Integers have no width, as in Python. No
-- function needs fuel: each is structural or has no loop.
--
-- Python's str.lower and str.casefold are parameters of the comparisons that use them (Letters). A stripped
-- text follows str.isspace. Text that is only shown, such as evidence lines, prompts and reasons with
-- a value in them, is kept as the value; free-form JSON fields are left out.
--
-- A table is a list of rows, with the columns that the modelled code reads or writes. The calls of
-- src/lws/worker_persistence.py, the recording of current-worker and recovery actions, and the probe
-- operations, except for `fail_probe_mutation_operation`, run in a transaction that begins with BEGIN IMMEDIATE
-- and ends with a commit or a rollback, so that each is a function from the tables to the tables, and a
-- history is a sequence of such calls. The others of src/lws/registry.py that read before they write,
-- `record_action_attempt`, `fail_probe_mutation_operation` and the updates of an action attempt, read outside of
-- a transaction: as functions they are the calls that no other writer overlaps. For the updates of an action
-- attempt, Registry.Overlap has the reads and the writes as steps of their own. A key or a reference that
-- a statement violates raises the integrity error of SQLite. JSON payloads are kept as their records.
-- The conversions between numbers and texts of a snapshot are parameters (Conversions), as are the
-- token of a stop and every clock.
--
-- Not modelled: the parts of src/lws/registry.py on slot bindings, replacements, child dispatches and
-- observations; the execution of actions, the drivers of the browser, of windows and of processes, and
-- the command line, which are input and output around the policies; the lifecycle, dispatch and
-- replacement policies, which do not enter the decisions modelled here.
pub mod Base
pub mod BrowserPool
pub mod Models
pub mod Orchestration
pub mod ProbeOps
pub mod Recovery
pub mod Registry
pub mod Scheduler
pub mod Watcher
pub mod WorkerPersistence
pub mod WorkerProtocol

-- ===== src/Registry/Tests.antt =====
-- The theorems about the watchdog lease and the action attempts at concrete tables.
use localshell_web_superviso.Base.{
  ◌≡◌, refl, strip, false, none, some, [], ◌∷◌, find, starts_with, arith, eq_iff, select, ◌≤◌, ◌<◌,
  ok, ◌++◌,
}
use localshell_web_superviso.Registry.Watchdog.{
  WatchdogLease, Leases, watchdog_lease, acquire_watchdog_lease, heartbeat_watchdog_lease,
  request_watchdog_stop,
}
use localshell_web_superviso.Models.Mutation.{ActionAttempt, ActionAttemptState}
use localshell_web_superviso.Registry.Actions.{
  put_attempt, replace_action_attempt, TaskRow, Store, task_of, is_terminal_task, insert_attempt,
  check_authoritative, charge, record_recovery_action_attempt,
}
use localshell_web_superviso.WorkerPersistence.Tables.{WorkerRow}
use localshell_web_superviso.Registry.Budget.{charged, recovery_charges_one}
use localshell_web_superviso.Registry.Pending.{count}
use localshell_web_superviso.Registry.Attempts.{
  submit, require_reconcile, after_calls, one_unresolved,
}
use localshell_web_superviso.Registry.Final.{Stands}
use localshell_web_superviso.Registry.Overlap.{
  Run, here, next, reads, writes, dies, signing, run_update, settled_is_final,
}
use localshell_web_superviso.Registry.Updates.{signed_of}
use localshell_web_superviso.Registry.Race.{cancel_overwritten}
use localshell_web_superviso.Registry.Exclusion
use localshell_web_superviso.Registry.Exclusion.{
  acquire, release, stop, lease_is_exclusive, acquired_exactly, stop_fences,
}

abbrev held_lease : WatchdogLease
held_lease = record {
  name = "default";
  owner_id = "a";
  pid = 7;
  host = "h";
  started_at = 0;
  heartbeat_at = 0;
  expires_at = 9000;
}

abbrev rows : Leases
rows = held_lease ∷ []

lease_is_exclusive_example :
    acquire_watchdog_lease
      (Exclusion.after_calls rows (
        acquire "default" "b" 8 "h" 5000 10
        ∷ release "default" "b"
        ∷ stop "other" "stop:1" 5000 15
        ∷ []))
      "default"
      "c"
      9
      "h"
      5000
      20
    ≡ (
      (false, some held_lease),
      Exclusion.after_calls rows (
          acquire "default" "b" 8 "h" 5000 10
          ∷ release "default" "b"
          ∷ stop "other" "stop:1" 5000 15
          ∷ []),
    )
unfolding watchdog_lease find
lease_is_exclusive_example =
    lease_is_exclusive
      (acquire "default" "b" 8 "h" 5000 10
        ∷ release "default" "b"
        ∷ stop "other" "stop:1" 5000 15
        ∷ [])
      rows "default" "c" 9 "h" 5000 20 refl
      (
        (λ e. ground (arith, eq_iff "a" "b"), omega arith),
        (
          (λ e. ground (arith, eq_iff "a" "b")),
          ((λ e. ground (arith, eq_iff "default" "other")), tt),
        ),
      )
      (λ e. ground (arith, eq_iff "a" "c")) (omega arith)

stop_fences_example :
    ((heartbeat_watchdog_lease
        (request_watchdog_stop rows "default" "stop:1" 5000 10).1
        "default"
        "a"
        5000
        20).0
      ≡ false)
    × ((acquire_watchdog_lease
          (request_watchdog_stop rows "default" "stop:1" 5000 10).1
          "default"
          "a"
          7
          "h"
          5000
          20).0.0
        ≡ false)
unfolding watchdog_lease find starts_with
stop_fences_example =
    stop_fences rows "default" "stop:1" "a" 5000 10 5000 20 7 "h" refl refl
      (λ e. ground (arith, eq_iff "stop:1" "a")) (omega arith)

abbrev attempt : ActionAttemptState → ActionAttempt
attempt state = record {
  attempt_id = "act_1";
  task_id = "t";
  worker_id = "w";
  action = "continue_current_worker";
  fence_token = "f";
  fence_version = 1;
  prompt_hash = "p";
  nonce = "n";
  state = state;
  created_at = 10;
  updated_at = 10;
  pre_action_signature = none;
  transport_name = none;
  submitted_at = none;
  acknowledged_at = none;
  acknowledgement_kind = none;
  acknowledgement_hash = none;
  last_error = none;
  prompt_protocol = none;
  ack_uia_text_signature = none;
  ack_browser_signature = none;
}

abbrev store : ActionAttemptState → Store
store state = record { tasks = []; workers = []; attempts = attempt state ∷ [] }

one_unresolved_example :
    count "t"
      (after_calls
        (store ActionAttemptState.armed)
        (submit "act_1" "uia" 20 ∷ require_reconcile "act_1" "lost" none 30 ∷ [])).attempts
    ≤ 1
unfolding select
one_unresolved_example =
    one_unresolved (submit "act_1" "uia" 20 ∷ require_reconcile "act_1" "lost" none 30 ∷ [])
      (store ActionAttemptState.armed) "t" (omega arith)

abbrev other_attempt : ActionAttempt
other_attempt = record (attempt ActionAttemptState.submitted) { attempt_id = "act_2" }

-- a signature is read and written, while another attempt's row waits and is never written
signs :
    Run
      (store ActionAttemptState.acknowledged)
      (other_attempt ∷ [])
      (record (store ActionAttemptState.acknowledged) {
        attempts =
            record (attempt ActionAttemptState.acknowledged) { ack_browser_signature = some "s" }
            ∷ [];
      })
      []
unfolding find run_update signed_of replace_action_attempt put_attempt strip
signs =
    next
      (next (next here (reads (signing "s") "act_1" _ _ refl refl refl refl))
        (writes [] (other_attempt ∷ []) _ refl refl refl))
      (dies [] [] other_attempt refl refl refl)

settled_is_final_example :
    Stands
      (record (store ActionAttemptState.acknowledged) {
        attempts =
            record (attempt ActionAttemptState.acknowledged) { ack_browser_signature = some "s" }
            ∷ [];
      })
      "act_1"
      ActionAttemptState.acknowledged
unfolding find
settled_is_final_example =
    settled_is_final "act_1" ActionAttemptState.acknowledged refl
      (attempt ActionAttemptState.acknowledged, refl, refl)
      ((λ e. ground (arith, eq_iff "act_2" "act_1")), tt) signs

cancel_overwritten_example :
    (middle : Store) × (last : Store) × (row : ActionAttempt) × Run
      (store ActionAttemptState.armed)
      []
      middle
      (row ∷ [])
    × Stands middle "act_1" ActionAttemptState.cancelled
    × Run middle (row ∷ []) last []
    × Stands last "act_1" ActionAttemptState.submitted
unfolding find
cancel_overwritten_example =
    cancel_overwritten (store ActionAttemptState.armed) "act_1" "uia" "late" 20
      (attempt ActionAttemptState.armed, refl, refl)

abbrev task_row : TaskRow
task_row = record {
  task_id = "t";
  state = "SUSPECT";
  current_worker_id = some "w";
  recovery_attempts = 1;
  max_recovery_attempts = 3;
  updated_at = 5;
}

abbrev worker_row : WorkerRow
worker_row = record {
  worker_id = "w";
  task_id = "t";
  conversation_url = "u";
  conversation_id = none;
  status = "active";
  started_at = 0;
  last_seen_at = none;
  ended_at = none;
}

abbrev quiet : Store
quiet = record { tasks = task_row ∷ []; workers = worker_row ∷ []; attempts = [] }

abbrev recovering : Store
recovering = record quiet {
  tasks = charged 10 task_row ∷ [];
  attempts = attempt ActionAttemptState.armed ∷ [];
}

recovers : record_recovery_action_attempt quiet (attempt ActionAttemptState.armed) ≡ ok recovering
unfolding record_recovery_action_attempt check_authoritative insert_attempt charge find
recovers = refl

recovery_charges_one_example :
    (t : TaskRow) × (task_of quiet "t" ≡ some t)
    × (is_terminal_task t ≡ false)
    × (t.recovery_attempts < t.max_recovery_attempts)
    × (task_of recovering "t" ≡ some (charged 10 t))
    × (recovering.attempts ≡ quiet.attempts ++ attempt ActionAttemptState.armed ∷ [])
recovery_charges_one_example =
    recovery_charges_one quiet (attempt ActionAttemptState.armed) recovers

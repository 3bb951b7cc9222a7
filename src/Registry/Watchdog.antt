-- ===== src/Registry/Watchdog.antt =====
-- src/lws/registry.py, the lease that lets one watchdog process run. Times are whole milliseconds; a
-- caller without a time passes `time.time()`. The token of a stop is `uuid.uuid4().hex`, which is an
-- argument here.
use localshell_web_superviso.Base.{
  ℕ, ◌+◌, max, Bool, true, false, not, ◌&&◌, Option, none, some, String, List, [], ◌∷◌, find, any,
  select, starts_with, ◌==◌, ltb, if◌then◌else◌, Outcome, ok, raise, value_error,
}

pub record WatchdogLease : Type 0 where
  pub name : String
  pub owner_id : String
  pub pid : ℕ
  pub host : String
  pub started_at : ℕ
  pub heartbeat_at : ℕ
  pub expires_at : ℕ

-- the table `watchdog_leases`, with `name` as its key
abbrev pub Leases : Type 0
Leases = List WatchdogLease

-- `watchdog_lease`
unfoldable pub watchdog_lease : Leases → String → Option WatchdogLease
watchdog_lease rows name = find (λ (r : WatchdogLease). r.name == name) rows

-- `INSERT ... ON CONFLICT(name) DO UPDATE`
unfoldable pub put_row : WatchdogLease → Leases → Leases
put_row r [] = r ∷ []
put_row r (x ∷ xs) = if x.name == r.name then r ∷ xs else x ∷ put_row r xs

-- another owner's lease that has not expired
abbrev pub is_held : String → ℕ → Option WatchdogLease → Bool
is_held owner now none = false
is_held owner now (some r) = not (r.owner_id == owner) && ltb now r.expires_at

-- when the owner's own lease started, else now
abbrev pub start_of : String → ℕ → Option WatchdogLease → ℕ
start_of owner now none = now
start_of owner now (some r) = if r.owner_id == owner then r.started_at else now

-- `max(1.0, ttl_s)`, in milliseconds
abbrev pub lease_time : ℕ → ℕ
lease_time ttl = max 1000 ttl

abbrev pub granted : String → String → ℕ → String → ℕ → ℕ → ℕ → WatchdogLease
granted name owner pid host started ttl now = record {
  name = name;
  owner_id = owner;
  pid = pid;
  host = host;
  started_at = started;
  heartbeat_at = now;
  expires_at = now + lease_time ttl;
}

-- The lease that the call answers with is the caller's, or, with `False`, the holder's.
abbrev pub acquire_over :
    Leases
    → String
    → String
    → ℕ
    → String
    → ℕ
    → ℕ
    → Option WatchdogLease
    → Bool
    → (Bool × Option WatchdogLease) × Leases
acquire_over rows name owner pid host ttl now row true = ((false, row), rows)
acquire_over rows name owner pid host ttl now row false =
    let mine = granted name owner pid host (start_of owner now row) ttl now in
    ((true, some mine), put_row mine rows)

unfoldable pub acquire_watchdog_lease :
    Leases → String → String → ℕ → String → ℕ → ℕ → (Bool × Option WatchdogLease) × Leases
unfolding watchdog_lease
acquire_watchdog_lease rows name owner pid host ttl now =
    let row = watchdog_lease rows name in
    acquire_over rows name owner pid host ttl now row (is_held owner now row)

abbrev pub owns : String → String → WatchdogLease → Bool
owns name owner r = r.name == name && r.owner_id == owner

abbrev pub extend : String → String → ℕ → ℕ → WatchdogLease → WatchdogLease
extend name owner ttl now r =
    if owns name owner r
    then record r { heartbeat_at = now; expires_at = now + lease_time ttl }
    else r

unfoldable pub extend_rows : String → String → ℕ → ℕ → Leases → Leases
extend_rows name owner ttl now [] = []
extend_rows name owner ttl now (r ∷ rs) =
    extend name owner ttl now r ∷ extend_rows name owner ttl now rs

-- the update's row count, for a table with at most one row of a name
unfoldable pub heartbeat_watchdog_lease : Leases → String → String → ℕ → ℕ → Bool × Leases
heartbeat_watchdog_lease rows name owner ttl now =
    (any (owns name owner) rows, extend_rows name owner ttl now rows)

unfoldable pub release_watchdog_lease : Leases → String → String → Bool × Leases
release_watchdog_lease rows name owner =
    (any (owns name owner) rows, select (λ r. not (owns name owner r)) rows)

-- `UPDATE ... WHERE name = ?`: the stop takes the lease over
abbrev pub stop_row : String → String → ℕ → ℕ → WatchdogLease → WatchdogLease
stop_row name token grace now r =
    if r.name == name
    then record r { owner_id = token; heartbeat_at = now; expires_at = now + max 5000 grace }
    else r

unfoldable pub stop_rows : String → String → ℕ → ℕ → Leases → Leases
stop_rows name token grace now [] = []
stop_rows name token grace now (r ∷ rs) =
    stop_row name token grace now r ∷ stop_rows name token grace now rs

-- a stop that has not expired
abbrev pub is_stopping : ℕ → WatchdogLease → Bool
is_stopping now r = starts_with r.owner_id "stop:" && ltb now r.expires_at

-- The call answers with the lease, and the owner before the stop if it has made one.
abbrev pub stop_found :
    Leases
    → String
    → String
    → ℕ
    → ℕ
    → WatchdogLease
    → Bool
    → Option (WatchdogLease × Option String) × Leases
stop_found rows name token grace now r true = (some (r, none), rows)
stop_found rows name token grace now r false = (
  some (
    record r { owner_id = token; heartbeat_at = now; expires_at = now + max 5000 grace },
    some r.owner_id,
  ),
  stop_rows name token grace now rows,
)

abbrev pub stop_over :
    Leases
    → String
    → String
    → ℕ
    → ℕ
    → Option WatchdogLease
    → Option (WatchdogLease × Option String) × Leases
stop_over rows name token grace now none = (none, rows)
stop_over rows name token grace now (some r) =
    stop_found rows name token grace now r (is_stopping now r)

unfoldable pub request_watchdog_stop :
    Leases → String → String → ℕ → ℕ → Option (WatchdogLease × Option String) × Leases
unfolding watchdog_lease
request_watchdog_stop rows name token grace now =
    stop_over rows name token grace now (watchdog_lease rows name)

unfoldable pub clear_watchdog_stop : Leases → String → String → Outcome Bool × Leases
clear_watchdog_stop rows name owner =
    if starts_with owner "stop:"
    then (ok (any (owns name owner) rows), select (λ r. not (owns name owner r)) rows)
    else (raise (value_error "stop_owner_id must be a stop: lease token"), rows)

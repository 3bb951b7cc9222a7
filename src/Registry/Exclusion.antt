-- ===== src/Registry/Exclusion.antt =====
-- src/lws/registry.py, the watchdog lease: it has one holder, until it expires or is stopped.
use localshell_web_superviso.Base.{
  ℕ, ◌+◌, ◌<◌, ◌≡◌, ◌≢◌, refl, sym, ap, ◌∙◌, subst, Bool, true, false, ◌⊎◌, inl, inr, Option, some,
  Bool-cases, String, List, [], ◌∷◌, All, any, find, ◌==◌, eq_iff, if◌then◌else◌, if_inversion,
  arith, max, starts_with,
}
use localshell_web_superviso.Registry.Watchdog.{
  WatchdogLease, Leases, watchdog_lease, is_held, acquire_over, acquire_watchdog_lease, owns,
  heartbeat_watchdog_lease, release_watchdog_lease, stop_rows, stop_found, stop_over,
  request_watchdog_stop, clear_watchdog_stop, granted, start_of, is_stopping,
}
use localshell_web_superviso.Registry.LeaseRows.{
  put-same, put-other, extend-keeps, release-keeps, stop_rows-other, stop_over-cases, lease_name,
}

-- The calls for some lease, by some owner.
pub data Call : Type 0 where
  acquire : String → String → ℕ → String → ℕ → ℕ → Call
  heartbeat : String → String → ℕ → ℕ → Call
  release : String → String → Call
  clear : String → String → Call
  stop : String → String → ℕ → ℕ → Call

unfoldable pub after_call : Leases → Call → Leases
after_call rows (acquire name owner pid host ttl now) =
    (acquire_watchdog_lease rows name owner pid host ttl now).1
after_call rows (heartbeat name owner ttl now) =
    (heartbeat_watchdog_lease rows name owner ttl now).1
after_call rows (release name owner) = (release_watchdog_lease rows name owner).1
after_call rows (clear name owner) = (clear_watchdog_stop rows name owner).1
after_call rows (stop name token grace now) = (request_watchdog_stop rows name token grace now).1

abbrev pub after_calls : Leases → List Call → Leases
after_calls rows [] = rows
after_calls rows (c ∷ cs) = after_calls (after_call rows c) cs

-- The call is another owner's than that of the lease `r`, before `r` expires, and no stop of `r`.
abbrev pub IsOthers : WatchdogLease → Call → Type 0
IsOthers r (acquire name owner pid host ttl now) = (r.owner_id ≢ owner) × (now < r.expires_at)
IsOthers r (heartbeat name owner ttl now) = r.owner_id ≢ owner
IsOthers r (release name owner) = r.owner_id ≢ owner
IsOthers r (clear name owner) = r.owner_id ≢ owner
IsOthers r (stop name token grace now) = r.name ≢ name

held-true :
    (rows : Leases) (name owner : String) (now : ℕ) {r : WatchdogLease}
    → watchdog_lease rows name ≡ some r
    → r.owner_id ≢ owner
    → now < r.expires_at
    → is_held owner now (watchdog_lease rows name) ≡ true
held-true rows name owner now {r} h ne lt = rw (h) (ground (arith, eq_iff r.owner_id owner))

if-keeps {ℓ} :
    {A : Type ℓ} (name : String) (b : Bool) (x y : A × Leases) {o : Option WatchdogLease}
    → watchdog_lease x.1 name ≡ o
    → watchdog_lease y.1 name ≡ o
    → watchdog_lease (if b then x else y).1 name ≡ o
if-keeps name true x y h k = h
if-keeps name false x y h k = k

acquire-held :
    (rows : Leases) (name owner : String) (pid : ℕ) (host : String) (ttl now : ℕ)
    {r : WatchdogLease}
    → watchdog_lease rows name ≡ some r
    → r.owner_id ≢ owner
    → now < r.expires_at
    → acquire_watchdog_lease rows name owner pid host ttl now ≡ ((false, some r), rows)
unfolding acquire_watchdog_lease
acquire-held rows name owner pid host ttl now {r} h ne lt =
    ap (acquire_over rows name owner pid host ttl now (watchdog_lease rows name))
      (held-true rows name owner now h ne lt)
    ∙ ap (λ o. ((false, o), rows)) h

acquire-keeps :
    (rows : Leases) (name other owner : String) (pid : ℕ) (host : String) (ttl now : ℕ)
    {r : WatchdogLease}
    → watchdog_lease rows name ≡ some r
    → r.owner_id ≢ owner
    → now < r.expires_at
    → watchdog_lease (acquire_watchdog_lease rows other owner pid host ttl now).1 name ≡ some r
unfolding acquire_watchdog_lease
acquire-keeps rows name other owner pid host ttl now {r} h ne lt =
    let over = acquire_over rows other owner pid host ttl now (watchdog_lease rows other) in
    elim (Bool-cases (is_held owner now (watchdog_lease rows other))) [
      | inl t ↦ ap (λ b. watchdog_lease (over b).1 name) t ∙ h
      | inr f ↦
          ap (λ b. watchdog_lease (over b).1 name) f
          ∙ put-other name
              (granted other owner pid host (start_of owner now (watchdog_lease rows other)) ttl
                now)
              rows
              (λ same. cc (
                f,
                subst (λ n. is_held owner now (watchdog_lease rows n) ≡ true) (sym same)
                    (held-true rows name owner now h ne lt),
              ))
          ∙ h
    ]

stop-keeps :
    (rows : Leases) (name other token : String) (grace now : ℕ) {r : WatchdogLease}
    → watchdog_lease rows name ≡ some r
    → r.name ≢ other
    → watchdog_lease (request_watchdog_stop rows other token grace now).1 name ≡ some r
unfolding request_watchdog_stop
stop-keeps rows name other token grace now {r} h ne =
    elim (stop_over-cases rows other token grace now (watchdog_lease rows other)) [
      | inl same ↦ ap (λ rs. watchdog_lease rs name) same ∙ h
      | inr made ↦
          ap (λ rs. watchdog_lease rs name) made
          ∙ stop_rows-other rows name other token grace now (λ e. ne (lease_name rows name h ∙ e))
          ∙ h
    ]

call-keeps :
    (rows : Leases) (name : String) (c : Call) {r : WatchdogLease}
    → watchdog_lease rows name ≡ some r
    → IsOthers r c
    → watchdog_lease (after_call rows c) name ≡ some r
unfolding after_call heartbeat_watchdog_lease release_watchdog_lease clear_watchdog_stop
call-keeps rows name (acquire other owner pid host ttl now) h (ne, lt) =
    acquire-keeps rows name other owner pid host ttl now h ne lt
call-keeps rows name (heartbeat other owner ttl now) {r} h ne =
    extend-keeps name other owner r rows ttl now h ne
call-keeps rows name (release other owner) {r} h ne = release-keeps name other owner r rows h ne
call-keeps rows name (clear other owner) {r} h ne =
    if-keeps name (starts_with owner "stop:") _ _ (release-keeps name other owner r rows h ne) h
call-keeps rows name (stop other token grace now) h ne =
    stop-keeps rows name other token grace now h ne

calls-keep :
    (cs : List Call) (rows : Leases) (name : String) {r : WatchdogLease}
    → watchdog_lease rows name ≡ some r
    → All (IsOthers r) cs
    → watchdog_lease (after_calls rows cs) name ≡ some r
calls-keep [] rows name h others = h
calls-keep (c ∷ cs) rows name {r} h others =
    calls-keep cs (after_call rows c) name (call-keeps rows name c h others.0) others.1

-- While a lease has not expired and no stop of it is requested, whatever calls other owners make, stops
-- of other leases among them, it stays the holder's as it is, and another owner that asks for it is
-- refused, with the holder's lease as the answer and no change.
pub lease_is_exclusive :
    (cs : List Call) (rows : Leases) (name owner : String) (pid : ℕ) (host : String) (ttl now : ℕ)
    {r : WatchdogLease}
    → watchdog_lease rows name ≡ some r
    → All (IsOthers r) cs
    → r.owner_id ≢ owner
    → now < r.expires_at
    → acquire_watchdog_lease (after_calls rows cs) name owner pid host ttl now
      ≡ ((false, some r), after_calls rows cs)
lease_is_exclusive cs rows name owner pid host ttl now h others ne lt =
    acquire-held (after_calls rows cs) name owner pid host ttl now
      (calls-keep cs rows name h others) ne lt

-- A lease is granted exactly when no other owner holds it unexpired; it is then the caller's until the
-- time it asked for has passed, which is a second at least.
pub acquired_exactly :
    (rows : Leases) (name owner : String) (pid : ℕ) (host : String) (ttl now : ℕ)
    → ((is_held owner now (watchdog_lease rows name) ≡ true)
        × (acquire_watchdog_lease rows name owner pid host ttl now
            ≡ ((false, watchdog_lease rows name), rows)))
      ⊎ ((is_held owner now (watchdog_lease rows name) ≡ false)
          × (watchdog_lease (acquire_watchdog_lease rows name owner pid host ttl now).1 name
              ≡ some (
                  granted name owner pid host
                    (start_of owner now (watchdog_lease rows name))
                    ttl
                    now)))
unfolding acquire_watchdog_lease
acquired_exactly rows name owner pid host ttl now =
    let over = acquire_over rows name owner pid host ttl now (watchdog_lease rows name) in
    elim (Bool-cases (is_held owner now (watchdog_lease rows name))) [
      | inl t ↦ inl (t, ap over t)
      | inr f ↦ inr (
        f,
        ap (λ b. watchdog_lease (over b).1 name) f
            ∙ put-same name
                (granted name owner pid host (start_of owner now (watchdog_lease rows name)) ttl
                  now)
                rows refl,
      )
    ]

stopped_rows :
    (rows : Leases) (name token owner : String) (grace now : ℕ)
    → token ≢ owner
    → any (owns name owner) (stop_rows name token grace now rows) ≡ false
unfolding stop_rows
stopped_rows [] name token owner grace now ne = refl
stopped_rows (x ∷ rows) name token owner grace now ne = ground (
  arith,
  eq_iff x.name name,
  eq_iff x.owner_id owner,
  eq_iff token owner,
  stopped_rows rows name token owner grace now ne,
)

stopped_lease :
    (rows : Leases) (name token : String) (grace now : ℕ) {r : WatchdogLease}
    → watchdog_lease rows name ≡ some r
    → watchdog_lease (stop_rows name token grace now rows) name
      ≡ some (record r { owner_id = token; heartbeat_at = now; expires_at = now + max 5000 grace })
unfolding watchdog_lease find stop_rows
stopped_lease [] name token grace now h = cc
stopped_lease (x ∷ rows) name token grace now {r} h = elim (if_inversion (x.name == name) h) [
  | inl (t, e) ↦ ground (arith, t, e)
  | inr (f, e) ↦ let rest = stopped_lease rows name token grace now e in ground (arith, f, rest)
]

made_stop :
    (rows : Leases) (name token : String) (grace now : ℕ) {r : WatchdogLease}
    → watchdog_lease rows name ≡ some r
    → is_stopping now r ≡ false
    → (request_watchdog_stop rows name token grace now).1 ≡ stop_rows name token grace now rows
unfolding request_watchdog_stop
made_stop rows name token grace now {r} h idle =
    ap (λ o. (stop_over rows name token grace now o).1) h
    ∙ ap (λ b. (stop_found rows name token grace now r b).1) idle

-- A stop fences the holder: where a lease is held and no stop is under way, a stop is made, and after
-- it no owner but the stop's token can extend the lease, and none can acquire it during the grace
-- period, which is five seconds at least.
pub stop_fences :
    (rows : Leases) (name token owner : String) (grace now ttl later pid : ℕ) (host : String)
    {r : WatchdogLease}
    → watchdog_lease rows name ≡ some r
    → is_stopping now r ≡ false
    → token ≢ owner
    → later < now + max 5000 grace
    → ((heartbeat_watchdog_lease
          (request_watchdog_stop rows name token grace now).1
          name
          owner
          ttl
          later).0
        ≡ false)
      × ((acquire_watchdog_lease
            (request_watchdog_stop rows name token grace now).1
            name
            owner
            pid
            host
            ttl
            later).0.0
          ≡ false)
unfolding heartbeat_watchdog_lease
stop_fences rows name token owner grace now ttl later pid host h idle ne soon =
    let made = sym (made_stop rows name token grace now h idle) in
    (
      subst (λ rs. any (owns name owner) rs ≡ false) made
          (stopped_rows rows name token owner grace now ne),
      subst (λ rs. (acquire_watchdog_lease rs name owner pid host ttl later).0.0 ≡ false) made
          (ap (λ x. x.0.0)
            (acquire-held (stop_rows name token grace now rows) name owner pid host ttl later
              (stopped_lease rows name token grace now h) ne soon)),
    )

-- ===== src/Registry/LeaseRows.antt =====
-- src/lws/registry.py, the table `watchdog_leases`: what a write of one row leaves of the others.
use localshell_web_superviso.Base.{
  ℕ, ◌≡◌, ◌≢◌, refl, ap, not, ◌⊎◌, inl, inr, Option, none, some, Bool-cases, String, [], ◌∷◌, find,
  select, ◌==◌, eq_iff, if_inversion, arith,
}
use localshell_web_superviso.Registry.Watchdog.{
  WatchdogLease, Leases, watchdog_lease, put_row, owns, extend_rows, stop_rows, stop_found,
  stop_over, is_stopping,
}

module _ (name : String) (r : WatchdogLease) where
  pub put-same : (rows : Leases) → r.name ≡ name → watchdog_lease (put_row r rows) name ≡ some r
  unfolding watchdog_lease find put_row
  put-same [] h = ground (arith, eq_iff r.name name)
  put-same (x ∷ rows) h =
      ground (arith, eq_iff r.name name, eq_iff x.name r.name, eq_iff x.name name, put-same rows h)

  pub put-other :
      (rows : Leases)
      → r.name ≢ name
      → watchdog_lease (put_row r rows) name ≡ watchdog_lease rows name
  unfolding watchdog_lease find put_row
  put-other [] h = ground (arith, eq_iff r.name name)
  put-other (x ∷ rows) h =
      ground (arith, eq_iff r.name name, eq_iff x.name r.name, eq_iff x.name name, put-other rows h)

module _ (name other owner : String) (r : WatchdogLease) where
  pub extend-keeps :
      (rows : Leases) (ttl now : ℕ)
      → watchdog_lease rows name ≡ some r
      → r.owner_id ≢ owner
      → watchdog_lease (extend_rows other owner ttl now rows) name ≡ some r
  unfolding watchdog_lease find extend_rows
  extend-keeps [] ttl now h ne = cc
  extend-keeps (x ∷ rows) ttl now h ne = ground (
    arith,
    eq_iff x.name name,
    eq_iff x.name other,
    eq_iff x.owner_id owner,
    extend-keeps rows ttl now,
  )

  pub release-keeps :
      (rows : Leases)
      → watchdog_lease rows name ≡ some r
      → r.owner_id ≢ owner
      → watchdog_lease (select (λ x. not (owns other owner x)) rows) name ≡ some r
  unfolding watchdog_lease find select
  release-keeps [] h ne = cc
  release-keeps (x ∷ rows) h ne =
      ground (
        arith,
        eq_iff x.name name,
        eq_iff x.name other,
        eq_iff x.owner_id owner,
        release-keeps rows,
      )

-- A stop of another lease leaves this one.
pub stop_rows-other :
    (rows : Leases) (name other token : String) (grace now : ℕ)
    → name ≢ other
    → watchdog_lease (stop_rows other token grace now rows) name ≡ watchdog_lease rows name
unfolding watchdog_lease find stop_rows
stop_rows-other [] name other token grace now ne = refl
stop_rows-other (x ∷ rows) name other token grace now ne = ground (
  arith,
  eq_iff x.name name,
  eq_iff x.name other,
  stop_rows-other rows name other token grace now ne,
)

pub stop_over-cases :
    (rows : Leases) (name token : String) (grace now : ℕ) (o : Option WatchdogLease)
    → ((stop_over rows name token grace now o).1 ≡ rows)
      ⊎ ((stop_over rows name token grace now o).1 ≡ stop_rows name token grace now rows)
stop_over-cases rows name token grace now none = inl refl
stop_over-cases rows name token grace now (some r) = elim (Bool-cases (is_stopping now r)) [
  | inl t ↦ inl (ap (λ b. (stop_found rows name token grace now r b).1) t)
  | inr f ↦ inr (ap (λ b. (stop_found rows name token grace now r b).1) f)
]

pub lease_name :
    (rows : Leases) (name : String) {r : WatchdogLease}
    → watchdog_lease rows name ≡ some r
    → r.name ≡ name
unfolding watchdog_lease find
lease_name [] name h = cc
lease_name (x ∷ rows) name {r} h = elim (if_inversion (x.name == name) h) [
  | inl (t, e) ↦ ground (arith, t, e, eq_iff x.name name)
  | inr (f, e) ↦ lease_name rows name e
]

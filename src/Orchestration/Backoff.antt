-- ===== src/Orchestration/Backoff.antt =====
-- src/lws/orchestration.py, `_bounded_backoff`.
use localshell_web_superviso.Base.{ℕ, zero, suc, ◌^◌, ◌≤◌, min, max, arith}
use native.Mathlib.Nat.{mul-le-mul_left}
use localshell_web_superviso.Orchestration.Input.{OrchestrationPolicy, bounded_backoff}

power_positive : (k : ℕ) → 1 ≤ 2 ^ k
power_positive zero = ground arith
power_positive (suc k) = let h = power_positive k in ground arith

power_monotone : (k m : ℕ) → k ≤ m → 2 ^ k ≤ 2 ^ m
power_monotone zero m h = power_positive m
power_monotone (suc k) zero h = ground arith
power_monotone (suc k) (suc m) h = let r = power_monotone k m (ground arith) in ground arith

-- The wait is at least the base backoff, of at least 0.1 s, and at most the larger of that and the
-- policy's maximum; it never shrinks as the waits in a row grow.
pub backoff_bounded :
    (policy : OrchestrationPolicy) (waits more : ℕ)
    → waits ≤ more
    → (max 100 policy.base_backoff ≤ bounded_backoff policy waits)
      × (bounded_backoff policy waits ≤ max (max 100 policy.base_backoff) policy.max_backoff)
      × (bounded_backoff policy waits ≤ bounded_backoff policy more)
unfolding bounded_backoff
backoff_bounded policy waits more h =
    let base = max 100 policy.base_backoff in
    let least = mul-le-mul_left base (power_positive (min 16 waits)) in
    let grows = mul-le-mul_left base (power_monotone (min 16 waits) (min 16 more) (ground arith)) in
    ground arith

-- ===== src/Outbox/Backoff.antt =====
-- The delay before an event is tried again.
use native.Mathlib.Nat.{pow-suc}
use savemycontrollers.Outbox.{backoff_seconds}
use savemycontrollers.Prelude.{ℕ, zero, suc, ◌≤◌, ◌*◌, ◌^◌, ◌≡◌, arith, min}

one-le-pow : (n : ℕ) → 1 ≤ 2 ^ n
one-le-pow zero = omega arith
one-le-pow (suc n) = omega (arith, pow-suc 2 n, one-le-pow n)

-- The delay is between two seconds and an hour, never falls from one attempt to the next, and
-- doubles as long as it stays within the hour.
pub backoff_seconds_bounds :
    (n : ℕ)
    → (2 ≤ backoff_seconds n)
      × (backoff_seconds n ≤ 3600)
      × (backoff_seconds n ≤ backoff_seconds (suc n))
      × (backoff_seconds (suc n) ≡ min (2 * backoff_seconds n) 3600)
unfolding backoff_seconds
backoff_seconds_bounds n = omega (arith, pow-suc 2 n, one-le-pow n)

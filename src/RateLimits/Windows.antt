-- ===== src/RateLimits/Windows.antt =====
-- What a client of packages/queue/src/rate-limiter.ts can count on: each key has windows of its
-- own. A window opens with the first call and counts the calls until it ends.
use text.Mathlib.Text.{◌==◌ as str_eq}
use savemycontrollers.Prelude.{
  ℕ, suc, String, Instant, Bool, true, Option, none, some, List, [], ◌∷◌, ◌+◌, ◌*◌, ◌≤◌, leb, ltb,
  if◌then◌else◌,
}

pub record Window : Type 0 where
  pub count : ℕ
  pub end : Instant

abbrev opened : Instant → ℕ → Window
opened now seconds = record { count = 1; end = now + seconds * 1000 }

-- The window that a call at `now` is counted in.
unfoldable pub counted : Instant → ℕ → Option Window → Window
counted now seconds none = opened now seconds
counted now seconds (some w) =
    if ltb now w.end then record { count = suc w.count; end = w.end } else opened now seconds

-- The calls that reach the limiter, from any of the instances of the API.
pub data Call : Type 0 where
  check : Instant → String → ℕ → ℕ → Call
  reset : Instant → String → Call

abbrev pub at : Call → Instant
at (check now k limit seconds) = now
at (reset now k) = now

abbrev pub update : (String → Option Window) → String → Option Window → String → Option Window
update f k w j = if str_eq k j then w else f j

-- The answers to a run of calls, each `true` where the call was allowed.
unfoldable pub replay : List Call → (String → Option Window) → List Bool
unfolding counted
replay [] f = []
replay (check now k limit seconds ∷ calls) f =
    let w = counted now seconds (f k) in leb w.count limit ∷ replay calls (update f k (some w))
replay (reset now k ∷ calls) f = true ∷ replay calls (update f k none)

-- The calls come in the order of time, from `now` on.
abbrev pub IsInOrder : Instant → List Call → Type 0
IsInOrder now [] = Unit
IsInOrder now (c ∷ calls) = (now ≤ at c) × IsInOrder (at c) calls

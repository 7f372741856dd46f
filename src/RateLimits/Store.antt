-- ===== src/RateLimits/Store.antt =====
-- What packages/queue/src/rate-limiter.ts uses of Redis: a counter that may expire under each key,
-- and the commands INCR, EXPIRE and DEL with their documented effects.
use text.Mathlib.Text.{◌==◌ as str_eq}
use savemycontrollers.Prelude.{
  ℕ, suc, String, Instant, false, Option, none, some, ◌+◌, ◌*◌, ◌≡◌, ◌≤◌, ltb, if◌then◌else◌,
}

pub record Counter : Type 0 where
  pub count : ℕ
  pub expires_at : Option Instant

-- A counter is there until the instant at which it expires.
abbrev pub live : Instant → Option Counter → Option Counter
live now none = none
live now (some c) = elim c.expires_at [
  | none ↦ some c
  | some d ↦ if ltb now d then some c else none
]

abbrev pub count_of : Option Counter → ℕ
count_of none = 0
count_of (some c) = c.count

-- INCR keeps the expiry of the key.
abbrev pub incremented : Option Counter → Counter
incremented none = record { count = 1; expires_at = none }
incremented (some c) = record { count = suc c.count; expires_at = c.expires_at }

-- `view` is what a client would read under a key at an instant.
pub record Redis (S : Type 0) : Type 0 where
  pub view : Instant → S → String → Option Counter
  pub incr : Instant → String → S → ℕ × S
  pub expire : Instant → String → ℕ → S → S
  pub del : String → S → S
  pub ages :
      (now later : Instant) (s : S) (k : String)
      → now ≤ later
      → view later s k ≡ live later (view now s k)
  pub incr_value :
      (now : Instant) (k : String) (s : S) → (incr now k s).0 ≡ suc (count_of (view now s k))
  pub incr_same :
      (now : Instant) (k : String) (s : S)
      → view now (incr now k s).1 k ≡ some (incremented (view now s k))
  pub incr_other :
      (now : Instant) (k j : String) (s : S)
      → str_eq k j ≡ false
      → view now (incr now k s).1 j ≡ view now s j
  pub expire_same :
      (now : Instant) (k : String) (seconds : ℕ) (s : S) (c : Counter)
      → view now s k ≡ some c
      → view now (expire now k seconds s) k
        ≡ live now (some (record { count = c.count; expires_at = some (now + seconds * 1000) }))
  pub expire_other :
      (now : Instant) (k j : String) (seconds : ℕ) (s : S)
      → str_eq k j ≡ false
      → view now (expire now k seconds s) j ≡ view now s j
  pub del_same : (now : Instant) (k : String) (s : S) → view now (del k s) k ≡ none
  pub del_other :
      (now : Instant) (k j : String) (s : S)
      → str_eq k j ≡ false
      → view now (del k s) j ≡ view now s j

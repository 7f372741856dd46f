-- ===== src/RateLimits/Refinement.antt =====
-- The limiter over Redis, packages/queue/src/rate-limiter.ts, against windows per key.
use mathlib.Core.Path.{ap₂}
use text.Mathlib.Text.{◌==◌ as str_eq}
use text.Mathlib.TextEquality.{eq_iff}
use savemycontrollers.RateLimits.{check_and_increment, reset}
use savemycontrollers.RateLimits.Store.{Redis, Counter, live, incremented}
use savemycontrollers.RateLimits.Windows.{Window, counted, Call, check, update, replay, IsInOrder}
use savemycontrollers.Prelude.{
  ℕ, String, Instant, Bool, true, false, Option, none, some, List, [], ◌∷◌, ◌+◌, ◌*◌, ◌≡◌, ◌≤◌, ◌<◌,
  refl, sym, ap, ◌∙◌, inl, inr, arith, Bool-cases, Option-cases, leb,
}

module _ {S : Type 0} (redis : Redis S) where
  -- The answers of the code to a run of calls.
  unfoldable pub run : List Call → S → List Bool
  run [] s = []
  run (check now k limit seconds ∷ calls) s =
      let (result, s') = check_and_increment redis now k limit seconds s in
      result.allowed ∷ run calls s'
  run (Call.reset now k ∷ calls) s = true ∷ run calls (reset redis k s)

  abbrev as_counter : Option Window → Option Counter
  as_counter none = none
  as_counter (some w) = some (record { count = w.count; expires_at = some w.end })

  abbrev IsCounted : Option Window → Type 0
  IsCounted none = Unit
  IsCounted (some w) = 0 < w.count

  -- At `now`, Redis holds the windows that are open.
  abbrev pub Holds : Instant → S → (String → Option Window) → Type 0
  Holds now s f =
      (k : String) → (redis.view now s k ≡ live now (as_counter (f k))) × IsCounted (f k)

  live_later :
      (now later : Instant) (w : Option Window)
      → now ≤ later
      → live later (live now (as_counter w)) ≡ live later (as_counter w)
  live_later now later none h = refl
  live_later now later (some w) h = ground arith

  Holds-later :
      (now later : Instant) (s : S) (f : String → Option Window)
      → now ≤ later
      → Holds now s f
      → Holds later s f
  Holds-later now later s f h r k =
      (ground (arith, redis.ages now later s k, live_later now later (f k), r k), (r k).1)

  ages_to :
      (now later : Instant) (s : S) (f : String → Option Window) (k : String)
      → now ≤ later
      → Holds now s f
      → redis.view later s k ≡ live later (as_counter (f k))
  ages_to now later s f k h r = (Holds-later now later s f h r k).0

  counted-positive :
      (now : Instant) (seconds : ℕ) (w : Option Window) → 0 < (counted now seconds w).count
  unfolding counted
  counted-positive now seconds none = omega arith
  counted-positive now seconds (some w) = ground arith

  -- EXPIRE after INCR, whatever was there before.
  new_expiry :
      (now : Instant) (key : String) (seconds : ℕ) (s : S)
      → redis.view now (redis.expire now key seconds (redis.incr now key s).1) key
        ≡ live now (
            some (record {
              count = (incremented (redis.view now s key)).count;
              expires_at = some (now + seconds * 1000);
            }))
  new_expiry now key seconds s =
      redis.expire_same now key seconds (redis.incr now key s).1
        (incremented (redis.view now s key)) (redis.incr_same now key s)

  check_same :
      (now : Instant) (key : String) (limit seconds : ℕ) (s : S) (f : String → Option Window)
      → Holds now s f
      → redis.view now (check_and_increment redis now key limit seconds s).1 key
        ≡ live now (as_counter (some (counted now seconds (f key))))
  unfolding check_and_increment counted
  check_same now key limit seconds s f r = elim (Option-cases (f key)) [
    | inl fresh ↦ ground (
      arith,
      redis.incr_value now key s,
      redis.incr_same now key s,
      new_expiry now key seconds s,
      r key,
    )
    | inr (w, e) ↦ ground (
      arith,
      redis.incr_value now key s,
      redis.incr_same now key s,
      new_expiry now key seconds s,
      r key,
    )
  ]

  check_other :
      (now : Instant) (key k : String) (limit seconds : ℕ) (s : S)
      → str_eq key k ≡ false
      → redis.view now (check_and_increment redis now key limit seconds s).1 k ≡ redis.view now s k
  unfolding check_and_increment
  check_other now key k limit seconds s other = ground (
    arith,
    redis.incr_other now key k s,
    redis.expire_other now key k seconds (redis.incr now key s).1,
  )

  -- A step that sets the window of one key and leaves the others.
  update-Holds :
      (now : Instant) (key : String) (w : Option Window) (s s' : S) (f : String → Option Window)
      → Holds now s f
      → redis.view now s' key ≡ live now (as_counter w)
      → IsCounted w
      → ((k : String) → str_eq key k ≡ false → redis.view now s' k ≡ redis.view now s k)
      → Holds now s' (update f key w)
  update-Holds now key w s s' f r at_key counted_w others k = elim (Bool-cases (str_eq key k)) [
    | inl same ↦ let e = (eq_iff key k).0 same in rw same ((rw (sym e) at_key), counted_w)
    | inr other ↦ rw other (others k other ∙ (r k).0, (r k).1)
  ]

  check-Holds :
      (now : Instant) (key : String) (limit seconds : ℕ) (s : S) (f : String → Option Window)
      → Holds now s f
      → Holds now
          (check_and_increment redis now key limit seconds s).1
          (update f key (some (counted now seconds (f key))))
  check-Holds now key limit seconds s f r =
      update-Holds now key (some (counted now seconds (f key))) s
        (check_and_increment redis now key limit seconds s).1 f r
        (check_same now key limit seconds s f r) (counted-positive now seconds (f key))
        (λ k. check_other now key k limit seconds s)

  reset-Holds :
      (now : Instant) (key : String) (s : S) (f : String → Option Window)
      → Holds now s f
      → Holds now (reset redis key s) (update f key none)
  reset-Holds now key s f r =
      update-Holds now key none s (reset redis key s) f r (redis.del_same now key s) tt
        (λ k. redis.del_other now key k s)

  check_allowed :
      (now : Instant) (key : String) (limit seconds : ℕ) (s : S) (f : String → Option Window)
      → Holds now s f
      → (check_and_increment redis now key limit seconds s).0.allowed
        ≡ leb (counted now seconds (f key)).count limit
  unfolding check_and_increment counted
  check_allowed now key limit seconds s f r = elim (Option-cases (f key)) [
    | inl fresh ↦ ground (arith, redis.incr_value now key s, r key)
    | inr (w, e) ↦ ground (arith, redis.incr_value now key s, r key)
  ]

  -- Whatever calls reach the limiter, in the order of time, with any keys, limits and windows: the
  -- answers of the code over Redis are those of windows that each key has for itself, from a Redis
  -- that holds these windows on.
  pub run_refines :
      (calls : List Call) (now : Instant) (s : S) (f : String → Option Window)
      → Holds now s f
      → IsInOrder now calls
      → run calls s ≡ replay calls f
  unfolding run replay
  run_refines [] now s f r h = refl
  run_refines (check later k limit seconds ∷ calls) now s f r h =
      let r' = Holds-later now later s f h.0 r in
      ap₂ ◌∷◌ (check_allowed later k limit seconds s f r') (
        run_refines calls later (check_and_increment redis later k limit seconds s).1
          (update f k (some (counted later seconds (f k))))
          (check-Holds later k limit seconds s f r') h.1)
  run_refines (Call.reset later k ∷ calls) now s f r h = ap (true ∷◌) (
      run_refines calls later (reset redis k s) (update f k none)
        (reset-Holds later k s f (Holds-later now later s f h.0 r)) h.1)

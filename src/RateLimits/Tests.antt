-- ===== src/RateLimits/Tests.antt =====
-- A Redis whose keys are a function, and runs of packages/queue/src/rate-limiter.ts over it.
use text.Mathlib.Text.{◌==◌ as str_eq}
use text.Mathlib.TextPositions.{eq_refl}
use savemycontrollers.RateLimits.{check_and_increment}
use savemycontrollers.RateLimits.Store.{Redis, Counter, live, count_of, incremented}
use savemycontrollers.RateLimits.Windows.{Call, check, replay}
use savemycontrollers.RateLimits.Refinement.{run, run_refines}
use savemycontrollers.RateLimits.Counts.{window-limit, retry-allowed, allowed_of}
use savemycontrollers.Prelude.{
  suc, String, Instant, true, false, Option, none, some, List, [], ◌∷◌, ◌++◌, ◌+◌, ◌*◌, ◌≡◌, ◌≤◌,
  refl, arith, if◌then◌else◌, Option-cases, inl, inr,
}

abbrev Keys : Type 0
Keys = String → Option Counter

abbrev set_key : String → Option Counter → Keys → Keys
set_key k o s j = if str_eq k j then o else s j

abbrev expiring : Instant → Option Counter → Option Counter
expiring at none = none
expiring at (some c) = some (record { count = c.count; expires_at = some at })

live_later :
    (now later : Instant) (o : Option Counter)
    → now ≤ later
    → live later o ≡ live later (live now o)
live_later now later none h = refl
live_later now later (some c) h = ground arith

live-incremented :
    (now : Instant) (o : Option Counter)
    → live now (some (incremented (live now o))) ≡ some (incremented (live now o))
live-incremented now none = refl
live-incremented now (some c) = elim (Option-cases c.expires_at) [
  | inl never ↦ ground arith
  | inr (d, e) ↦ ground arith
]

set_key_same : (k : String) (o : Option Counter) (s : Keys) → set_key k o s k ≡ o
set_key_same k o s = rw (eq_refl k) refl

set_key_other :
    (k j : String) (o : Option Counter) (s : Keys) → str_eq k j ≡ false → set_key k o s j ≡ s j
set_key_other k j o s h = rw h refl

abbrev keys_redis : Redis Keys
keys_redis = record {
  view = λ now s k. live now (s k);
  incr = λ now k s.
      (suc (count_of (live now (s k))), set_key k (some (incremented (live now (s k)))) s);
  expire = λ now k seconds s. set_key k (expiring (now + seconds * 1000) (live now (s k))) s;
  del = λ k s. set_key k none s;
  ages = λ now later s k h. live_later now later (s k) h;
  incr_value = λ now k s. refl;
  incr_same = λ now k s.
      rw (set_key_same k (some (incremented (live now (s k)))) s) (live-incremented now (s k));
  incr_other = λ now k j s h. rw (set_key_other k j (some (incremented (live now (s k)))) s h) refl;
  expire_same = λ now k seconds s c h.
      rw (set_key_same k (expiring (now + seconds * 1000) (live now (s k))) s, h) refl;
  expire_other = λ now k j seconds s h.
      rw (set_key_other k j (expiring (now + seconds * 1000) (live now (s k))) s h) refl;
  del_same = λ now k s. rw (set_key_same k none s) refl;
  del_other = λ now k j s h. rw (set_key_other k j none s h) refl;
}

-- The third login within a minute is refused where the limit is two; the other key is not counted.
abbrev logins : List Call
logins =
    check 1000 "login:a" 2 60
    ∷ check 2000 "login:b" 2 60
    ∷ check 3000 "login:a" 2 60
    ∷ check 4000 "login:a" 2 60
    ∷ []

run_refines_example : run keys_redis logins (λ _. none) ≡ replay logins (λ _. none)
run_refines_example =
    run_refines keys_redis logins 0 (λ _. none) (λ _. none) (λ k. (refl, tt))
      (omega arith, (omega arith, (omega arith, (omega arith, tt))))

window-limit_example : allowed_of "login:a" logins (run keys_redis logins (λ _. none)) ≡ 2
window-limit_example =
    window-limit keys_redis "login:a" 2 60 0 logins (λ _. none) (λ _. none) (λ k. (refl, tt)) refl
      (omega arith, (omega arith, (omega arith, (omega arith, tt)))) refl

retry-allowed_example :
    run keys_redis (logins ++ check 64000 "login:a" 2 60 ∷ []) (λ _. none)
    ≡ true ∷ true ∷ true ∷ false ∷ true ∷ []
unfolding run check_and_increment
retry-allowed_example =
    retry-allowed keys_redis "login:a" 2 60 0 64000 logins (λ _. none) (λ _. none) (λ k. (refl, tt))
      (λ k. tt) (omega arith, (omega arith, (omega arith, (omega arith, (omega arith, tt))))) refl
      (omega arith)

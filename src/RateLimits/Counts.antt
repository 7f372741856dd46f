-- ===== src/RateLimits/Counts.antt =====
-- How many calls packages/queue/src/rate-limiter.ts allows in a window, and when it allows the next.
use text.Mathlib.Text.{◌==◌ as str_eq}
use text.Mathlib.TextEquality.{eq_iff}
use savemycontrollers.RateLimits.Store.{Redis}
use savemycontrollers.RateLimits.Windows.{
  Window, counted, Call, at, check, reset, update, replay, IsInOrder,
}
use savemycontrollers.RateLimits.Refinement.{run, Holds, run_refines}
use savemycontrollers.Prelude.{
  ℕ, suc, String, Instant, Bool, true, false, Option, none, some, List, [], ◌∷◌, ◌++◌, ◌+◌, ◌-◌,
  ◌*◌, ◌≡◌, ◌≤◌, ◌&&◌, ◌||◌, ◌==◌, ap, ◌∙◌, sym, arith, inl, inr, Bool-cases, leb, ltb, min, not,
  all, if◌then◌else◌,
}

-- The checks of one key among the calls, and those of them that were allowed.
abbrev pub is_check_of : String → Call → Bool
is_check_of k (check now j limit seconds) = str_eq j k
is_check_of k (reset now j) = false

abbrev pub checks_of : String → List Call → ℕ
checks_of k [] = 0
checks_of k (c ∷ calls) = (if is_check_of k c then 1 else 0) + checks_of k calls

abbrev pub allowed_of : String → List Call → List Bool → ℕ
allowed_of k [] answers = 0
allowed_of k (c ∷ calls) [] = 0
allowed_of k (c ∷ calls) (a ∷ answers) =
    (if is_check_of k c && a then 1 else 0) + allowed_of k calls answers

-- The checks of the key have one limit and one length, and come before an instant; it is not reset.
abbrev pub is_uniform : String → ℕ → ℕ → Instant → Call → Bool
is_uniform k limit seconds until (check now j l w) =
    not (str_eq j k) || (l == limit && (w == seconds && ltb now until))
is_uniform k limit seconds until (reset now j) = not (str_eq j k)

at_key :
    (f : String → Option Window) (j k : String) (o : Option Window)
    → str_eq j k ≡ true
    → f k ≡ o
    → f j ≡ o
at_key f j k o same e = rw ((eq_iff j k).0 same) e

-- In a window that is open, the calls that are left of the limit are allowed.
open_window :
    (k : String) (limit seconds : ℕ) (until : Instant) (calls : List Call)
    (f : String → Option Window) (w : Window)
    → f k ≡ some w
    → until ≤ w.end
    → all (is_uniform k limit seconds until) calls ≡ true
    → allowed_of k calls (replay calls f) ≡ min (checks_of k calls) (limit - w.count)
unfolding replay counted
open_window k limit seconds until [] f w e h u = omega arith
open_window k limit seconds until (reset now j ∷ calls) f w e h u = omega (
  arith,
  open_window k limit seconds until calls (update f j none) w (ground (arith, e)) h (ground arith),
)
open_window k limit seconds until (check now j l s ∷ calls) f w e h u =
    elim (Bool-cases (str_eq j k)) [
      | inl same ↦ ground (
        arith,
        at_key f j k (some w) same e,
        open_window k limit seconds until calls (update f j (some (counted now s (f j))))
            (record { count = suc w.count; end = w.end })
            (ground (arith, at_key f j k (some w) same e)) h (ground arith),
      )
      | inr other ↦ ground (
        arith,
        open_window k limit seconds until calls (update f j (some (counted now s (f j)))) w
            (ground (arith, e)) h (ground arith),
      )
    ]

-- Calls in order from a later instant on are in order from an earlier one.
later_order :
    (now : Instant) (c : Call) (calls : List Call) → IsInOrder now (c ∷ calls) → IsInOrder now calls
later_order now c [] h = tt
later_order now c (d ∷ calls) h = (omega (arith, h.0, h.1.0), h.1.1)

-- A window that is not yet open opens with the first check, and ends after `until`.
new_window :
    (k : String) (limit seconds now : ℕ) (calls : List Call) (f : String → Option Window)
    → f k ≡ none
    → IsInOrder now calls
    → all (is_uniform k limit seconds (now + seconds * 1000)) calls ≡ true
    → allowed_of k calls (replay calls f) ≡ min (checks_of k calls) limit
unfolding replay counted
new_window k limit seconds now [] f e h u = omega arith
new_window k limit seconds now (reset later j ∷ calls) f e h u = omega (
  arith,
  new_window k limit seconds now calls (update f j none) (ground (arith, e))
      (later_order now (reset later j) calls h) (ground arith),
)
new_window k limit seconds now (check later j l s ∷ calls) f e h u =
    elim (Bool-cases (str_eq j k)) [
      | inl same ↦ ground (
        arith,
        at_key f j k none same e,
        open_window k limit seconds (now + seconds * 1000) calls
            (update f j (some (counted later s (f j))))
            (record { count = 1; end = later + seconds * 1000 })
            (ground (arith, at_key f j k none same e)) (ground arith) (ground arith),
      )
      | inr other ↦ ground (
        arith,
        new_window k limit seconds now calls (update f j (some (counted later s (f j))))
            (ground (arith, e)) (later_order now (check later j l s) calls h) (ground arith),
      )
    ]

-- While a key has no window at `now` and every check of it has the same limit and the same length
-- and comes within that length from `now`, exactly the first `limit` of its checks are allowed,
-- however many there are and whatever other keys are checked between them.
pub window-limit :
    {S : Type 0} (redis : Redis S) (k : String) (limit seconds now : ℕ) (calls : List Call) (s : S)
    (f : String → Option Window)
    → Holds redis now s f
    → f k ≡ none
    → IsInOrder now calls
    → all (is_uniform k limit seconds (now + seconds * 1000)) calls ≡ true
    → allowed_of k calls (run redis calls s) ≡ min (checks_of k calls) limit
window-limit redis k limit seconds now calls s f r e h u =
    rw (run_refines redis calls now s f r h) (new_window k limit seconds now calls f e h u)

-- The window that the call opens or counts in has ended at an instant.
abbrev pub has_ended_by : Instant → Call → Bool
has_ended_by later (check now j l seconds) = leb (now + seconds * 1000) later
has_ended_by later (reset now j) = true

abbrev pub IsEndedBy : Instant → Option Window → Type 0
IsEndedBy later none = Unit
IsEndedBy later (some w) = w.end ≤ later

counted-IsEndedBy :
    (later now seconds : ℕ) (o : Option Window)
    → now + seconds * 1000 ≤ later
    → IsEndedBy later o
    → (counted now seconds o).end ≤ later
unfolding counted
counted-IsEndedBy later now seconds none h e = h
counted-IsEndedBy later now seconds (some w) h e = ground arith

update-IsEndedBy :
    (later : Instant) (f : String → Option Window) (j : String) (o : Option Window)
    → ((k : String) → IsEndedBy later (f k))
    → IsEndedBy later o
    → (k : String) → IsEndedBy later (update f j o k)
update-IsEndedBy later f j o e h k = elim (Bool-cases (str_eq j k)) [
  | inl same ↦ rw same h
  | inr other ↦ rw other (e k)
]

fresh_allowed :
    (limit seconds later : ℕ) (o : Option Window)
    → IsEndedBy later o
    → 1 ≤ limit
    → leb (counted later seconds o).count limit ≡ true
unfolding counted
fresh_allowed limit seconds later none e l = ground arith
fresh_allowed limit seconds later (some w) e l = ground arith

retry_replayed :
    (k : String) (limit seconds later : ℕ) (calls : List Call) (f : String → Option Window)
    → ((j : String) → IsEndedBy later (f j))
    → all (has_ended_by later) calls ≡ true
    → 1 ≤ limit
    → replay (calls ++ check later k limit seconds ∷ []) f ≡ replay calls f ++ true ∷ []
unfolding replay
retry_replayed k limit seconds later [] f e h l =
    ap (λ b. b ∷ []) (fresh_allowed limit seconds later (f k) (e k) l)
retry_replayed k limit seconds later (reset now j ∷ calls) f e h l = ap (true ∷◌) (
    retry_replayed k limit seconds later calls (update f j none)
      (update-IsEndedBy later f j none e tt) h l)
retry_replayed k limit seconds later (check now j m s ∷ calls) f e h l =
    ap (leb (counted now s (f j)).count m ∷◌) (
      retry_replayed k limit seconds later calls (update f j (some (counted now s (f j))))
        (update-IsEndedBy later f j (some (counted now s (f j))) e
          (counted-IsEndedBy later now s (f j) (ground arith) (e j)))
        (ground arith) l)

before_last :
    (now : Instant) (calls : List Call) (c : Call)
    → IsInOrder now (calls ++ c ∷ [])
    → IsInOrder now calls
before_last now [] c h = tt
before_last now (d ∷ calls) c h = (h.0, before_last (at d) calls c h.1)

-- A key is never locked out: a check at an instant by which the windows of all the checks before it
-- have ended is allowed, where the limit is at least one. So are the answers before it unchanged.
pub retry-allowed :
    {S : Type 0} (redis : Redis S) (k : String) (limit seconds now later : ℕ) (calls : List Call)
    (s : S) (f : String → Option Window)
    → Holds redis now s f
    → ((j : String) → IsEndedBy later (f j))
    → IsInOrder now (calls ++ check later k limit seconds ∷ [])
    → all (has_ended_by later) calls ≡ true
    → 1 ≤ limit
    → run redis (calls ++ check later k limit seconds ∷ []) s ≡ run redis calls s ++ true ∷ []
retry-allowed redis k limit seconds now later calls s f r e order h l =
    run_refines redis (calls ++ check later k limit seconds ∷ []) now s f r order
    ∙ (retry_replayed k limit seconds later calls f e h l
        ∙ ap (λ answers. answers ++ true ∷ [])
            (sym (run_refines redis calls now s f r (before_last now calls _ order))))

-- ===== src/References/Sequence.antt =====
-- No commercial reference is drawn twice.
use savemycontrollers.References.{
  Scope, same_scope, ReferenceCounter, is_counter, increment, next_reference_sequence,
}
use savemycontrollers.Prelude.{
  ℕ, List, [], ◌∷◌, ◌≡◌, ◌≤◌, ◌<◌, ◌+◌, refl, arith, ok, if◌then◌else◌, true,
}

-- The last value drawn of a sequence.
abbrev pub last_drawn : Scope → ℕ → List ReferenceCounter → ℕ
last_drawn scope year [] = 0
last_drawn scope year (c ∷ counters) =
    if is_counter scope year c then c.last_value else last_drawn scope year counters

same_scope_refl : (scope : Scope) → same_scope scope scope ≡ true
same_scope_refl Scope.order_scope = refl
same_scope_refl Scope.repair_scope = refl

increment-last_drawn :
    (scope : Scope) (year : ℕ) (counters : List ReferenceCounter)
    → ((increment scope year counters).0 ≡ last_drawn scope year counters + 1)
      × (last_drawn scope year (increment scope year counters).1
          ≡ last_drawn scope year counters + 1)
unfolding increment
increment-last_drawn scope year [] = ground (arith, same_scope_refl scope)
increment-last_drawn scope year (c ∷ counters) =
    ground (arith, increment-last_drawn scope year counters)

other-last_drawn :
    (scope other : Scope) (year year' : ℕ) (counters : List ReferenceCounter)
    → last_drawn scope year counters ≤ last_drawn scope year (increment other year' counters).1
unfolding increment
other-last_drawn scope other year year' [] = ground arith
other-last_drawn scope other year year' (c ∷ counters) =
    ground (arith, other-last_drawn scope other year year' counters)

-- The counters after a list of draws, of any sequences.
unfoldable pub draws : List (Scope × ℕ) → List ReferenceCounter → List ReferenceCounter
draws [] counters = counters
draws ((scope, year) ∷ later) counters = draws later (next_reference_sequence scope year counters).1

next-last_drawn :
    (scope other : Scope) (year year' : ℕ) (counters : List ReferenceCounter)
    → last_drawn scope year counters
      ≤ last_drawn scope year (next_reference_sequence other year' counters).1
unfolding next_reference_sequence
next-last_drawn scope other year year' counters =
    ground (arith, other-last_drawn scope other year year' counters)

draws-last_drawn :
    (scope : Scope) (year : ℕ) (ds : List (Scope × ℕ)) (counters : List ReferenceCounter)
    → last_drawn scope year counters ≤ last_drawn scope year (draws ds counters)
unfolding draws
draws-last_drawn scope year [] counters = omega arith
draws-last_drawn scope year ((other, year') ∷ ds) counters = omega (
  arith,
  next-last_drawn scope other year year' counters,
  draws-last_drawn scope year ds (next_reference_sequence other year' counters).1,
)

next_result :
    (scope : Scope) (year y v : ℕ) (counters : List ReferenceCounter)
    → (next_reference_sequence scope year counters).0 ≡ ok (y, v)
    → (y ≡ year)
      × (v ≡ last_drawn scope year counters + 1)
      × (v ≤ 999999)
      × (last_drawn scope year (next_reference_sequence scope year counters).1 ≡ v)
unfolding next_reference_sequence
next_result scope year y v counters r = ground (arith, increment-last_drawn scope year counters)

-- Two references drawn of one sequence, with any draws of any sequences between them, carry the year
-- of the call and numbers of at most six digits, the later one the larger.
pub references_increase :
    (scope : Scope) (year y y' v w : ℕ) (between : List (Scope × ℕ))
    (counters : List ReferenceCounter)
    → (next_reference_sequence scope year counters).0 ≡ ok (y, v)
    → let counters' = draws between (next_reference_sequence scope year counters).1 in
      (next_reference_sequence scope year counters').0 ≡ ok (y', w)
      → (y ≡ year) × (y' ≡ year) × (1 ≤ v) × (v < w) × (w ≤ 999999)
references_increase scope year y y' v w between counters first second =
    let counters' = draws between (next_reference_sequence scope year counters).1 in
    let (e, n, b, l) = next_result scope year y v counters first in
    let (e', n', b', l') = next_result scope year y' w counters' second in
    (
      e,
      e',
      omega (arith, n),
      omega (
        arith,
        l,
        n',
        draws-last_drawn scope year between (next_reference_sequence scope year counters).1,
      ),
      b',
    )

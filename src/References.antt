-- ===== src/References.antt =====
-- The counters of commercial references: `nextReferenceSequence` of
-- packages/database/src/outbox-claim.ts, and
-- apps/api/src/modules/core/services/reference-generator.service.ts.
pub mod Sequence
use savemycontrollers.Errors.{internal}
use savemycontrollers.Prelude.{
  ℕ, Bool, true, false, Option, none, some, List, [], ◌∷◌, ◌+◌, ◌==◌, ◌&&◌, ltb, Result, ok, err,
  if◌then◌else◌,
}

pub data Scope : Type 0 where
  order_scope repair_scope : Scope

abbrev pub same_scope : Scope → Scope → Bool
same_scope order_scope order_scope = true
same_scope order_scope repair_scope = false
same_scope repair_scope repair_scope = true
same_scope repair_scope order_scope = false

pub record ReferenceCounter : Type 0 where
  pub scope : Scope
  pub year : ℕ
  pub last_value : ℕ

abbrev pub is_counter : Scope → ℕ → ReferenceCounter → Bool
is_counter scope year c = same_scope c.scope scope && c.year == year

-- `INSERT … ON CONFLICT … DO UPDATE … RETURNING last_value`
unfoldable pub increment : Scope → ℕ → List ReferenceCounter → ℕ × List ReferenceCounter
increment scope year [] = (1, record { scope = scope; year = year; last_value = 1 } ∷ [])
increment scope year (c ∷ counters) =
    let (value, rest) = increment scope year counters in
    if is_counter scope year c
    then (c.last_value + 1, record c { last_value = c.last_value + 1 } ∷ counters)
    else (value, c ∷ rest)

-- The counter stays incremented where the call throws.
unfoldable pub next_reference_sequence :
    Scope → ℕ → List ReferenceCounter → Result (ℕ × ℕ) × List ReferenceCounter
next_reference_sequence scope year counters =
    let (value, counters') = increment scope year counters in
    if ltb 999999 value
    then (err (internal "Compteur de reference epuise."), counters')
    else (ok (year, value), counters')

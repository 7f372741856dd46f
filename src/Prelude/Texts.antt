-- ===== src/Prelude/Texts.antt =====
-- Texts as JavaScript sees them: a code point above 0xffff counts twice in a length.
use Prim.Native.Char.{Char, code}
use Prim.Native.Nat.{ℕ, ◌+◌, ◌-◌, ◌≤◌}
use Prim.Native.String.{String, [], ◌∷◌}
use mathlib.Core.Logic.{inl, inr}
use mathlib.Core.Bool.{◌&&◌}
use mathlib.Core.Option.{Option, none, some}
use native.Mathlib.Omega.{arith}
use savemycontrollers.Prelude.Tests.{◌==◌, ltb, leb, leb→le, Bool-cases, if◌then◌else◌}

abbrev pub units : Char → ℕ
units c = if ltb 0xffff (code c) then 2 else 1

-- `t.length`
abbrev pub utf16_length : String → ℕ
utf16_length [] = 0
utf16_length (c ∷ t) = units c + utf16_length t

-- `t.slice(0, n)`, less the first half of a pair that it may leave at the end.
abbrev pub slice_units : ℕ → String → String
slice_units n [] = []
slice_units n (c ∷ t) =
    let rest = slice_units (n - units c) t in if leb (units c) n then c ∷ rest else []

pub utf16_length-slice-le : (n : ℕ) (t : String) → utf16_length (slice_units n t) ≤ n
utf16_length-slice-le n [] = omega arith
utf16_length-slice-le n (c ∷ t) = elim (Bool-cases (leb (units c) n)) [
  | inl fits ↦
      rw fits (omega (arith, leb→le (units c) n fits, utf16_length-slice-le (n - units c) t))
  | inr over ↦ rw over (omega arith)
]

-- A code with an ASCII letter in lower case, as a regular expression with the flag `i` compares it.
abbrev fold : Char → ℕ
fold c = if leb b'A' (code c) && leb (code c) b'Z' then code c + 32 else code c

-- What follows the pattern at the start of a text, where it stands there.
abbrev pub after_pattern : String → String → Option String
after_pattern [] t = some t
after_pattern (p ∷ ps) [] = none
after_pattern (p ∷ ps) (c ∷ t) =
    let rest = after_pattern ps t in if fold p == fold c then rest else none

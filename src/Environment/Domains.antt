-- ===== src/Environment/Domains.antt =====
-- The texts that `containsLocalOrExampleDomain` of apps/api/src/config/env.schema.ts finds, as its
-- regular expression reads.
use Prim.Native.Char.{code}
use Prim.Native.String.{◌++◌ as text_append, [] as empty_text, ◌∷◌ as char_cons}
use text.Mathlib.Text.{◌==◌ as str_eq}
use text.Mathlib.TextEquality.{eq_iff}
use text.Mathlib.TextLemmas.{nil-append, cons-append}
use mathlib.Core.Path.{sym}
use savemycontrollers.Environment.{contains_local_or_example_domain, has_localhost, has_example}
use savemycontrollers.Prelude.{
  String, Bool, true, false, Option, none, some, ◌≡◌, ◌⊎◌, ◌&&◌, ◌||◌, ◌==◌, not, inl, inr, refl,
  ap, ◌∙◌, arith, after_pattern, Bool-cases,
}

-- What follows is the end, a colon or a slash: `([:/]|$)`.
abbrev pub ends_label : Option String → Bool
ends_label none = false
ends_label (some empty_text) = true
ends_label (some (char_cons c t)) = code c == b':' || code c == b'/'

-- What goes before is the start, or ends with a dot or a slash: `(^|[./])`.
abbrev pub starts_label : Bool → String → Bool
starts_label start empty_text = start
starts_label start (char_cons c t) = starts_label (code c == b'.' || code c == b'/') t

-- "localhost", in any case, between two such bounds.
abbrev pub HasLocalhost : Bool → String → Type 0
HasLocalhost start value =
    (before rest : String) × (value ≡ text_append before rest)
    × (starts_label start before ≡ true)
    × (ends_label (after_pattern "localhost" rest) ≡ true)

-- ".example", in any case, before such a bound.
abbrev pub HasExample : String → Type 0
HasExample value =
    (before rest : String) × (value ≡ text_append before rest)
    × (ends_label (after_pattern ".example" rest) ≡ true)

abbrev pub IsDevDomain : String → Type 0
IsDevDomain value = HasLocalhost true value ⊎ HasExample value

either : (a b : Bool) → (a || b) ≡ true → (a ≡ true) ⊎ (b ≡ true)
either true b h = inl refl
either false b h = inr h

both : (a b : Bool) → (a && b) ≡ true → (a ≡ true) × (b ≡ true)
both a b h = (ground arith, ground arith)

or_left : (a b : Bool) → a ≡ true → (a || b) ≡ true
or_left a b h = ground arith

or_right : (a b : Bool) → b ≡ true → (a || b) ≡ true
or_right a b h = ground arith

and_both : (a b : Bool) → a ≡ true → b ≡ true → (a && b) ≡ true
and_both a b h k = ground arith

has_localhost-HasLocalhost :
    (start : Bool) (value : String) → has_localhost start value ≡ true → HasLocalhost start value
unfolding has_localhost
has_localhost-HasLocalhost start empty_text h = absurd (ground arith)
has_localhost-HasLocalhost start (char_cons c t) h =
    elim (either (start && ends_label (after_pattern "localhost" (char_cons c t)))
      (has_localhost (code c == b'.' || code c == b'/') t) h) [
        | inl here ↦
            let (begins, ends) = both start _ here in
            (empty_text, char_cons c t, sym (nil-append (char_cons c t)), begins, ends)
        | inr later ↦
            let (before, rest, split, begins, ends) =
              has_localhost-HasLocalhost (code c == b'.' || code c == b'/') t later in
            (
              char_cons c before,
              rest,
              ap (λ u. char_cons c u) split ∙ sym (cons-append c before rest),
              begins,
              ends,
            )
      ]

localhost_found :
    (start : Bool) (before rest : String)
    → starts_label start before ≡ true
    → ends_label (after_pattern "localhost" rest) ≡ true
    → has_localhost start (text_append before rest) ≡ true
unfolding has_localhost
localhost_found start empty_text empty_text begins ends = absurd (ground arith)
localhost_found start empty_text (char_cons c t) begins ends =
    rw (nil-append (char_cons c t)) (or_left _ _ (and_both start _ begins ends))
localhost_found start (char_cons c before) rest begins ends =
    rw (cons-append c before rest)
      (or_right _ _ (localhost_found (code c == b'.' || code c == b'/') before rest begins ends))

has_example-HasExample : (value : String) → has_example value ≡ true → HasExample value
unfolding has_example
has_example-HasExample empty_text h = absurd (ground arith)
has_example-HasExample (char_cons c t) h =
    elim (either (ends_label (after_pattern ".example" (char_cons c t))) (has_example t) h) [
      | inl here ↦ (empty_text, char_cons c t, sym (nil-append (char_cons c t)), here)
      | inr later ↦
          let (before, rest, split, ends) = has_example-HasExample t later in
          (
            char_cons c before,
            rest,
            ap (λ u. char_cons c u) split ∙ sym (cons-append c before rest),
            ends,
          )
    ]

example_found :
    (before rest : String)
    → ends_label (after_pattern ".example" rest) ≡ true
    → has_example (text_append before rest) ≡ true
unfolding has_example
example_found empty_text empty_text ends = absurd (ground arith)
example_found empty_text (char_cons c t) ends = rw (nil-append (char_cons c t)) (or_left _ _ ends)
example_found (char_cons c before) rest ends =
    rw (cons-append c before rest) (or_right _ _ (example_found before rest ends))

-- The test of the code, and its reading.
pub contains-IsDevDomain :
    (value : String) → contains_local_or_example_domain value ≡ true → IsDevDomain value
unfolding contains_local_or_example_domain
contains-IsDevDomain value h = elim (either (has_localhost true value) (has_example value) h) [
  | inl local ↦ inl (has_localhost-HasLocalhost true value local)
  | inr example ↦ inr (has_example-HasExample value example)
]

pub IsDevDomain-contains :
    (value : String) → IsDevDomain value → contains_local_or_example_domain value ≡ true
unfolding contains_local_or_example_domain
IsDevDomain-contains value (inl (before, rest, split, begins, ends)) =
    let local : has_localhost true value ≡ true =
      ap (has_localhost true) split ∙ localhost_found true before rest begins ends in
    rw local refl
IsDevDomain-contains value (inr (before, rest, split, ends)) =
    let example : has_example value ≡ true =
      ap has_example split ∙ example_found before rest ends in
    ground (arith, example)

-- The rule of production passes exactly the texts that are no domain of development.
pub passed-not-IsDevDomain :
    (value : String)
    → (not (str_eq value "") && contains_local_or_example_domain value) ≡ false
    → IsDevDomain value
    → ⊥
unfolding contains_local_or_example_domain has_localhost has_example
passed-not-IsDevDomain value passed dev =
    let found = IsDevDomain-contains value dev in
    elim (Bool-cases (str_eq value "")) [
      | inl empty ↦
          let at_empty : contains_local_or_example_domain "" ≡ true =
            ap contains_local_or_example_domain (sym ((eq_iff value "").0 empty)) ∙ found in
          absurd (ground (arith, at_empty))
      | inr text ↦ absurd (ground arith)
    ]

pub not-IsDevDomain-passed :
    (value : String)
    → (IsDevDomain value → ⊥)
    → (not (str_eq value "") && contains_local_or_example_domain value) ≡ false
not-IsDevDomain-passed value no_dev = elim (Bool-cases (contains_local_or_example_domain value)) [
  | inl found ↦ absurd (no_dev (contains-IsDevDomain value found))
  | inr clean ↦ rw clean (ground arith)
]

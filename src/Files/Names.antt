-- ===== src/Files/Names.antt =====
-- `sanitizeDisplayFileName` of apps/api/src/modules/files/services/file.service.ts. A text is the
-- list of its code points; JavaScript counts those above 0xffff twice.
use Prim.Native.Char.{Char, code}
use Prim.Native.String.{[], ◌∷◌}
use savemycontrollers.Prelude.{
  ℕ, String, Bool, true, ◌-◌, ◌≤◌, ◌≡◌, ◌||◌, ◌&&◌, ◌==◌, arith, ◌<◌, leb, ltb, ltb→lt, units,
  utf16_length, slice_units, utf16_length-slice-le, inl, inr, Bool-cases, if◌then◌else◌, refl,
}

-- `-`, `_`, `.` and the space.
abbrev is_mark : Char → Bool
is_mark c = code c == b'-' || (code c == b'_' || (code c == b'.' || code c == b' '))

and_true : (a b : Bool) → a ≡ true → b ≡ true → (a && b) ≡ true
and_true a b h k = ground arith

and_left : (a b : Bool) → (a && b) ≡ true → a ≡ true
and_left a b h = ground arith

and_right : (a b : Bool) → (a && b) ≡ true → b ≡ true
and_right a b h = ground arith

module _ (is_letter_or_number : Char → Bool) where
  abbrev pub is_display_char : Char → Bool
  is_display_char c = is_letter_or_number c || is_mark c

  -- `replace(/[^\p{L}\p{N}\-_. ]/gu, "_")`
  abbrev pub replace_unsafe : String → String
  replace_unsafe [] = []
  replace_unsafe (c ∷ t) = (if is_display_char c then c else "_") ∷ replace_unsafe t

  unfoldable pub sanitize_display_file_name : String → String
  sanitize_display_file_name raw_name =
      if ltb 0 (utf16_length (slice_units 180 (replace_unsafe raw_name)))
      then slice_units 180 (replace_unsafe raw_name)
      else "fichier"

  abbrev pub all_display : String → Bool
  all_display [] = true
  all_display (c ∷ t) = is_display_char c && all_display t

  -- What the name is replaced by is safe too.
  display_char : (c : Char) → is_display_char (if is_display_char c then c else "_") ≡ true
  display_char c = elim (Bool-cases (is_display_char c)) [
    | inl safe ↦ rw safe safe
    | inr other ↦ rw other (ground arith)
  ]

  replace_unsafe-display : (t : String) → all_display (replace_unsafe t) ≡ true
  replace_unsafe-display [] = refl
  replace_unsafe-display (c ∷ t) = rw (display_char c) (replace_unsafe-display t)

  slice_units-display :
      (n : ℕ) (t : String) → all_display t ≡ true → all_display (slice_units n t) ≡ true
  slice_units-display n [] h = refl
  slice_units-display n (c ∷ t) h = elim (Bool-cases (leb (units c) n)) [
    | inl fits ↦ rw fits (
        and_true (is_display_char c) (all_display (slice_units (n - units c) t))
          (and_left (is_display_char c) (all_display t) h)
          (slice_units-display (n - units c) t (and_right (is_display_char c) (all_display t) h)))
    | inr over ↦ rw over refl
  ]

  abbrev cut_name : String → String
  cut_name raw_name = slice_units 180 (replace_unsafe raw_name)

  -- The stored name of a file holds safe characters only, is not empty, and has at most 180 units,
  -- whatever the client sent, where the letters of the word "fichier" count as letters.
  pub sanitize-display :
      (raw_name : String)
      → all_display "fichier" ≡ true
      → (all_display (sanitize_display_file_name raw_name) ≡ true)
        × (0 < utf16_length (sanitize_display_file_name raw_name))
        × (utf16_length (sanitize_display_file_name raw_name) ≤ 180)
  unfolding sanitize_display_file_name
  sanitize-display raw_name letters = elim (Bool-cases (ltb 0 (utf16_length (cut_name raw_name)))) [
    | inl text ↦ rw text (
      slice_units-display 180 (replace_unsafe raw_name) (replace_unsafe-display raw_name),
      ltb→lt 0 (utf16_length (cut_name raw_name)) text,
      utf16_length-slice-le 180 (replace_unsafe raw_name),
    )
    | inr empty ↦ rw empty (letters, omega arith, omega arith)
  ]

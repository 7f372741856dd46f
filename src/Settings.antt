-- ===== src/Settings.antt =====
-- apps/api/src/modules/settings: the settings table, its readers and its one write.
pub mod History
mod Tests
use Prim.Native.String.{◌++◌}
use text.Mathlib.Text.{◌==◌ as str_eq}
use savemycontrollers.Errors.{not_found}
use savemycontrollers.Prelude.{
  ℕ, String, Bool, Option, none, some, true, false, List, [], ◌∷◌, ◌++◌ as list_append, Result, ok,
  err, Uuid, any, filter, find?, update_where, or_else, if◌then◌else◌,
}

pub data ValueType : Type 0 where
  string number boolean json : ValueType

-- A JSON value is its text, and a number, a double in the database, is whole and not negative.
pub record Setting : Type 0 where
  pub key : String
  pub value_type : ValueType
  pub value_string : Option String
  pub value_number : Option ℕ
  pub value_boolean : Option Bool
  pub value_json : Option String
  pub is_public : Bool

-- SettingsRepository.findByKey
abbrev pub find_by_key : List Setting → String → Option Setting
find_by_key settings k = find? (λ (s : Setting). str_eq s.key k) settings

abbrev fallback_or_throw {ℓ} : {A : Type ℓ} → String → Option A → Result A
fallback_or_throw k (some a) = ok a
fallback_or_throw k none = err (not_found ("Parametre \"" ++ k ++ "\" introuvable."))

unfoldable pub get_string : List Setting → String → Option String → Result String
get_string settings k fallback = elim (find_by_key settings k) [
  | none ↦ fallback_or_throw k fallback
  | some s ↦ ok (or_else s.value_string (or_else fallback ""))
]

unfoldable pub get_number : List Setting → String → Option ℕ → Result ℕ
get_number settings k fallback = elim (find_by_key settings k) [
  | none ↦ fallback_or_throw k fallback
  | some s ↦ elim s.value_number [ none ↦ fallback_or_throw k fallback | some n ↦ ok n ]
]

unfoldable pub get_boolean : List Setting → String → Option Bool → Result Bool
get_boolean settings k fallback = elim (find_by_key settings k) [
  | none ↦ fallback_or_throw k fallback
  | some s ↦ elim s.value_boolean [ none ↦ fallback_or_throw k fallback | some b ↦ ok b ]
]

-- `listPublic`
abbrev pub list_public : List Setting → List Setting
list_public settings = filter (λ (s : Setting). s.is_public) settings

-- The argument `data` of `upsert`: what is absent is left as it is.
pub record SettingData : Type 0 where
  pub value_type : ValueType
  pub value_string : Option String
  pub value_number : Option ℕ
  pub value_boolean : Option Bool
  pub value_json : Option String
  pub is_public : Option Bool
  pub updated_by_user_id : Option Uuid

abbrev or_kept {ℓ} : {A : Type ℓ} → Option A → Option A → Option A
or_kept none old = old
or_kept (some a) old = some a

abbrev pub written : SettingData → Setting → Setting
written d s = record s {
  value_type = d.value_type;
  value_string = or_kept d.value_string s.value_string;
  value_number = or_kept d.value_number s.value_number;
  value_boolean = or_kept d.value_boolean s.value_boolean;
  value_json = or_kept d.value_json s.value_json;
  is_public = or_else d.is_public s.is_public;
}

abbrev pub new_setting : String → SettingData → Setting
new_setting k d = record {
  key = k;
  value_type = d.value_type;
  value_string = d.value_string;
  value_number = d.value_number;
  value_boolean = d.value_boolean;
  value_json = d.value_json;
  is_public = or_else d.is_public false;
}

-- A value as the history keeps it; a text or a JSON value that is null, and so on, is `empty`.
pub data SettingValue : Type 0 where
  empty : SettingValue
  text_value json_value : String → SettingValue
  number_value : ℕ → SettingValue
  boolean_value : Bool → SettingValue

abbrev value_of {ℓ} : {A : Type ℓ} → (A → SettingValue) → Option A → SettingValue
value_of f none = empty
value_of f (some a) = f a

unfoldable pub extract_value : Setting → SettingValue
extract_value s = elim s.value_type [
  | string ↦ value_of text_value s.value_string
  | number ↦ value_of number_value s.value_number
  | boolean ↦ value_of boolean_value s.value_boolean
  | json ↦ value_of json_value s.value_json
]

pub record SettingHistory : Type 0 where
  pub setting_key : String
  pub old_value : Option SettingValue
  pub new_value : SettingValue
  pub changed_by_user_id : Option Uuid

pub record SettingStore : Type 0 where
  pub settings : List Setting
  pub history : List SettingHistory

abbrev upsert_row : String → SettingData → Option Setting → List Setting → List Setting
upsert_row k d none rows = list_append rows (new_setting k d ∷ [])
upsert_row k d (some s) rows = update_where (λ (r : Setting). str_eq r.key k) (written d) rows

abbrev pub updated_row : String → SettingData → Option Setting → Setting
updated_row k d none = new_setting k d
updated_row k d (some s) = written d s

abbrev old_value_of : Option Setting → Option SettingValue
old_value_of none = none
old_value_of (some s) = some (extract_value s)

-- `upsert`, with the line of the history.
unfoldable pub upsert : String → SettingData → SettingStore → Setting × SettingStore
unfolding extract_value
upsert k d s =
    let existing = find_by_key s.settings k in
    let updated = updated_row k d existing in
    (
      updated,
      record {
        settings = upsert_row k d existing s.settings;
        history = list_append s.history (
            record {
              setting_key = k;
              old_value = old_value_of existing;
              new_value = extract_value updated;
              changed_by_user_id = d.updated_by_user_id;
            }
            ∷ []);
      },
    )

-- ===== src/Settings/Tests.antt =====
-- A tax rate that an administrator sets twice, through apps/api/src/modules/settings.
use savemycontrollers.Settings.{
  SettingData, SettingStore, number, number_value, extract_value, get_number, upsert,
}
use savemycontrollers.Prelude.{ℕ, none, some, true, [], ◌∷◌, ok, ◌≡◌, refl}

abbrev rate : ℕ → SettingData
rate basis_points = record {
  value_type = number;
  value_string = none;
  value_number = some basis_points;
  value_boolean = none;
  value_json = none;
  is_public = some true;
  updated_by_user_id = some 9;
}

abbrev no_settings : SettingStore
no_settings = record { settings = []; history = [] }

abbrev changed : SettingStore
changed =
    (upsert "tax.default_rate_basis_points" (rate 1000)
      (upsert "tax.default_rate_basis_points" (rate 2000) no_settings).1).1

rate_read : get_number changed.settings "tax.default_rate_basis_points" none ≡ ok 1000
unfolding upsert get_number
rate_read = refl

rate_history :
    changed.history
    ≡ record {
      setting_key = "tax.default_rate_basis_points";
      old_value = none;
      new_value = number_value 2000;
      changed_by_user_id = some 9;
    }
      ∷ record {
        setting_key = "tax.default_rate_basis_points";
        old_value = some (number_value 2000);
        new_value = number_value 1000;
        changed_by_user_id = some 9;
      }
      ∷ []
unfolding upsert extract_value
rate_history = refl

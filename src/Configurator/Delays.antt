-- ===== src/Configurator/Delays.antt =====
-- The estimated delay of a configuration.
use savemycontrollers.Configurator.Data.{ConfigurationRequest, LeadTime, LeadTimeRule}
use savemycontrollers.Prelude.{
  Bool, List, ◌≡◌, ◌≤◌, All, contains, is_some, is_id, not, ◌&&◌, ◌||◌, ◌==◌, any, true,
}

-- A rule is within a delay.
abbrev pub Within : LeadTime → LeadTimeRule → Type 0
Within t r = (r.min_days ≤ t.min_days) × (r.max_days ≤ t.max_days)

-- The rules that count for a request: of a selected service, and for every model or for this one.
abbrev pub applies_to : ConfigurationRequest → LeadTimeRule → Bool
applies_to input r =
    contains r.service_id input.service_ids
    && (not (is_some r.device_model_id) || is_id r.device_model_id input.device_model_id)

abbrev pub IsOrdered : LeadTimeRule → Type 0
IsOrdered r = r.min_days ≤ r.max_days

-- The delay is the longest of 5 to 10 days and of the rules: as long as each of them, and one of them.
pub record IsLongest (t : LeadTime) (rules : List LeadTimeRule) : Type 0 where
  pub min_start : 5 ≤ t.min_days
  pub max_start : 10 ≤ t.max_days
  pub all_within : All (Within t) rules
  pub min_attained :
      (5 == t.min_days || any (λ (r : LeadTimeRule). r.min_days == t.min_days) rules) ≡ true
  pub max_attained :
      (10 == t.max_days || any (λ (r : LeadTimeRule). r.max_days == t.max_days) rules) ≡ true

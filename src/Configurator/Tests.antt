-- ===== src/Configurator/Tests.antt =====
-- The configurator run on a small catalogue, and its theorems at concrete inputs.
use savemycontrollers.Catalog.{
  Catalog, active, archived, is_device_model_active, is_device_variant_active,
  is_hardware_revision_valid, find_services_by_ids, find_options_by_ids,
  find_required_options_for_services,
}
use savemycontrollers.Configurator.Data.{
  Store, ConfigurationRequest, PricingRule, standard, compatibility_rules_for_services,
  exclusion_rules_for_services, requirement_rules_for_services,
}
use savemycontrollers.Configurator.Grouping.{group_by, bucket_of, nonempty, bucket_of-group_by}
use savemycontrollers.Configurator.Pricing.{pick_most_specific_pricing_rule, compute_price}
use savemycontrollers.Configurator.Validate.{
  validate, all_issues, device_issues, duplicate_issues, service_issue, option_issue,
  required_option_issue, compatibility_issue, exclusion_issue, requirement_issue, selected_options,
}
use savemycontrollers.Configurator.Prices.{AddsUp, IsTaxOf, configured_rate, validate-AddsUp}
use savemycontrollers.Settings.{Setting, number}
use savemycontrollers.Configurator.Specificity.{
  Picked, pick-Picked, is_family_only, pick-family_only,
}
use savemycontrollers.Prelude.{Uuid, true, false, not, none, some, [], ◌∷◌, ◌≡◌, ◌==◌, refl, filter}

-- Model 1 with variant 11; services 21 and 22, the latter with the required option 31.
abbrev pub small_catalog : Catalog
small_catalog = record {
  models =
      record {
        id = 1;
        name = "DualSense";
        status = active;
        variants = record { id = 11; name = "Blanc"; status = active } ∷ [];
      }
      ∷ [];
  revisions = record { id = 12; device_variant_id = 11 } ∷ [];
  services =
      record { id = 21; name = "Joystick"; status = active; base_price_minor = 2999 }
      ∷ record { id = 22; name = "Batterie"; status = active; base_price_minor = 1999 }
      ∷ record { id = 23; name = "Coque"; status = archived; base_price_minor = 999 }
      ∷ [];
  options =
      record {
        id = 31;
        service_id = 22;
        name = "Longue duree";
        status = active;
        extra_price_minor = 500;
        is_required = true;
      }
      ∷ [];
}

abbrev family_rule : PricingRule
family_rule = record {
  service_id = 21;
  product_family_id = some 5;
  device_model_id = none;
  device_variant_id = none;
  client_type = standard;
  amount_minor = 1;
  valid_from = none;
  valid_until = none;
}

abbrev model_rule : PricingRule
model_rule = record family_rule {
  product_family_id = none;
  device_model_id = some 1;
  amount_minor = 2500;
}

-- A rule for variant 99 of the same model.
abbrev other_variant_rule : PricingRule
other_variant_rule = record model_rule { device_variant_id = some 99; amount_minor = 4000 }

abbrev pub small_store : Store
small_store = record {
  catalog = small_catalog;
  settings = [];
  compatibility_rules =
      record {
        service_id = 21;
        device_model_id = some 1;
        device_variant_id = none;
        hardware_revision_id = none;
      }
      ∷ [];
  exclusion_rules = [];
  requirement_rules = record { service_id = 21; required_service_id = 22 } ∷ [];
  recommendation_rules = [];
  pricing_rules = family_rule ∷ model_rule ∷ [];
  company_overrides =
      record {
        company_id = 7;
        service_id = 21;
        amount_minor = 2000;
        valid_from = some 100;
        valid_until = none;
      }
      ∷ [];
  lead_time_rules =
      record { service_id = 21; device_model_id = some 1; min_days = 7; max_days = 9 } ∷ [];
}

abbrev pub small_request : ConfigurationRequest
small_request = record {
  device_model_id = 1;
  device_variant_id = 11;
  hardware_revision_id = some 12;
  service_ids = 21 ∷ 22 ∷ [];
  option_ids = 31 ∷ [];
}

-- The total is 2500 by the rule of the model, 1999 and 500 of the catalogue, and 20 % of tax; the
-- negotiated price of company 7 starts at instant 100; a joystick alone is refused.
small_runs :
    ((validate small_store small_request none 500).price.total_minor ≡ 5999)
    × ((validate small_store small_request (some 7) 500).price.subtotal_minor ≡ 4499)
    × ((validate small_store (record small_request { service_ids = 21 ∷ [] }) none 500).valid
        ≡ false)
unfolding validate all_issues device_issues duplicate_issues service_issue option_issue
    required_option_issue compatibility_issue exclusion_issue requirement_issue selected_options
    is_device_model_active is_device_variant_active is_hardware_revision_valid find_services_by_ids
    find_options_by_ids find_required_options_for_services compatibility_rules_for_services
    exclusion_rules_for_services requirement_rules_for_services group_by compute_price
small_runs = (refl, refl, refl)

-- The price of a rule for another variant of the model goes before the general price.
other_variant_priced :
    pick_most_specific_pricing_rule
      (other_variant_rule ∷ record model_rule { device_model_id = none } ∷ [])
      small_request
    ≡ some other_variant_rule
unfolding pick_most_specific_pricing_rule
other_variant_priced = refl

-- A rate of 5.5 percent.
abbrev reduced_rate : Setting
reduced_rate = record {
  key = "tax.default_rate_basis_points";
  value_type = number;
  value_string = none;
  value_number = some 550;
  value_boolean = none;
  value_json = none;
  is_public = false;
}

abbrev taxed_store : Store
taxed_store = record small_store { settings = reduced_rate ∷ [] }

validate-AddsUp_example :
    AddsUp (validate taxed_store small_request (some 7) 500).price
    × IsTaxOf
        (configured_rate taxed_store.settings)
        (validate taxed_store small_request (some 7) 500).price
validate-AddsUp_example = validate-AddsUp taxed_store small_request (some 7) 500

pick-Picked_example :
    Picked small_request
      (family_rule ∷ model_rule ∷ [])
      (pick_most_specific_pricing_rule (family_rule ∷ model_rule ∷ []) small_request)
pick-Picked_example = pick-Picked (family_rule ∷ model_rule ∷ []) small_request

pick-family_only_run :
    pick_most_specific_pricing_rule
      (filter (λ r. not (is_family_only r)) (family_rule ∷ model_rule ∷ []))
      small_request
    ≡ pick_most_specific_pricing_rule (family_rule ∷ model_rule ∷ []) small_request
pick-family_only_run = pick-family_only (family_rule ∷ model_rule ∷ []) small_request

bucket_of-group_by_run :
    bucket_of 2 (group_by (λ (n : Uuid). n) (1 ∷ 2 ∷ 1 ∷ 2 ∷ []))
    ≡ nonempty (filter (λ (n : Uuid). n == 2) (1 ∷ 2 ∷ 1 ∷ 2 ∷ []))
bucket_of-group_by_run = bucket_of-group_by (λ (n : Uuid). n) 2 (1 ∷ 2 ∷ 1 ∷ 2 ∷ [])

-- ===== src/Configurator/Validity/Spec.antt =====
-- When a configuration is valid, over the whole tables and the lists as the client sent them: what
-- apps/api/src/modules/configurator/services/configurator.service.ts promises.
use savemycontrollers.Catalog.{
  Catalog, Service, ServiceOption, is_active, is_device_model_active, is_device_variant_active,
  is_hardware_revision_valid,
}
use savemycontrollers.Configurator.Data.{
  Store, ConfigurationRequest, CompatibilityRule, ExclusionRule, RequirementRule,
}
use savemycontrollers.Prelude.{
  Uuid, Bool, true, false, none, some, List, ◌&&◌, ◌||◌, ◌==◌, not, find?, any, all, contains,
  is_some, is_id, same_id, is_distinct,
}

-- The specification, over the whole tables and the lists as the client sent them.
abbrev pub has_revision : Store → ConfigurationRequest → Bool
has_revision db input = elim input.hardware_revision_id [
  | none ↦ true
  | some revision ↦ is_hardware_revision_valid db.catalog input.device_variant_id revision
]

abbrev pub offers_service : Catalog → Uuid → Bool
offers_service c i = elim (find? (λ (s : Service). s.id == i) c.services) [
  | none ↦ false
  | some s ↦ is_active s.status
]

abbrev pub offers_option : Catalog → List Uuid → Uuid → Bool
offers_option c service_ids i = elim (find? (λ (o : ServiceOption). o.id == i) c.options) [
  | none ↦ false
  | some o ↦ contains o.service_id service_ids && is_active o.status
]

abbrev pub is_mandatory : List Uuid → ServiceOption → Bool
is_mandatory service_ids o =
    contains o.service_id service_ids && o.is_required && is_active o.status

-- The rule is for every model or for the requested one, and so for the variant and for the revision.
abbrev pub covers : CompatibilityRule → ConfigurationRequest → Bool
covers r input =
    (not (is_some r.device_model_id) || is_id r.device_model_id input.device_model_id)
    && (not (is_some r.device_variant_id) || is_id r.device_variant_id input.device_variant_id)
    && (not (is_some r.hardware_revision_id)
        || same_id r.hardware_revision_id input.hardware_revision_id)

abbrev pub is_compatible : Store → ConfigurationRequest → Uuid → Bool
is_compatible db input i =
    not (any (λ (r : CompatibilityRule). r.service_id == i) db.compatibility_rules)
    || any (λ (r : CompatibilityRule). r.service_id == i && covers r input) db.compatibility_rules

unfoldable pub is_configurable : Store → ConfigurationRequest → Bool
is_configurable db input =
    is_device_model_active db.catalog input.device_model_id
    && (is_device_variant_active db.catalog input.device_model_id input.device_variant_id
        && (has_revision db input
            && (is_distinct input.service_ids
                && (all (offers_service db.catalog) input.service_ids
                    && (all (offers_option db.catalog input.service_ids) input.option_ids
                        && (all
                              (λ o.
                                not (is_mandatory input.service_ids o)
                                || contains o.id input.option_ids)
                              db.catalog.options
                            && (all (is_compatible db input) input.service_ids
                                && (all
                                      (λ (r : ExclusionRule). not (
                                        contains r.service_a_id input.service_ids
                                        && contains r.service_b_id input.service_ids))
                                      db.exclusion_rules
                                    && all
                                        (λ (r : RequirementRule).
                                          not (contains r.service_id input.service_ids)
                                          || contains r.required_service_id input.service_ids)
                                        db.requirement_rules))))))))

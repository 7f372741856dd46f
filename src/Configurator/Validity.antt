-- ===== src/Configurator/Validity.antt =====
-- `validate` against the specification of a valid configuration.
mod Spec
mod Rules
unfoldable pub use Spec.*
use savemycontrollers.Catalog.{Catalog, is_hardware_revision_valid}
use savemycontrollers.Configurator.Data.{
  ConfigurationIssue, CompatibilityRule, ExclusionRule, RequirementRule,
  compatibility_rules_for_services, exclusion_rules_for_services, requirement_rules_for_services,
}
use savemycontrollers.Configurator.Validate.{
  compatibility_issue, exclusion_issue, requirement_issue, rule_matches,
}
use savemycontrollers.Configurator.Grouping.{group_by, bucket_of, nonempty, bucket_of-group_by}
use savemycontrollers.Prelude.{Bool, false, none, some, ap, any}

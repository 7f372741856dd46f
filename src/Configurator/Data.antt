-- ===== src/Configurator/Data.antt =====
-- The requests, rules and results of apps/api/src/modules/configurator: the tables that
-- rules.repository.ts reads, and the contracts of packages/contracts/src/configurator.
use savemycontrollers.Catalog.{Catalog}
use savemycontrollers.Settings.{Setting}
use savemycontrollers.Prelude.{
  ℕ, String, Uuid, Instant, Bool, Option, List, ◌||◌, ◌&&◌, ◌==◌, filter, contains,
}

pub data IssueType : Type 0 where
  incompatible requires missing_required_option : IssueType

pub data Severity : Type 0 where
  blocking info : Severity

pub record ConfigurationIssue : Type 0 where
  pub issue_type : IssueType
  pub severity : Severity
  pub message : String
  pub related_service_id : Option Uuid
  pub related_option_id : Option Uuid

pub record ConfigurationRecommendation : Type 0 where
  pub message : String
  pub related_service_id : Uuid

pub data LineKind : Type 0 where
  service option : LineKind

-- The currency of every amount is EUR; amounts are whole cents.
pub record ConfigurationPriceLine : Type 0 where
  pub kind : LineKind
  pub id : Uuid
  pub name : String
  pub unit_price_minor : ℕ

pub record ConfigurationPrice : Type 0 where
  pub subtotal_minor : ℕ
  pub discount_minor : ℕ
  pub tax_minor : ℕ
  pub total_minor : ℕ
  pub breakdown : List ConfigurationPriceLine

pub record LeadTime : Type 0 where
  pub min_days : ℕ
  pub max_days : ℕ

pub record ConfigurationResult : Type 0 where
  pub valid : Bool
  pub issues : List ConfigurationIssue
  pub recommendations : List ConfigurationRecommendation
  pub price : ConfigurationPrice
  pub estimated_lead_time_days : LeadTime

-- `ValidateConfigurationRequest`
pub record ConfigurationRequest : Type 0 where
  pub device_model_id : Uuid
  pub device_variant_id : Uuid
  pub hardware_revision_id : Option Uuid
  pub service_ids : List Uuid
  pub option_ids : List Uuid

pub record CompatibilityRule : Type 0 where
  pub service_id : Uuid
  pub device_model_id : Option Uuid
  pub device_variant_id : Option Uuid
  pub hardware_revision_id : Option Uuid

pub record ExclusionRule : Type 0 where
  pub service_a_id : Uuid
  pub service_b_id : Uuid
  pub reason : Option String

pub record RequirementRule : Type 0 where
  pub service_id : Uuid
  pub required_service_id : Uuid

pub record RecommendationRule : Type 0 where
  pub service_id : Uuid
  pub recommended_service_id : Uuid
  pub message : String

pub data ClientType : Type 0 where
  standard professional : ClientType

pub record PricingRule : Type 0 where
  pub service_id : Uuid
  pub product_family_id : Option Uuid
  pub device_model_id : Option Uuid
  pub device_variant_id : Option Uuid
  pub client_type : ClientType
  pub amount_minor : ℕ
  pub valid_from : Option Instant
  pub valid_until : Option Instant

pub record CompanyPricingOverride : Type 0 where
  pub company_id : Uuid
  pub service_id : Uuid
  pub amount_minor : ℕ
  pub valid_from : Option Instant
  pub valid_until : Option Instant

pub record LeadTimeRule : Type 0 where
  pub service_id : Uuid
  pub device_model_id : Option Uuid
  pub min_days : ℕ
  pub max_days : ℕ

-- What `ConfiguratorService` reads: the catalogue, the rule tables and the settings.
pub record Store : Type 0 where
  pub catalog : Catalog
  pub settings : List Setting
  pub compatibility_rules : List CompatibilityRule
  pub exclusion_rules : List ExclusionRule
  pub requirement_rules : List RequirementRule
  pub recommendation_rules : List RecommendationRule
  pub pricing_rules : List PricingRule
  pub company_overrides : List CompanyPricingOverride
  pub lead_time_rules : List LeadTimeRule

-- rules.repository.ts, query by query.
unfoldable pub compatibility_rules_for_services : Store → List Uuid → List CompatibilityRule
compatibility_rules_for_services db ids =
    filter (λ (r : CompatibilityRule). contains r.service_id ids) db.compatibility_rules

unfoldable pub exclusion_rules_for_services : Store → List Uuid → List ExclusionRule
exclusion_rules_for_services db ids =
    filter (λ (r : ExclusionRule). contains r.service_a_id ids || contains r.service_b_id ids)
      db.exclusion_rules

unfoldable pub requirement_rules_for_services : Store → List Uuid → List RequirementRule
requirement_rules_for_services db ids =
    filter (λ (r : RequirementRule). contains r.service_id ids) db.requirement_rules

unfoldable pub recommendation_rules_for_services : Store → List Uuid → List RecommendationRule
recommendation_rules_for_services db ids =
    filter (λ (r : RecommendationRule). contains r.service_id ids) db.recommendation_rules

unfoldable pub pricing_rules_for_services : Store → List Uuid → List PricingRule
pricing_rules_for_services db ids =
    filter (λ (r : PricingRule). contains r.service_id ids) db.pricing_rules

unfoldable pub company_overrides_for_services :
    Store → Uuid → List Uuid → List CompanyPricingOverride
company_overrides_for_services db company ids =
    filter (λ (o : CompanyPricingOverride). o.company_id == company && contains o.service_id ids)
      db.company_overrides

unfoldable pub lead_time_rules_for_services : Store → List Uuid → List LeadTimeRule
lead_time_rules_for_services db ids =
    filter (λ (r : LeadTimeRule). contains r.service_id ids) db.lead_time_rules

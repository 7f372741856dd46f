-- ===== src/Configurator/Validate.antt =====
-- `ConfiguratorService.validate` of
-- apps/api/src/modules/configurator/services/configurator.service.ts, stage by stage.
use savemycontrollers.Catalog.{
  Service, ServiceOption, is_active, is_device_model_active, is_device_variant_active,
  is_hardware_revision_valid, find_services_by_ids, find_options_by_ids,
  find_required_options_for_services,
}
use savemycontrollers.Configurator.Data.{
  Store, ConfigurationRequest, ConfigurationResult, ConfigurationPrice, ConfigurationIssue,
  ConfigurationRecommendation, incompatible, requires, missing_required_option, blocking, info,
  LeadTime, CompatibilityRule, ExclusionRule, RequirementRule, RecommendationRule, LeadTimeRule,
  compatibility_rules_for_services, exclusion_rules_for_services, requirement_rules_for_services,
  recommendation_rules_for_services, lead_time_rules_for_services,
}
use savemycontrollers.Configurator.Grouping.{group_by, bucket_of}
use savemycontrollers.Configurator.Pricing.{compute_price}
use savemycontrollers.Prelude.{
  String, Uuid, Instant, Bool, true, false, Option, none, some, List, [], ◌∷◌, ◌++◌, max, ◌&&◌,
  ◌||◌, ◌==◌, not, filter, find?, any, all, contains, distinct, length, is_id, same_id, is_some,
  or_else, if◌then◌else◌,
}

abbrev incompatibility : String → Option Uuid → Option Uuid → ConfigurationIssue
incompatibility message related_service related_option = record {
  issue_type = incompatible;
  severity = blocking;
  message = message;
  related_service_id = related_service;
  related_option_id = related_option;
}

-- `if (test) issues.push(issue)`
abbrev issue_if : Bool → ConfigurationIssue → List ConfigurationIssue
issue_if test issue = if test then issue ∷ [] else []

-- A `for` loop that pushes what its body reports.
abbrev pub for_each : {A B : Type 0} → (A → List B) → List A → List B
for_each body [] = []
for_each body (x ∷ xs) = body x ++ for_each body xs

abbrev revision_valid : Store → ConfigurationRequest → Bool
revision_valid db input = elim input.hardware_revision_id [
  | none ↦ true
  | some revision ↦ is_hardware_revision_valid db.catalog input.device_variant_id revision
]

-- 0) The model, the variant and the revision.
unfoldable pub device_issues : Store → ConfigurationRequest → List ConfigurationIssue
device_issues db input =
    issue_if (not (is_device_model_active db.catalog input.device_model_id))
      (incompatibility "Modele introuvable ou indisponible." none none)
    ++ (issue_if
          (not (is_device_variant_active db.catalog input.device_model_id input.device_variant_id))
          (incompatibility "Variante introuvable, indisponible, ou n'appartient pas au modele." none
            none)
        ++ issue_if (not (revision_valid db input)) (
            incompatibility "Revision materielle introuvable ou n'appartient pas a la variante."
              none none))

-- 1) The same service selected twice.
unfoldable pub duplicate_issues : ConfigurationRequest → List ConfigurationIssue
duplicate_issues input =
    issue_if (not (length (distinct input.service_ids) == length input.service_ids))
      (incompatibility "La meme prestation est selectionnee plusieurs fois." none none)

-- `servicesById.get(id)`: the rows have distinct ids, so the map holds the row with this id.
abbrev service_by_id : List Service → Uuid → Option Service
service_by_id services i = find? (λ (s : Service). s.id == i) services

abbrev pub option_by_id : List ServiceOption → Uuid → Option ServiceOption
option_by_id options i = find? (λ (o : ServiceOption). o.id == i) options

-- 2) Each selected service exists and is active.
unfoldable pub service_issue : List Service → Uuid → List ConfigurationIssue
service_issue services i = elim (service_by_id services i) [
  | none ↦ incompatibility "Une prestation selectionnee n'existe pas." (some i) none ∷ []
  | some s ↦
      issue_if (not (is_active s.status))
        (incompatibility "Une prestation selectionnee n'est plus active." (some i) none)
]

-- 3) Each selected option exists, belongs to a selected service and is active.
unfoldable pub option_issue : List Uuid → List ServiceOption → Uuid → List ConfigurationIssue
option_issue services options i = elim (option_by_id options i) [
  | none ↦ incompatibility "Une option selectionnee n'existe pas." none (some i) ∷ []
  | some o ↦
      issue_if (not (contains o.service_id services)) (
        incompatibility "Une option selectionnee n'appartient a aucune prestation selectionnee."
          none (some i))
      ++ issue_if (not (is_active o.status))
          (incompatibility "Une option selectionnee n'est plus active." none (some i))
]

-- The required options of the selected services.
unfoldable pub required_option_issue : List Uuid → ServiceOption → List ConfigurationIssue
required_option_issue options o = issue_if (not (contains o.id options)) (record {
  issue_type = missing_required_option;
  severity = blocking;
  message = "Une option obligatoire n'a pas ete selectionnee pour une prestation choisie.";
  related_service_id = some o.service_id;
  related_option_id = some o.id;
})

abbrev unset_or : Option Uuid → Uuid → Bool
unset_or rule i = not (is_some rule) || is_id rule i

abbrev pub rule_matches : ConfigurationRequest → CompatibilityRule → Bool
rule_matches input rule =
    unset_or rule.device_model_id input.device_model_id
    && unset_or rule.device_variant_id input.device_variant_id
    && (not (is_some rule.hardware_revision_id)
        || same_id rule.hardware_revision_id input.hardware_revision_id)

-- 4) The white list: a service with no rule is compatible with everything.
unfoldable pub compatibility_issue :
    ConfigurationRequest → List (Uuid × List CompatibilityRule) → Uuid → List ConfigurationIssue
compatibility_issue input rules_by_service i = elim (bucket_of i rules_by_service) [
  | none ↦ []
  | some rules ↦ issue_if (not (length rules == 0) && not (any (rule_matches input) rules)) (
      incompatibility
        "Cette prestation n'est pas compatible avec le modele/variante/revision selectionne."
        (some i) none)
]

-- 5) Mutual exclusions.
unfoldable pub exclusion_issue : List Uuid → ExclusionRule → List ConfigurationIssue
exclusion_issue services rule =
    issue_if (contains rule.service_a_id services && contains rule.service_b_id services) (
      incompatibility (or_else rule.reason "Ces deux prestations ne peuvent pas etre combinees.")
        (some rule.service_a_id) none)

-- 6) Services that need another service.
unfoldable pub requirement_issue : List Uuid → RequirementRule → List ConfigurationIssue
requirement_issue services rule =
    issue_if (not (contains rule.required_service_id services)) (record {
      issue_type = requires;
      severity = blocking;
      message = "Cette prestation necessite une prestation complementaire non selectionnee.";
      related_service_id = some rule.service_id;
      related_option_id = none;
    })

-- 7) Recommendations, which block nothing.
unfoldable pub recommendation : List Uuid → RecommendationRule → List ConfigurationRecommendation
recommendation services rule =
    if contains rule.recommended_service_id services
    then []
    else record { message = rule.message; related_service_id = rule.service_id } ∷ []

-- The options that are read: the query is made only where an option is selected.
unfoldable pub selected_options : Store → List Uuid → List ServiceOption
selected_options db ids = elim ids [
  | [] ↦ []
  | i ∷ rest ↦ find_options_by_ids db.catalog (i ∷ rest)
]

unfoldable pub all_issues : Store → ConfigurationRequest → List ConfigurationIssue
all_issues db input =
    let services = distinct input.service_ids in
    let options = distinct input.option_ids in
    device_issues db input
    ++ (duplicate_issues input
        ++ (for_each (service_issue (find_services_by_ids db.catalog services)) services
            ++ (for_each (option_issue services (selected_options db options)) options
                ++ (for_each (required_option_issue options)
                      (find_required_options_for_services db.catalog services)
                    ++ (for_each
                          (compatibility_issue input (
                            group_by (λ (r : CompatibilityRule). r.service_id)
                              (compatibility_rules_for_services db services)))
                          services
                        ++ (for_each (exclusion_issue services)
                              (exclusion_rules_for_services db services)
                            ++ for_each (requirement_issue services)
                                (requirement_rules_for_services db services)))))))

-- `issue.severity !== "BLOCKING"`
abbrev pub is_not_blocking : ConfigurationIssue → Bool
is_not_blocking issue = elim issue.severity [ blocking ↦ false | info ↦ true ]

abbrev pub default_lead_time_days : LeadTime
default_lead_time_days = record { min_days = 5; max_days = 10 }

-- `reduce` over the applicable rules.
unfoldable pub longest_lead_time : LeadTime → List LeadTimeRule → LeadTime
longest_lead_time acc [] = acc
longest_lead_time acc (r ∷ rs) =
    longest_lead_time
      (record { min_days = max acc.min_days r.min_days; max_days = max acc.max_days r.max_days }) rs

-- 9) The delay: the rules of the selected services for every model or for this one.
unfoldable pub lead_time : Store → ConfigurationRequest → LeadTime
unfolding longest_lead_time
lead_time db input = longest_lead_time default_lead_time_days (
    filter (λ (r : LeadTimeRule). unset_or r.device_model_id input.device_model_id)
      (lead_time_rules_for_services db (distinct input.service_ids)))

abbrev pub no_price : ConfigurationPrice
no_price = record {
  subtotal_minor = 0;
  discount_minor = 0;
  tax_minor = 0;
  total_minor = 0;
  breakdown = [];
}

unfoldable pub validate : Store → ConfigurationRequest → Option Uuid → Instant → ConfigurationResult
validate db input company now =
    let services = distinct input.service_ids in
    let options = distinct input.option_ids in
    let issues = all_issues db input in
    let valid = all is_not_blocking issues in
    record {
      valid = valid;
      issues = issues;
      recommendations =
          for_each (recommendation services) (recommendation_rules_for_services db services);
      price =
          if valid
          then compute_price db (find_services_by_ids db.catalog services)
              (filter (λ (o : ServiceOption). contains o.id options) (selected_options db options))
              input company now
          else no_price;
      estimated_lead_time_days = lead_time db input;
    }

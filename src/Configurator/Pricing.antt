-- ===== src/Configurator/Pricing.antt =====
-- `computePrice` and `pickMostSpecificPricingRule` of
-- apps/api/src/modules/configurator/services/configurator.service.ts.
use savemycontrollers.Catalog.{Service, ServiceOption}
use savemycontrollers.Settings.{get_number}
use savemycontrollers.Configurator.Data.{
  Store, ConfigurationRequest, ConfigurationPrice, ConfigurationPriceLine, service, option,
  PricingRule, CompanyPricingOverride, ClientType, standard, professional,
  pricing_rules_for_services, company_overrides_for_services,
}
use savemycontrollers.Prelude.{
  ℕ, Uuid, Instant, Bool, true, false, Option, none, some, List, [], ◌∷◌, ◌++◌, map, ◌+◌, ◌-◌, ◌*◌,
  ◌/◌, Result, ok, err, ◌&&◌, ◌==◌, not, leb, filter, find?, is_id, is_some, if◌then◌else◌,
}

abbrev pub default_tax_rate_basis_points : ℕ
default_tax_rate_basis_points = 2000

-- `(!validFrom || validFrom <= now) && (!validUntil || validUntil >= now)`
abbrev pub in_period : Option Instant → Option Instant → Instant → Bool
in_period valid_from valid_until now = started valid_from && unfinished valid_until
  where
    started : Option Instant → Bool
    started none = true
    started (some t) = leb t now

    unfinished : Option Instant → Bool
    unfinished none = true
    unfinished (some t) = leb now t

abbrev pub same_client_type : ClientType → ClientType → Bool
same_client_type standard standard = true
same_client_type professional professional = true
same_client_type standard professional = false
same_client_type professional standard = false

-- `a ?? b` between two searches.
abbrev pub first_of_two {ℓ} : {A : Type ℓ} → Option A → Option A → Option A
first_of_two none b = b
first_of_two (some a) b = some a

abbrev pub is_general : PricingRule → Bool
is_general r =
    not (is_some r.device_variant_id)
    && not (is_some r.device_model_id)
    && not (is_some r.product_family_id)

unfoldable pub pick_most_specific_pricing_rule :
    List PricingRule → ConfigurationRequest → Option PricingRule
pick_most_specific_pricing_rule rules input =
    first_of_two
      (find? (λ (r : PricingRule). is_id r.device_variant_id input.device_variant_id) rules)
      (first_of_two
        (find? (λ (r : PricingRule). is_id r.device_model_id input.device_model_id) rules)
        (find? is_general rules))

-- The price of one service: the company's negotiated price, else the most specific rule for the
-- type of client, else the catalogue price.
unfoldable pub unit_price :
    List CompanyPricingOverride
    → List PricingRule
    → ConfigurationRequest
    → Option Uuid
    → Service
    → ℕ
unfolding pick_most_specific_pricing_rule
unit_price overrides rules input company s =
    elim (find? (λ (o : CompanyPricingOverride). o.service_id == s.id) overrides) [
      | some o ↦ o.amount_minor
      | none ↦
          elim (pick_most_specific_pricing_rule
            (filter
              (λ (r : PricingRule). r.service_id == s.id && same_client_type r.client_type client)
              rules)
            input) [ some r ↦ r.amount_minor | none ↦ s.base_price_minor ]
    ]
  where
    client : ClientType
    client = if is_some company then professional else standard

-- `Math.round((amount * rate) / 10000)`: to the nearest, and a half upwards.
unfoldable pub tax_of : ℕ → ℕ → ℕ
tax_of amount rate = (amount * rate + 5000) / 10000

-- `.catch(() => DEFAULT_TAX_RATE_BASIS_POINTS)`
abbrev or_default : Result ℕ → ℕ
or_default (ok n) = n
or_default (err e) = default_tax_rate_basis_points

unfoldable pub tax_rate : Store → ℕ
tax_rate db =
    or_default
      (get_number db.settings "tax.default_rate_basis_points" (some default_tax_rate_basis_points))

abbrev pub service_line :
    List CompanyPricingOverride
    → List PricingRule
    → ConfigurationRequest
    → Option Uuid
    → Service
    → ConfigurationPriceLine
service_line overrides rules input company s = record {
  kind = service;
  id = s.id;
  name = s.name;
  unit_price_minor = unit_price overrides rules input company s;
}

abbrev pub option_line : ServiceOption → ConfigurationPriceLine
option_line o = record {
  kind = option;
  id = o.id;
  name = o.name;
  unit_price_minor = o.extra_price_minor;
}

-- The first loop: the services, each pushed on the breakdown and added to the subtotal.
unfoldable pub price_services :
    (Service → ConfigurationPriceLine)
    → List Service
    → ℕ
    → List ConfigurationPriceLine
    → ℕ × List ConfigurationPriceLine
price_services line [] subtotal breakdown = (subtotal, breakdown)
price_services line (s ∷ ss) subtotal breakdown =
    price_services line ss (subtotal + (line s).unit_price_minor) (breakdown ++ line s ∷ [])

-- The second loop: the options.
unfoldable pub price_options :
    List ServiceOption → ℕ → List ConfigurationPriceLine → ℕ × List ConfigurationPriceLine
price_options [] subtotal breakdown = (subtotal, breakdown)
price_options (o ∷ os) subtotal breakdown =
    price_options os (subtotal + o.extra_price_minor) (breakdown ++ option_line o ∷ [])

abbrev pub active_overrides :
    Store → Option Uuid → List Uuid → Instant → List CompanyPricingOverride
active_overrides db none ids now = []
active_overrides db (some company) ids now =
    filter (λ (o : CompanyPricingOverride). in_period o.valid_from o.valid_until now)
      (company_overrides_for_services db company ids)

abbrev pub active_pricing_rules : Store → List Uuid → Instant → List PricingRule
active_pricing_rules db ids now =
    filter (λ (r : PricingRule). in_period r.valid_from r.valid_until now)
      (pricing_rules_for_services db ids)

unfoldable pub compute_price :
    Store
    → List Service
    → List ServiceOption
    → ConfigurationRequest
    → Option Uuid
    → Instant
    → ConfigurationPrice
unfolding unit_price price_services price_options tax_of tax_rate company_overrides_for_services
    pricing_rules_for_services get_number
compute_price db services selected_options input company now =
    let ids = map (λ (s : Service). s.id) services in
    let line =
      service_line (active_overrides db company ids now) (active_pricing_rules db ids now) input
        company in
    let (services_minor, service_lines) = price_services line services 0 [] in
    let (subtotal_minor, breakdown) = price_options selected_options services_minor service_lines in
    let discount_minor : ℕ = 0 in
    let taxable_amount = subtotal_minor - discount_minor in
    let tax_minor = tax_of taxable_amount (tax_rate db) in
    record {
      subtotal_minor = subtotal_minor;
      discount_minor = discount_minor;
      tax_minor = tax_minor;
      total_minor = taxable_amount + tax_minor;
      breakdown = breakdown;
    }

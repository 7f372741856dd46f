-- ===== src/Configurator/Prices.antt =====
-- What the price of a configuration is made of.
use savemycontrollers.Catalog.{Service, ServiceOption}
use savemycontrollers.Configurator.Data.{
  Store, ConfigurationRequest, ConfigurationPrice, ConfigurationPriceLine,
}
use savemycontrollers.Settings.{Setting, get_number}
use text.Mathlib.Text.{◌==◌ as str_eq}
use savemycontrollers.Configurator.Pricing.{
  compute_price, price_services, price_options, option_line, tax_of, tax_rate,
}
use savemycontrollers.Configurator.Validate.{validate, all_issues, is_not_blocking}
use savemycontrollers.Prelude.{
  ℕ, Uuid, Instant, Option, none, some, find?, List, [], ◌∷◌, ◌≡◌, ◌≤◌, ◌<◌, ◌+◌, ◌-◌, ◌*◌, refl,
  inl, inr, arith, all, sum_by, sum_by-append, Bool-cases,
}

abbrev pub line_price : ConfigurationPriceLine → ℕ
line_price line = line.unit_price_minor

sub-zero : (n : ℕ) → n - 0 ≡ n
sub-zero n = omega arith

-- The running subtotal and the prices on the breakdown grow together.
price_services-sum :
    (line : Service → ConfigurationPriceLine) (ss : List Service) (subtotal : ℕ)
    (breakdown : List ConfigurationPriceLine)
    → subtotal ≡ sum_by line_price breakdown
    → (price_services line ss subtotal breakdown).0
      ≡ sum_by line_price (price_services line ss subtotal breakdown).1
unfolding price_services
price_services-sum line [] subtotal breakdown h = h
price_services-sum line (s ∷ ss) subtotal breakdown h =
    price_services-sum line ss _ _
      (omega (arith, sum_by-append line_price breakdown (line s ∷ []), h))

price_options-sum :
    (os : List ServiceOption) (subtotal : ℕ) (breakdown : List ConfigurationPriceLine)
    → subtotal ≡ sum_by line_price breakdown
    → (price_options os subtotal breakdown).0
      ≡ sum_by line_price (price_options os subtotal breakdown).1
unfolding price_options
price_options-sum [] subtotal breakdown h = h
price_options-sum (o ∷ os) subtotal breakdown h =
    price_options-sum os _ _
      (omega (arith, sum_by-append line_price breakdown (option_line o ∷ []), h))

-- A price adds up: the subtotal is the sum of its lines, the total is the subtotal less the discount
-- and with the tax.
pub record AddsUp (p : ConfigurationPrice) : Type 0 where
  pub subtotal_sum : p.subtotal_minor ≡ sum_by line_price p.breakdown
  pub total_sum : p.total_minor + p.discount_minor ≡ p.subtotal_minor + p.tax_minor

-- The tax is the rate times the subtotal in basis points, rounded to the nearest cent, a half up.
pub record IsTaxOf (rate : ℕ) (p : ConfigurationPrice) : Type 0 where
  pub not_above : 10000 * p.tax_minor ≤ p.subtotal_minor * rate + 5000
  pub not_below : p.subtotal_minor * rate < 10000 * p.tax_minor + 5000

compute_price-AddsUp :
    (db : Store) (ss : List Service) (os : List ServiceOption) (input : ConfigurationRequest)
    (company : Option Uuid) (now : Instant)
    → AddsUp (compute_price db ss os input company now)
unfolding compute_price
compute_price-AddsUp db ss os input company now = record {
  subtotal_sum = price_options-sum os _ _ (price_services-sum _ ss 0 [] refl);
  total_sum = omega arith;
}

tax_of-le : (amount rate : ℕ) → 10000 * tax_of (amount - 0) rate ≤ amount * rate + 5000
unfolding tax_of
tax_of-le amount rate = rw (sub-zero amount) (omega arith)

tax_of-ge : (amount rate : ℕ) → amount * rate < 10000 * tax_of (amount - 0) rate + 5000
unfolding tax_of
tax_of-ge amount rate = rw (sub-zero amount) (omega arith)

-- The number of the setting, and 2000 basis points where the table has none.
abbrev pub configured_rate : List Setting → ℕ
configured_rate settings =
    elim (find? (λ (s : Setting). str_eq s.key "tax.default_rate_basis_points") settings) [
      | none ↦ 2000
      | some s ↦ elim s.value_number [ none ↦ 2000 | some rate ↦ rate ]
    ]

tax_rate-configured : (db : Store) → tax_rate db ≡ configured_rate db.settings
unfolding tax_rate get_number
tax_rate-configured db = ground arith

compute_price-IsTaxOf :
    (db : Store) (ss : List Service) (os : List ServiceOption) (input : ConfigurationRequest)
    (company : Option Uuid) (now : Instant)
    → IsTaxOf (tax_rate db) (compute_price db ss os input company now)
unfolding compute_price
compute_price-IsTaxOf db ss os input company now = record {
  not_above = tax_of-le _ (tax_rate db);
  not_below = tax_of-ge _ (tax_rate db);
}

-- Whatever the request, the price that `validate` returns adds up: the subtotal is the sum of its
-- lines, and the total is the subtotal less the discount and with the tax. The tax is, to the nearest
-- cent and a half up, the subtotal at the rate of the setting tax.default_rate_basis_points, a whole
-- number that is not negative, or at 2000 basis points where the setting has no number.
pub validate-AddsUp :
    (db : Store) (input : ConfigurationRequest) (company : Option Uuid) (now : Instant)
    → AddsUp (validate db input company now).price
      × IsTaxOf (configured_rate db.settings) (validate db input company now).price
unfolding validate
validate-AddsUp db input company now =
    elim (Bool-cases (all is_not_blocking (all_issues db input))) [
      | inl e ↦ rw e (
        compute_price-AddsUp db _ _ input company now,
        rw⁻¹ (tax_rate-configured db) (compute_price-IsTaxOf db _ _ input company now),
      )
      | inr e ↦ rw e (omega arith, omega arith)
    ]

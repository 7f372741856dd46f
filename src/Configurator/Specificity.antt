-- ===== src/Configurator/Specificity.antt =====
-- Which pricing rule `pickMostSpecificPricingRule` picks.
use savemycontrollers.Configurator.Data.{ConfigurationRequest, PricingRule}
use savemycontrollers.Configurator.Pricing.{pick_most_specific_pricing_rule, is_general}
use savemycontrollers.Prelude.{
  Bool, true, false, Option, none, some, List, [], ◌∷◌, ◌≡◌, ◌⊎◌, refl, inl, inr, arith, ◌&&◌, not,
  filter, find?, any, is_id, is_some, find?-none, Option-cases, Bool-cases, ◌++◌, ap,
}

abbrev pub for_variant : ConfigurationRequest → PricingRule → Bool
for_variant input r = is_id r.device_variant_id input.device_variant_id

abbrev pub for_model : ConfigurationRequest → PricingRule → Bool
for_model input r = is_id r.device_model_id input.device_model_id

-- A rule for every variant, model and family.
abbrev pub for_all : PricingRule → Bool
for_all r =
    not (is_some r.device_variant_id)
    && not (is_some r.device_model_id)
    && not (is_some r.product_family_id)

-- The rule is the first of the list that passes the test.
abbrev pub FirstOf : (PricingRule → Bool) → List PricingRule → PricingRule → Type 0
FirstOf p rules r =
    (before after : List PricingRule) × (rules ≡ before ++ r ∷ after)
    × (any p before ≡ false)
    × (p r ≡ true)

-- What the search returns: the first rule of the best class that has one, and nothing where no class
-- has.
abbrev pub Picked : ConfigurationRequest → List PricingRule → Option PricingRule → Type 0
Picked input rules (some r) =
    FirstOf (for_variant input) rules r
    ⊎ ((any (for_variant input) rules ≡ false) × FirstOf (for_model input) rules r)
    ⊎ ((any (for_variant input) rules ≡ false)
        × (any (for_model input) rules ≡ false)
        × FirstOf for_all rules r)
Picked input rules none =
    (any (for_variant input) rules ≡ false)
    × (any (for_model input) rules ≡ false)
    × (any for_all rules ≡ false)

find?-FirstOf :
    (p : PricingRule → Bool) (rules : List PricingRule) (r : PricingRule)
    → find? p rules ≡ some r
    → FirstOf p rules r
find?-FirstOf p [] r e = absurd (ground arith)
find?-FirstOf p (x ∷ rules) r e = elim (Bool-cases (p x)) [
  | inl here ↦
      let same : x ≡ r = ground arith in ([], rules, ap (λ y. y ∷ rules) same, refl, rw⁻¹ same here)
  | inr other ↦
      let (before, after, split, none_before, holds) = find?-FirstOf p rules r (ground arith) in
      (x ∷ before, after, ap (λ rs. x ∷ rs) split, rw other none_before, holds)
]

-- The picked rule is the first in the list of the best class that has a rule: for the variant, before
-- for the model, before without any restriction; nothing is picked exactly where the list has no rule
-- of these three kinds.
pub pick-Picked :
    (rules : List PricingRule) (input : ConfigurationRequest)
    → Picked input rules (pick_most_specific_pricing_rule rules input)
unfolding pick_most_specific_pricing_rule
pick-Picked rules input = elim (Option-cases (find? (for_variant input) rules)) [
  | inr (r, e) ↦ rw e (inl (find?-FirstOf (for_variant input) rules r e))
  | inl v ↦ elim (Option-cases (find? (for_model input) rules)) [
    | inr (r, e) ↦
        rw (v, e)
          (inr (
            inl
              (find?-none (for_variant input) rules v, find?-FirstOf (for_model input) rules r e)))
    | inl m ↦ elim (Option-cases (find? for_all rules)) [
      | inr (r, e) ↦
          rw (v, m, e)
            (inr (
              inr (
                find?-none (for_variant input) rules v,
                find?-none (for_model input) rules m,
                find?-FirstOf for_all rules r e,
              )))
      | inl g ↦
          rw (v, m, g)
            (
              find?-none (for_variant input) rules v,
              find?-none (for_model input) rules m,
              find?-none for_all rules g,
            )
    ]
  ]
]

-- A rule restricted to a product family, and to nothing else.
abbrev pub is_family_only : PricingRule → Bool
is_family_only r =
    is_some r.product_family_id
    && (not (is_some r.device_model_id) && not (is_some r.device_variant_id))

find?-drop :
    (p q : PricingRule → Bool) (rules : List PricingRule)
    → ((r : PricingRule) → q r ≡ true → p r ≡ false)
    → find? p (filter (λ r. not (q r)) rules) ≡ find? p rules
find?-drop p q [] h = refl
find?-drop p q (r ∷ rules) h = ground (arith, h r, find?-drop p q rules h)

-- The rules that are restricted to a product family only never set a price: the search answers the
-- same without them.
pub pick-family_only :
    (rules : List PricingRule) (input : ConfigurationRequest)
    → pick_most_specific_pricing_rule (filter (λ r. not (is_family_only r)) rules) input
      ≡ pick_most_specific_pricing_rule rules input
unfolding pick_most_specific_pricing_rule
pick-family_only rules input = rw (
  find?-drop (for_variant input) is_family_only rules (λ r h. ground arith),
  find?-drop (for_model input) is_family_only rules (λ r h. ground arith),
  find?-drop is_general is_family_only rules (λ r h. ground arith),
)

-- ===== src/Configurator/Validity/Rules.antt =====
-- The rules of exclusion, of requirement and of compatibility against their specification.
use savemycontrollers.Configurator.Data.{
  Store, ConfigurationRequest, ConfigurationIssue, CompatibilityRule, ExclusionRule,
  RequirementRule, compatibility_rules_for_services, exclusion_rules_for_services,
  requirement_rules_for_services,
}
use savemycontrollers.Configurator.Validate.{
  for_each, compatibility_issue, exclusion_issue, requirement_issue, is_not_blocking, rule_matches,
}
use savemycontrollers.Configurator.Grouping.{group_by, bucket_of, nonempty, bucket_of-group_by}
use savemycontrollers.Prelude.{
  Uuid, Bool, true, List, [], ◌∷◌, ◌≡◌, refl, ap, ◌∙◌, arith, ◌&&◌, ◌||◌, ◌==◌, not, filter, any,
  all, contains, distinct, all-append, all-distinct, contains-distinct, all_cong,
}
use savemycontrollers.Configurator.Validity.Spec.{is_compatible}

pub all-for_each :
    {A : Type 0} (body : A → List ConfigurationIssue) (xs : List A)
    → all is_not_blocking (for_each body xs) ≡ all (λ x. all is_not_blocking (body x)) xs
all-for_each body [] = refl
all-for_each body (x ∷ xs) =
    all-append is_not_blocking (body x) (for_each body xs)
    ∙ ap (λ b. all is_not_blocking (body x) && b) (all-for_each body xs)

pub exclusion_stage :
    (db : Store) (services : List Uuid)
    → all is_not_blocking (
        for_each
          (exclusion_issue (distinct services))
          (exclusion_rules_for_services db (distinct services)))
      ≡ all
          (λ (r : ExclusionRule).
            not (contains r.service_a_id services && contains r.service_b_id services))
          db.exclusion_rules
unfolding exclusion_rules_for_services exclusion_issue
exclusion_stage db services =
    all-for_each _ (exclusion_rules_for_services db (distinct services)) ∙ rows db.exclusion_rules
  where
    rows :
        (rs : List ExclusionRule)
        → all
            (λ r. all is_not_blocking (exclusion_issue (distinct services) r))
            (filter
              (λ (r : ExclusionRule).
                contains r.service_a_id (distinct services)
                || contains r.service_b_id (distinct services))
              rs)
          ≡ all (λ r. not (contains r.service_a_id services && contains r.service_b_id services)) rs
    rows [] = refl
    rows (r ∷ rs) = ground (
      arith,
      rows rs,
      contains-distinct r.service_a_id services,
      contains-distinct r.service_b_id services,
    )

pub requirement_stage :
    (db : Store) (services : List Uuid)
    → all is_not_blocking (
        for_each
          (requirement_issue (distinct services))
          (requirement_rules_for_services db (distinct services)))
      ≡ all
          (λ (r : RequirementRule).
            not (contains r.service_id services) || contains r.required_service_id services)
          db.requirement_rules
unfolding requirement_rules_for_services requirement_issue
requirement_stage db services =
    all-for_each _ (requirement_rules_for_services db (distinct services))
    ∙ rows db.requirement_rules
  where
    rows :
        (rs : List RequirementRule)
        → all
            (λ r. all is_not_blocking (requirement_issue (distinct services) r))
            (filter (λ (r : RequirementRule). contains r.service_id (distinct services)) rs)
          ≡ all
              (λ r. not (contains r.service_id services) || contains r.required_service_id services)
              rs
    rows [] = refl
    rows (r ∷ rs) = ground (
      arith,
      rows rs,
      contains-distinct r.service_id services,
      contains-distinct r.required_service_id services,
    )

-- The rules of one service among those that were read are its rules in the table.
any_rule_read :
    (p : CompatibilityRule → Bool) (ids : List Uuid) (i : Uuid) (rs : List CompatibilityRule)
    → contains i ids ≡ true
    → any p (
        filter
          (λ (r : CompatibilityRule). r.service_id == i)
          (filter (λ (r : CompatibilityRule). contains r.service_id ids) rs))
      ≡ any (λ (r : CompatibilityRule). r.service_id == i && p r) rs
any_rule_read p ids i [] h = refl
any_rule_read p ids i (r ∷ rs) h = ground (arith, any_rule_read p ids i rs h)

-- A bucket raises no issue where it is empty or one of its rules matches.
bucket_agrees :
    (input : ConfigurationRequest) (i : Uuid) (rules : List CompatibilityRule)
    (buckets : List (Uuid × List CompatibilityRule))
    → bucket_of i buckets ≡ nonempty rules
    → all is_not_blocking (compatibility_issue input buckets i)
      ≡ (not (any (λ _. true) rules) || any (rule_matches input) rules)
unfolding compatibility_issue
bucket_agrees input i [] buckets e = ground arith
bucket_agrees input i (r ∷ rules) buckets e = ground arith

any_read :
    (ids : List Uuid) (i : Uuid) (rs : List CompatibilityRule)
    → contains i ids ≡ true
    → any
        (λ _. true)
        (filter
          (λ (r : CompatibilityRule). r.service_id == i)
          (filter (λ (r : CompatibilityRule). contains r.service_id ids) rs))
      ≡ any (λ (r : CompatibilityRule). r.service_id == i) rs
any_read ids i [] h = refl
any_read ids i (r ∷ rs) h = ground (arith, any_read ids i rs h)

compatibility_agrees :
    (db : Store) (input : ConfigurationRequest) (ids : List Uuid) (i : Uuid)
    → contains i ids ≡ true
    → all is_not_blocking (
        compatibility_issue input
          (group_by
            (λ (r : CompatibilityRule). r.service_id)
            (compatibility_rules_for_services db ids))
          i)
      ≡ is_compatible db input i
unfolding compatibility_rules_for_services
compatibility_agrees db input ids i h =
    bucket_agrees input i _ _ (bucket_of-group_by _ i (compatibility_rules_for_services db ids))
    ∙ rw (
      any_read ids i db.compatibility_rules h,
      any_rule_read (rule_matches input) ids i db.compatibility_rules h,
    )

pub compatibility_stage :
    (db : Store) (input : ConfigurationRequest) (services : List Uuid)
    → all is_not_blocking (
        for_each
          (compatibility_issue input (
            group_by
              (λ (r : CompatibilityRule). r.service_id)
              (compatibility_rules_for_services db (distinct services))))
          (distinct services))
      ≡ all (is_compatible db input) services
compatibility_stage db input services =
    all-for_each _ (distinct services)
    ∙ (all_cong _ _ (distinct services) (compatibility_agrees db input (distinct services))
        ∙ all-distinct _ services)

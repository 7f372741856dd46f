-- ===== src/Catalog/Brands.antt =====
-- The administration of the brands: `createBrand`, `updateBrand` and `deleteBrand` of
-- apps/api/src/modules/catalog/services/catalog.service.ts over repositories/brand.repository.ts.
use text.Mathlib.Text.{◌==◌ as str_eq}
use savemycontrollers.Errors.{conflict, internal, not_found}
use savemycontrollers.Catalog.{PublishableStatus, is_active}
use savemycontrollers.Prelude.{
  ℕ, String, Uuid, Bool, Option, none, some, false, List, [], ◌∷◌, ◌++◌, ◌&&◌, ◌==◌, not, is_some,
  or_else, leb, ltb, any, filter, find?, update_where, count_where, Action, pure, gets, modify,
  or_throw, throw_if, ◌>>=◌, ◌>>◌, if◌then◌else◌,
}

pub record Brand : Type 0 where
  pub id : Uuid
  pub slug : String
  pub name : String
  pub short_description : Option String
  pub display_order : ℕ
  pub status : PublishableStatus

-- The brands, and the brand of each product family.
pub record BrandStore : Type 0 where
  pub brands : List Brand
  pub families : List Uuid

pub record CreateBrandRequest : Type 0 where
  pub slug : String
  pub name : String
  pub short_description : Option String
  pub display_order : ℕ
  pub status : PublishableStatus

-- The schema is partial: a field that is absent is left as it is.
pub record UpdateBrandRequest : Type 0 where
  pub slug : Option String
  pub name : Option String
  pub short_description : Option String
  pub display_order : Option ℕ
  pub status : Option PublishableStatus

abbrev pub has_slug : String → Brand → Bool
has_slug slug b = str_eq b.slug slug

abbrev pub has_id : Uuid → Brand → Bool
has_id i b = b.id == i

abbrev insert_by_order : Brand → List Brand → List Brand
insert_by_order b [] = b ∷ []
insert_by_order b (c ∷ brands) =
    let rest = insert_by_order b brands in
    if leb b.display_order c.display_order then b ∷ c ∷ brands else c ∷ rest

-- `orderBy: { displayOrder: "asc" }`
abbrev pub by_display_order : List Brand → List Brand
by_display_order [] = []
by_display_order (b ∷ brands) = insert_by_order b (by_display_order brands)

abbrev pub list_active_brands : BrandStore → List Brand
list_active_brands s = by_display_order (filter (λ (b : Brand). is_active b.status) s.brands)

abbrev pub list_all_brands : BrandStore → List Brand
list_all_brands s = by_display_order s.brands

abbrev pub new_brand : Uuid → CreateBrandRequest → Brand
new_brand i input = record {
  id = i;
  slug = input.slug;
  name = input.name;
  short_description = input.short_description;
  display_order = input.display_order;
  status = input.status;
}

unfoldable pub create_brand : Uuid → CreateBrandRequest → Action BrandStore Brand
create_brand i input = do
  existing ← gets (λ s. find? (has_slug input.slug) s.brands)
  throw_if (is_some existing) (conflict "Ce slug de marque existe deja.")
  modify λ s. record s { brands = s.brands ++ new_brand i input ∷ [] }
  pure (new_brand i input)

abbrev pub patched_brand : UpdateBrandRequest → Brand → Brand
patched_brand input b = record b {
  slug = or_else input.slug b.slug;
  name = or_else input.name b.name;
  short_description = elim input.short_description [ none ↦ b.short_description | some d ↦ some d ];
  display_order = or_else input.display_order b.display_order;
  status = or_else input.status b.status;
}

-- The unique index of the slugs refuses one that another brand has; the service does not look.
abbrev pub is_taken : Uuid → Option String → List Brand → Bool
is_taken i none brands = false
is_taken i (some slug) brands = any (λ (b : Brand). has_slug slug b && not (has_id i b)) brands

unfoldable pub update_brand : Uuid → UpdateBrandRequest → Action BrandStore (Unit {0})
update_brand i input = do
  existing ← gets (λ s. find? (has_id i) s.brands)
  _ ← or_throw existing (not_found "Marque introuvable.")
  taken ← gets (λ s. is_taken i input.slug s.brands)
  throw_if taken (internal "Unique constraint failed on the fields: (`slug`)")
  modify λ s. record s { brands = update_where (has_id i) (patched_brand input) s.brands }

unfoldable pub delete_brand : Uuid → Action BrandStore (Unit {0})
delete_brand i = do
  existing ← gets (λ s. find? (has_id i) s.brands)
  _ ← or_throw existing (not_found "Marque introuvable.")
  family_count ← gets (λ s. count_where (λ (brand_id : Uuid). brand_id == i) s.families)
  throw_if (ltb 0 family_count) (
      conflict
        "Impossible de supprimer une marque qui possede des familles de produits. Archivez-la plutot.")
  modify λ s. record s { brands = filter (λ (b : Brand). not (has_id i b)) s.brands }

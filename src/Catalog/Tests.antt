-- ===== src/Catalog/Tests.antt =====
-- Two brands under the administration of apps/api/src/modules/catalog.
use savemycontrollers.Catalog.{active, draft}
use savemycontrollers.Catalog.Brands.{
  Brand, BrandStore, CreateBrandRequest, create_brand, update_brand, delete_brand,
}
use savemycontrollers.Catalog.Integrity.{
  IsCatalog, BrandCall, create, delete, calls, calls-IsCatalog,
}
use savemycontrollers.Errors.{conflict, internal}
use savemycontrollers.Prelude.{none, some, [], ◌∷◌, List, err, ◌≡◌, refl, arith}

abbrev sony : Brand
sony = record {
  id = 1;
  slug = "sony";
  name = "Sony";
  short_description = none;
  display_order = 0;
  status = active;
}

abbrev shop : BrandStore
shop = record { brands = sony ∷ []; families = 1 ∷ [] }

abbrev nintendo : CreateBrandRequest
nintendo = record {
  slug = "nintendo";
  name = "Nintendo";
  short_description = none;
  display_order = 1;
  status = draft;
}

abbrev requests : List BrandCall
requests = create 2 nintendo ∷ create 3 nintendo ∷ delete 1 ∷ []

shop-IsCatalog : IsCatalog shop
shop-IsCatalog = record { one_id = λ i. ground arith; one_slug = λ k. ground arith; owned = refl }

calls-IsCatalog_example : IsCatalog (calls requests shop)
unfolding create_brand
calls-IsCatalog_example = calls-IsCatalog requests shop (refl, (refl, (tt, tt))) shop-IsCatalog

-- A brand that has families is not deleted.
sony_stays :
    (delete_brand 1 shop).0
    ≡ err (
        conflict
          "Impossible de supprimer une marque qui possede des familles de produits. Archivez-la plutot.")
unfolding delete_brand
sony_stays = refl

-- A slug that another brand has is answered with an unexpected error, not with a conflict.
slug_taken :
    (update_brand 2
      (record {
        slug = some "sony";
        name = none;
        short_description = none;
        display_order = none;
        status = none;
      })
      (create_brand 2 nintendo shop).1).0
    ≡ err (internal "Unique constraint failed on the fields: (`slug`)")
unfolding update_brand create_brand
slug_taken = refl

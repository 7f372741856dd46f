-- ===== src/Catalog.antt =====
-- apps/api/src/modules/catalog: the catalogue tables, and the queries that the public API of the
-- module offers to the configurator and to the orders. A table is the list of its rows, in the
-- order in which the database returns them.
pub mod Brands
pub mod Integrity
mod Tests
use savemycontrollers.Errors.{not_found}
use savemycontrollers.Prelude.{
  ℕ, String, Uuid, Bool, true, false, Option, none, some, List, Result, ok, err, ◌&&◌, ◌==◌, filter,
  find?, contains,
}

-- The enum `PublishableStatus` of the schema.
pub data PublishableStatus : Type 0 where
  draft active archived : PublishableStatus

-- `status === "ACTIVE"`
abbrev pub is_active : PublishableStatus → Bool
is_active active = true
is_active draft = false
is_active archived = false

pub record DeviceVariant : Type 0 where
  pub id : Uuid
  pub name : String
  pub status : PublishableStatus

pub record DeviceModel : Type 0 where
  pub id : Uuid
  pub name : String
  pub status : PublishableStatus
  pub variants : List DeviceVariant

pub record HardwareRevision : Type 0 where
  pub id : Uuid
  pub device_variant_id : Uuid

pub record Service : Type 0 where
  pub id : Uuid
  pub name : String
  pub status : PublishableStatus
  pub base_price_minor : ℕ

pub record ServiceOption : Type 0 where
  pub id : Uuid
  pub service_id : Uuid
  pub name : String
  pub status : PublishableStatus
  pub extra_price_minor : ℕ
  pub is_required : Bool

pub record Catalog : Type 0 where
  pub models : List DeviceModel
  pub revisions : List HardwareRevision
  pub services : List Service
  pub options : List ServiceOption

-- DeviceModelRepository.findById
abbrev pub find_model : Catalog → Uuid → Option DeviceModel
find_model c i = find? (λ (m : DeviceModel). m.id == i) c.models

-- `model?.variants.find((v) => v.id === deviceVariantId)`
abbrev pub find_variant : Catalog → Uuid → Uuid → Option DeviceVariant
find_variant c model variant = elim (find_model c model) [
  | none ↦ none
  | some m ↦ find? (λ (v : DeviceVariant). v.id == variant) m.variants
]

unfoldable pub is_device_model_active : Catalog → Uuid → Bool
is_device_model_active c model = elim (find_model c model) [
  | none ↦ false
  | some m ↦ is_active m.status
]

unfoldable pub is_device_variant_active : Catalog → Uuid → Uuid → Bool
is_device_variant_active c model variant = elim (find_variant c model variant) [
  | none ↦ false
  | some v ↦ is_active v.status
]

unfoldable pub is_hardware_revision_valid : Catalog → Uuid → Uuid → Bool
is_hardware_revision_valid c variant revision =
    elim (find? (λ (r : HardwareRevision). r.id == revision) c.revisions) [
      | none ↦ false
      | some r ↦ r.device_variant_id == variant
    ]

unfoldable pub get_device_model_name : Catalog → Uuid → Result String
get_device_model_name c model = elim (find_model c model) [
  | none ↦ err (not_found "Modele introuvable.")
  | some m ↦ ok m.name
]

unfoldable pub get_device_variant_name : Catalog → Uuid → Uuid → Result String
get_device_variant_name c model variant = elim (find_variant c model variant) [
  | none ↦ err (not_found "Variante introuvable.")
  | some v ↦ ok v.name
]

unfoldable pub find_services_by_ids : Catalog → List Uuid → List Service
find_services_by_ids c ids = filter (λ (s : Service). contains s.id ids) c.services

unfoldable pub find_options_by_ids : Catalog → List Uuid → List ServiceOption
find_options_by_ids c ids = filter (λ (o : ServiceOption). contains o.id ids) c.options

unfoldable pub find_required_options_for_services : Catalog → List Uuid → List ServiceOption
find_required_options_for_services c service_ids =
    filter
      (λ (o : ServiceOption).
        contains o.service_id service_ids && o.is_required && is_active o.status)
      c.options

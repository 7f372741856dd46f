-- ===== src/Orders/Addresses.antt =====
-- apps/api/src/modules/orders/repositories/address.repository.ts and
-- apps/api/src/modules/orders/services/address.service.ts: the addresses of the clients.
use savemycontrollers.Errors.{not_found}
use savemycontrollers.Prelude.{
  String, Uuid, Instant, Bool, false, Option, none, some, List, [], ◌∷◌, ◌++◌, ◌&&◌, ◌==◌, not, ltb,
  filter, find?, update_where, count_where, is_id, or_else, Result, ok, err, if◌then◌else◌,
}

pub record Address : Type 0 where
  pub id : Uuid
  pub user_id : Option Uuid
  pub company_id : Option Uuid
  pub label : Option String
  pub recipient_name : String
  pub line1 : String
  pub line2 : Option String
  pub postal_code : String
  pub city : String
  pub country : String
  pub phone : Option String
  pub is_default_billing : Bool
  pub is_default_shipping : Bool
  pub created_at : Instant

-- `AddressWriteInput`
pub record AddressWrite : Type 0 where
  pub label : Option String
  pub recipient_name : String
  pub line1 : String
  pub line2 : Option String
  pub postal_code : String
  pub city : String
  pub country : String
  pub phone : Option String
  pub is_default_billing : Bool
  pub is_default_shipping : Bool

-- `Partial<AddressWriteInput>`: a field that is missing stays as it is.
pub record AddressPatch : Type 0 where
  pub label : Option String
  pub recipient_name : Option String
  pub line1 : Option String
  pub line2 : Option String
  pub postal_code : Option String
  pub city : Option String
  pub country : Option String
  pub phone : Option String
  pub is_default_billing : Option Bool
  pub is_default_shipping : Option Bool

abbrev pub find_address : Uuid → List Address → Option Address
find_address i rows = find? (λ (a : Address). a.id == i) rows

-- `{ id, userId }`
abbrev pub is_of_user : Uuid → Uuid → Address → Bool
is_of_user i user a = a.id == i && is_id a.user_id user

unfoldable pub find_by_id_for_user : Uuid → Uuid → List Address → Option Address
find_by_id_for_user i user rows = find? (is_of_user i user) rows

-- `orderBy: { createdAt: "desc" }`
unfoldable pub insert_newest : Address → List Address → List Address
insert_newest a [] = a ∷ []
insert_newest a (b ∷ rows) =
    if ltb a.created_at b.created_at then b ∷ insert_newest a rows else a ∷ b ∷ rows

unfoldable pub newest_first : List Address → List Address
newest_first [] = []
newest_first (a ∷ rows) = insert_newest a (newest_first rows)

unfoldable pub list_for_user : Uuid → List Address → List Address
list_for_user user rows = newest_first (filter (λ (a : Address). is_id a.user_id user) rows)

abbrev pub is_billing_of : Uuid → Address → Bool
is_billing_of user a = is_id a.user_id user && a.is_default_billing

abbrev pub is_shipping_of : Uuid → Address → Bool
is_shipping_of user a = is_id a.user_id user && a.is_default_shipping

abbrev pub clear_billing : Address → Address
clear_billing a = record a { is_default_billing = false }

abbrev pub clear_shipping : Address → Address
clear_shipping a = record a { is_default_shipping = false }

abbrev pub address_row : Uuid → Instant → Uuid → AddressWrite → Address
address_row i now user d = record {
  id = i;
  user_id = some user;
  company_id = none;
  label = d.label;
  recipient_name = d.recipient_name;
  line1 = d.line1;
  line2 = d.line2;
  postal_code = d.postal_code;
  city = d.city;
  country = d.country;
  phone = d.phone;
  is_default_billing = d.is_default_billing;
  is_default_shipping = d.is_default_shipping;
  created_at = now;
}

-- The other addresses of the user lose the marks that the new one takes.
unfoldable pub create_for_user : Uuid → Instant → Uuid → AddressWrite → List Address → List Address
create_for_user i now user d rows =
    let billed =
      if d.is_default_billing then update_where (is_billing_of user) clear_billing rows else rows in
    let shipped =
      if d.is_default_shipping
      then update_where (is_shipping_of user) clear_shipping billed
      else billed in
    shipped ++ address_row i now user d ∷ []

abbrev patched_text : Option String → Option String → Option String
patched_text none old = old
patched_text (some s) old = some s

abbrev pub patched : AddressPatch → Address → Address
patched p a = record a {
  label = patched_text p.label a.label;
  recipient_name = or_else p.recipient_name a.recipient_name;
  line1 = or_else p.line1 a.line1;
  line2 = patched_text p.line2 a.line2;
  postal_code = or_else p.postal_code a.postal_code;
  city = or_else p.city a.city;
  country = or_else p.country a.country;
  phone = patched_text p.phone a.phone;
  is_default_billing = or_else p.is_default_billing a.is_default_billing;
  is_default_shipping = or_else p.is_default_shipping a.is_default_shipping;
}

-- `if (data.isDefaultBilling)` where the field may be missing.
abbrev pub is_set : Option Bool → Bool
is_set none = false
is_set (some b) = b

-- The rows of the update, once the address is known to be the user's.
unfoldable pub update_rows : Uuid → Uuid → AddressPatch → List Address → List Address
update_rows i user p rows =
    let billed =
      if is_set p.is_default_billing
      then update_where (λ a. is_billing_of user a && not (a.id == i)) clear_billing rows
      else rows in
    let shipped =
      if is_set p.is_default_shipping
      then update_where (λ a. is_shipping_of user a && not (a.id == i)) clear_shipping billed
      else billed in
    update_where (λ (a : Address). a.id == i) (patched p) shipped

unfoldable pub update_for_user :
    Uuid → Uuid → AddressPatch → List Address → Option Address × List Address
update_for_user i user p rows = elim (find_by_id_for_user i user rows) [
  | none ↦ (none, rows)
  | some existing ↦ let updated = update_rows i user p rows in (find_address i updated, updated)
]

unfoldable pub delete_for_user : Uuid → Uuid → List Address → Bool × List Address
delete_for_user i user rows =
    (count_where (is_of_user i user) rows == 1, filter (λ a. not (is_of_user i user a)) rows)

-- `AddressService.get`, `update` and `remove`.
unfoldable pub get_address : Uuid → Uuid → List Address → Result Address
get_address user i rows = elim (find_by_id_for_user i user rows) [
  | none ↦ err (not_found "Adresse introuvable.")
  | some a ↦ ok a
]

unfoldable pub update_address :
    Uuid → Uuid → AddressPatch → List Address → Result Address × List Address
update_address user i p rows =
    let (found, rows') = update_for_user i user p rows in
    elim found [ none ↦ (err (not_found "Adresse introuvable."), rows') | some a ↦ (ok a, rows') ]

unfoldable pub remove_address : Uuid → Uuid → List Address → Result (Unit {0}) × List Address
remove_address user i rows =
    let (deleted, rows') = delete_for_user i user rows in
    if deleted then (ok tt, rows') else (err (not_found "Adresse introuvable."), rows')

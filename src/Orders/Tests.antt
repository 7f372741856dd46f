-- ===== src/Orders/Tests.antt =====
-- A small shop, and the theorems of the orders at concrete inputs.
use savemycontrollers.Catalog.{
  find_options_by_ids, find_required_options_for_services, find_services_by_ids,
  get_device_model_name, get_device_variant_name, is_device_model_active, is_device_variant_active,
  is_hardware_revision_valid,
}
use savemycontrollers.Configurator.Data.{
  compatibility_rules_for_services, exclusion_rules_for_services, requirement_rules_for_services,
}
use savemycontrollers.Configurator.Grouping.{group_by}
use savemycontrollers.Configurator.Validate.{
  all_issues, compatibility_issue, device_issues, duplicate_issues, exclusion_issue, option_issue,
  required_option_issue, requirement_issue, selected_options, service_issue, validate,
}
use savemycontrollers.Errors.{not_found}
use savemycontrollers.Configurator.Tests.{small_store, small_request}
use savemycontrollers.Orders.Addresses.{
  Address, AddressPatch, AddressWrite, create_for_user, delete_for_user, get_address,
  remove_address, update_address, update_for_user,
}
use savemycontrollers.Orders.Amounts.{new_order-total}
use savemycontrollers.Orders.Carts.{Merge, attach_guest_cart_to_user}
use savemycontrollers.Orders.Checkout.{
  CreateOrderRequest, OrderDraws, Prepared, assert_address_ownership, case_inputs, new_order,
  prepare, price_items,
}
use savemycontrollers.Orders.Create.{commit_order}
use savemycontrollers.Orders.Data.{Cart, CartItem, OrderItem, OrderStore}
use savemycontrollers.Orders.Defaults.{OneDefault, addresses-OneDefault, foreign_address}
use savemycontrollers.Orders.Merging.{attach_twice}
use savemycontrollers.Orders.Once.{commit_order_once}
use savemycontrollers.Repairs.Cases.{create_cases}
use savemycontrollers.Repairs.Data.{RepairStore}
use savemycontrollers.References.{next_reference_sequence, increment}
use savemycontrollers.Prelude.{
  ℕ, Uuid, true, false, none, some, List, [], ◌∷◌, ok, err, ◌≡◌, ◌+◌, refl, arith, sum_by,
}

abbrev address : Address
address = record {
  id = 61;
  user_id = some 7;
  company_id = none;
  label = none;
  recipient_name = "A";
  line1 = "1 rue";
  line2 = none;
  postal_code = "75001";
  city = "Paris";
  country = "FR";
  phone = none;
  is_default_billing = true;
  is_default_shipping = true;
  created_at = 5;
}

abbrev second_address : Address
second_address = record address { id = 62; is_default_billing = false; is_default_shipping = false }

abbrev two_addresses : List Address
two_addresses = address ∷ second_address ∷ []

abbrev write : AddressWrite
write = record {
  label = none;
  recipient_name = "B";
  line1 = "2 rue";
  line2 = none;
  postal_code = "69001";
  city = "Lyon";
  country = "FR";
  phone = none;
  is_default_billing = true;
  is_default_shipping = false;
}

abbrev patch : AddressPatch
patch = record {
  label = none;
  recipient_name = none;
  line1 = none;
  line2 = none;
  postal_code = none;
  city = none;
  country = none;
  phone = none;
  is_default_billing = some true;
  is_default_shipping = none;
}

abbrev cart : Cart
cart = record {
  id = 70;
  user_id = some 7;
  company_id = none;
  guest_token_hash = none;
  expires_at = none;
  converted_at = none;
  converted_to_order_id = none;
}

abbrev guest : Cart
guest = record cart { id = 71; user_id = none; guest_token_hash = some 1005; expires_at = some 900 }

abbrev item : CartItem
item = record { id = 72; cart_id = 70; configuration = small_request; reported_issue = none }

abbrev repairs : RepairStore
repairs = record {
  cases = [];
  history = [];
  notes = [];
  status_keys = [];
  transitions = [];
  counters = [];
  outbox = [];
  audit_log = [];
  users = [];
  access = record { user_roles = []; role_permissions = [] };
}

abbrev shop : OrderStore
shop = record {
  configuration = small_store;
  companies = record { companies = []; members = [] };
  addresses = two_addresses;
  carts = cart ∷ guest ∷ [];
  cart_items = item ∷ [];
  orders = [];
  repairs = repairs;
}

abbrev request : CreateOrderRequest
request = record { cart_id = 70; billing_address_id = 61; shipping_address_id = 62 }

abbrev draws : Uuid → OrderDraws
draws i = record {
  order_id = i;
  event_id = i + 1;
  correlation_id = i + 2;
  item_id = λ n. i + 10 + n;
  cases = record {
    case_id = λ n. i + 20 + n;
    event_id = λ n. i + 30 + n;
    qr_token = λ n. i + 40 + n;
  };
}

abbrev hash : ℕ → ℕ
hash t = t + 1000

abbrev ready : Prepared
ready = record {
  cart_id = 70;
  user_id = 7;
  company_id = none;
  request = request;
  billing = address;
  shipping = second_address;
  items =
      record {
        item = item;
        price = (validate small_store small_request none 500).price;
        device_model_name = "DualSense";
        device_variant_name = "Blanc";
      }
      ∷ [];
}

foreign_address_example :
    (get_address 8 61 two_addresses ≡ err (not_found "Adresse introuvable."))
    × (update_address 8 61 patch two_addresses
        ≡ (err (not_found "Adresse introuvable."), two_addresses))
    × (remove_address 8 61 two_addresses ≡ (err (not_found "Adresse introuvable."), two_addresses))
foreign_address_example = foreign_address 8 61 patch two_addresses refl

two_addresses-OneDefault : OneDefault two_addresses
two_addresses-OneDefault u = ground arith

addresses-OneDefault_example :
    OneDefault (create_for_user 62 10 7 write two_addresses)
    × OneDefault (update_for_user 62 7 patch two_addresses).1
    × OneDefault (delete_for_user 62 7 two_addresses).1
addresses-OneDefault_example =
    addresses-OneDefault 62 10 7 write patch two_addresses (omega arith) two_addresses-OneDefault

commit_order_once_example :
    let s' = (commit_order hash (draws 100) 2026 500 (2026, 1) ready shop).1 in
    commit_order hash (draws 200) 2026 600 (2026, 2) ready s' ≡ (ok 100, s')
unfolding commit_order create_cases case_inputs next_reference_sequence increment
commit_order_once_example =
    commit_order_once hash (draws 100) (draws 200) 2026 2026 500 600 (2026, 1) (2026, 2) ready ready
      shop 100 refl refl

attach_twice_example :
    let s' = (attach_guest_cart_to_user hash 7 (some 5) shop).1 in
    (m' : Merge) × (attach_guest_cart_to_user hash 7 (some 5) s' ≡ (ok m', s'))
unfolding attach_guest_cart_to_user
attach_twice_example =
    attach_twice hash 7 5 shop (record { cart_id = some 70; merged = true }) (omega arith) refl

new_order-total_example :
    let o = new_order (draws 100) 600 (2026, 1) ready in
    (o.discount_minor ≡ 0)
    × (o.total_minor ≡ o.subtotal_minor + o.tax_minor)
    × (o.total_minor ≡ sum_by (λ (t : OrderItem). t.total_minor) o.items)
unfolding prepare price_items assert_address_ownership get_device_model_name get_device_variant_name
    validate all_issues device_issues duplicate_issues service_issue option_issue
    required_option_issue compatibility_issue exclusion_issue requirement_issue selected_options
    is_device_model_active is_device_variant_active is_hardware_revision_valid find_services_by_ids
    find_options_by_ids find_required_options_for_services compatibility_rules_for_services
    exclusion_rules_for_services requirement_rules_for_services group_by
new_order-total_example = new_order-total 500 600 request 7 shop ready (draws 100) (2026, 1) refl

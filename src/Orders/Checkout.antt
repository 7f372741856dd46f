-- ===== src/Orders/Checkout.antt =====
-- `createOrder` of apps/api/src/modules/orders/services/order.service.ts: what is read and checked
-- before the transaction, the transaction, and the order as the client reads it. Other requests may
-- run between the three. The discounts are zero (computePrice), so no subtraction stops at 0.
use savemycontrollers.Errors.{forbidden, not_found, validation}
use savemycontrollers.Catalog.{get_device_model_name, get_device_variant_name}
use savemycontrollers.Companies.{assert_active_approved_member}
use savemycontrollers.Configurator.Data.{
  ConfigurationPrice, ConfigurationPriceLine, LineKind, service, option,
}
use savemycontrollers.Configurator.Validate.{validate}
use savemycontrollers.Orders.Addresses.{Address, find_address}
use savemycontrollers.Orders.Carts.{is_expired}
use savemycontrollers.Orders.Data.{
  AddressSnapshot, Cart, CartItem, LineSnapshot, Order, OrderItem, OrderStore, find_cart, items_of,
}
use savemycontrollers.Repairs.Cases.{CaseDraws, CreateCaseInput}
use savemycontrollers.Prelude.{
  ℕ, suc, String, Uuid, Instant, Bool, true, false, Option, none, some, List, [], ◌∷◌, ◌+◌, ◌-◌,
  ◌*◌, ◌/◌, ◌==◌, not, is_id, map, filter, sum_by, Result, ok, err, Action, pure, gets, or_throw,
  lift, throw_if, ◌>>=◌, ◌>>◌, if◌then◌else◌,
}

pub record CreateOrderRequest : Type 0 where
  pub cart_id : Uuid
  pub billing_address_id : Uuid
  pub shipping_address_id : Uuid

-- What a call draws: the order's id, its event's, the correlation id, the id of the item at each
-- position, and what its cases draw.
pub record OrderDraws : Type 0 where
  pub order_id : Uuid
  pub event_id : Uuid
  pub correlation_id : Uuid
  pub item_id : ℕ → Uuid
  pub cases : CaseDraws

-- A line of the cart, as it was validated and priced.
pub record PricedItem : Type 0 where
  pub item : CartItem
  pub price : ConfigurationPrice
  pub device_model_name : String
  pub device_variant_name : String

-- What the call has in hand when the transaction starts.
pub record Prepared : Type 0 where
  pub cart_id : Uuid
  pub user_id : Uuid
  pub company_id : Option Uuid
  pub request : CreateOrderRequest
  pub billing : Address
  pub shipping : Address
  pub items : List PricedItem

pub data Preparation : Type 0 where
  existing : Uuid → Preparation
  prepared : Prepared → Preparation

abbrev company_of : Uuid → Option Uuid → Action OrderStore (Option Uuid)
company_of user none = pure none
company_of user (some firm) = do
  member ← gets (λ s. assert_active_approved_member s.companies firm user)
  m ← lift member
  pure (some firm)

unfoldable pub assert_address_ownership : Address → Uuid → Option Uuid → Result (Unit {0})
assert_address_ownership a user none =
    if is_id a.user_id user then ok tt else err (forbidden "Cette adresse ne vous appartient pas.")
assert_address_ownership a user (some firm) =
    if is_id a.company_id firm
    then ok tt
    else err (forbidden "Cette adresse n'appartient pas a cette entreprise.")

-- The lines one after the other; the first that is no longer valid throws.
unfoldable pub price_items :
    Instant → Option Uuid → List CartItem → Action OrderStore (List PricedItem)
price_items now firm [] = pure []
price_items now firm (t ∷ items) = do
  result ← gets (λ s. validate s.configuration t.configuration firm now)
  throw_if (not result.valid) (validation "Une ligne du panier n'est plus valide.")
  model ← gets (λ s. get_device_model_name s.configuration.catalog t.configuration.device_model_id)
  model_name ← lift model
  variant ← gets (λ s.
      get_device_variant_name s.configuration.catalog t.configuration.device_model_id
        t.configuration.device_variant_id)
  variant_name ← lift variant
  rest ← price_items now firm items
  pure (
      record {
        item = t;
        price = result.price;
        device_model_name = model_name;
        device_variant_name = variant_name;
      }
      ∷ rest)

abbrev is_empty : List CartItem → Bool
is_empty [] = true
is_empty (t ∷ items) = false

abbrev prepare_new : Instant → CreateOrderRequest → Uuid → Cart → Action OrderStore Preparation
prepare_new now input user cart = do
  items ← gets (λ s. items_of cart.id s.cart_items)
  throw_if (is_empty items) (validation "Le panier est vide.")
  throw_if (is_expired now cart.expires_at) (validation "Ce panier a expire.")
  firm ← company_of user cart.company_id
  found_billing ← gets (λ s. find_address input.billing_address_id s.addresses)
  found_shipping ← gets (λ s. find_address input.shipping_address_id s.addresses)
  billing ← or_throw found_billing (not_found "Adresse introuvable.")
  shipping ← or_throw found_shipping (not_found "Adresse introuvable.")
  lift (assert_address_ownership billing user firm)
  lift (assert_address_ownership shipping user firm)
  lines ← price_items now firm items
  pure (
      prepared (record {
        cart_id = cart.id;
        user_id = user;
        company_id = firm;
        request = input;
        billing = billing;
        shipping = shipping;
        items = lines;
      }))

abbrev prepare_from :
    Instant → CreateOrderRequest → Uuid → Cart → Option Uuid → Action OrderStore Preparation
prepare_from now input user cart none = prepare_new now input user cart
prepare_from now input user cart (some order_id) = pure (existing order_id)

-- The reads and the checks; an order that the cart already became is the quick way out.
unfoldable pub prepare : Instant → CreateOrderRequest → Uuid → Action OrderStore Preparation
prepare now input user = do
  found ← gets (λ s. find_cart input.cart_id s.carts)
  cart ← or_throw found (not_found "Panier introuvable.")
  throw_if (not (is_id cart.user_id user)) (forbidden "Ce panier ne vous appartient pas.")
  prepare_from now input user cart cart.converted_to_order_id

abbrev pub subtotal_of : List PricedItem → ℕ
subtotal_of = sum_by (λ (p : PricedItem). p.price.subtotal_minor)

abbrev pub discount_of : List PricedItem → ℕ
discount_of = sum_by (λ (p : PricedItem). p.price.discount_minor)

abbrev pub tax_of_items : List PricedItem → ℕ
tax_of_items = sum_by (λ (p : PricedItem). p.price.tax_minor)

abbrev pub total_of : List PricedItem → ℕ
total_of items = (subtotal_of items - discount_of items) + tax_of_items items

abbrev snapshot : Address → AddressSnapshot
snapshot a = record {
  recipient_name = a.recipient_name;
  line1 = a.line1;
  line2 = a.line2;
  postal_code = a.postal_code;
  city = a.city;
  country = a.country;
  phone = a.phone;
}

abbrev is_service_line : LineKind → Bool
is_service_line service = true
is_service_line option = false

abbrev line_snapshot : ConfigurationPriceLine → LineSnapshot
line_snapshot l = record { id = l.id; name = l.name; price_minor = l.unit_price_minor }

-- `Math.round((tax * 10000) / subtotal)`, and 0 for a line that costs nothing.
abbrev pub tax_rate_snapshot : ℕ → ℕ → ℕ
tax_rate_snapshot tax subtotal =
    if subtotal == 0 then 0 else (2 * (tax * 10000) + subtotal) / (2 * subtotal)

abbrev pub order_item : Uuid → PricedItem → OrderItem
order_item i p = record {
  id = i;
  device_model_id = p.item.configuration.device_model_id;
  device_variant_id = p.item.configuration.device_variant_id;
  hardware_revision_id = p.item.configuration.hardware_revision_id;
  device_model_name = p.device_model_name;
  device_variant_name = p.device_variant_name;
  reported_issue = p.item.reported_issue;
  unit_price_minor = p.price.subtotal_minor;
  discount_minor = p.price.discount_minor;
  tax_rate_basis_points = tax_rate_snapshot p.price.tax_minor p.price.subtotal_minor;
  tax_amount_minor = p.price.tax_minor;
  total_minor = p.price.total_minor;
  services =
      map line_snapshot
        (filter (λ (l : ConfigurationPriceLine). is_service_line l.kind) p.price.breakdown);
  options =
      map line_snapshot
        (filter (λ (l : ConfigurationPriceLine). not (is_service_line l.kind)) p.price.breakdown);
}

-- The items from position `n` of the draws on.
unfoldable pub order_items : (ℕ → Uuid) → ℕ → List PricedItem → List OrderItem
order_items ids n [] = []
order_items ids n (p ∷ ps) = order_item (ids n) p ∷ order_items ids (suc n) ps

abbrev pub case_input : OrderDraws → Prepared → ℕ → PricedItem → CreateCaseInput
case_input d p n t = record {
  order_id = d.order_id;
  order_item_id = d.item_id n;
  client_id = some p.user_id;
  company_id = p.company_id;
  device_model_id = t.item.configuration.device_model_id;
  device_variant_id = t.item.configuration.device_variant_id;
  hardware_revision_id = t.item.configuration.hardware_revision_id;
  reported_issue = t.item.reported_issue;
}

unfoldable pub case_inputs : OrderDraws → Prepared → ℕ → List PricedItem → List CreateCaseInput
case_inputs d p n [] = []
case_inputs d p n (t ∷ ts) = case_input d p n t ∷ case_inputs d p (suc n) ts

abbrev pub new_order : OrderDraws → Instant → ℕ × ℕ → Prepared → Order
new_order d now reference p = record {
  id = d.order_id;
  reference = reference;
  user_id = p.user_id;
  company_id = p.company_id;
  billing_address_id = p.request.billing_address_id;
  shipping_address_id = p.request.shipping_address_id;
  billing = snapshot p.billing;
  shipping = snapshot p.shipping;
  subtotal_minor = subtotal_of p.items;
  discount_minor = discount_of p.items;
  tax_minor = tax_of_items p.items;
  total_minor = total_of p.items;
  items = order_items d.item_id 0 p.items;
  status_history =
      record { status = "CREATED"; changed_by_user_id = p.user_id; comment = "Commande creee." }
      ∷ [];
  created_at = now;
}

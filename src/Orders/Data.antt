-- ===== src/Orders/Data.antt =====
-- The tables of the carts and of the orders: prisma/schema.prisma.
use savemycontrollers.Companies.{CompanyTables}
use savemycontrollers.Configurator.Data.{Store, ConfigurationRequest}
use savemycontrollers.Identity.Sessions.{Hash}
use savemycontrollers.Orders.Addresses.{Address}
use savemycontrollers.Repairs.Data.{RepairStore}
use savemycontrollers.Prelude.{
  ℕ, String, Uuid, Instant, Option, List, ◌&&◌, ◌==◌, not, is_some, is_id, find?, filter,
}

pub record Cart : Type 0 where
  pub id : Uuid
  pub user_id : Option Uuid
  pub company_id : Option Uuid
  pub guest_token_hash : Option Hash
  pub expires_at : Option Instant
  pub converted_at : Option Instant
  pub converted_to_order_id : Option Uuid

-- A line of a cart, with the services and options chosen.
pub record CartItem : Type 0 where
  pub id : Uuid
  pub cart_id : Uuid
  pub configuration : ConfigurationRequest
  pub reported_issue : Option String

-- The copy of an address that an order keeps.
pub record AddressSnapshot : Type 0 where
  pub recipient_name : String
  pub line1 : String
  pub line2 : Option String
  pub postal_code : String
  pub city : String
  pub country : String
  pub phone : Option String

pub record LineSnapshot : Type 0 where
  pub id : Uuid
  pub name : String
  pub price_minor : ℕ

pub record OrderItem : Type 0 where
  pub id : Uuid
  pub device_model_id : Uuid
  pub device_variant_id : Uuid
  pub hardware_revision_id : Option Uuid
  pub device_model_name : String
  pub device_variant_name : String
  pub reported_issue : Option String
  pub unit_price_minor : ℕ
  pub discount_minor : ℕ
  pub tax_rate_basis_points : ℕ
  pub tax_amount_minor : ℕ
  pub total_minor : ℕ
  pub services : List LineSnapshot
  pub options : List LineSnapshot

-- A line of the history of an order.
pub record OrderStatusHistory : Type 0 where
  pub status : String
  pub changed_by_user_id : Uuid
  pub comment : String

pub record Order : Type 0 where
  pub id : Uuid
  pub reference : ℕ × ℕ
  pub user_id : Uuid
  pub company_id : Option Uuid
  pub billing_address_id : Uuid
  pub shipping_address_id : Uuid
  pub billing : AddressSnapshot
  pub shipping : AddressSnapshot
  pub subtotal_minor : ℕ
  pub discount_minor : ℕ
  pub tax_minor : ℕ
  pub total_minor : ℕ
  pub items : List OrderItem
  pub status_history : List OrderStatusHistory
  pub created_at : Instant

pub record OrderStore : Type 0 where
  pub configuration : Store
  pub companies : CompanyTables
  pub addresses : List Address
  pub carts : List Cart
  pub cart_items : List CartItem
  pub orders : List Order
  pub repairs : RepairStore

abbrev pub find_cart : Uuid → List Cart → Option Cart
find_cart i carts = find? (λ (c : Cart). c.id == i) carts

abbrev pub items_of : Uuid → List CartItem → List CartItem
items_of i items = filter (λ (t : CartItem). t.cart_id == i) items

-- `{ guestTokenHash }`
abbrev pub find_by_guest_token_hash : Hash → List Cart → Option Cart
find_by_guest_token_hash h carts = find? (λ (c : Cart). is_id c.guest_token_hash h) carts

-- `{ userId, convertedAt: null }`
abbrev pub find_active_for_user : Uuid → List Cart → Option Cart
find_active_for_user user carts =
    find? (λ (c : Cart). is_id c.user_id user && not (is_some c.converted_at)) carts

-- ===== src/Orders/Carts/Data.antt =====
-- What the operations of apps/api/src/modules/orders/services/cart.service.ts read and return, and
-- the active cart of a user.
use savemycontrollers.Companies.{CompanyMember}
use savemycontrollers.Identity.Sessions.{Hash}
use savemycontrollers.Orders.Data.{Cart, find_active_for_user}
use savemycontrollers.Prelude.{
  ℕ, String, Uuid, Instant, Bool, true, false, Option, none, some, List, [], ◌∷◌, ◌++◌, ◌+◌, ◌*◌,
  ltb, Result, ok, err,
}

pub record CartActor : Type 0 where
  pub user_id : Option Uuid
  pub guest_token_raw : Option ℕ

pub record GuestCartHandle : Type 0 where
  pub cart_id : Uuid
  pub new_guest_token_raw : Option ℕ

pub record Merge : Type 0 where
  pub cart_id : Option Uuid
  pub merged : Bool

abbrev pub guest_cart_ttl_ms : ℕ
guest_cart_ttl_ms = 30 * 24 * 60 * 60 * 1000

abbrev pub user_cart : Uuid → Uuid → Cart
user_cart i user = record {
  id = i;
  user_id = some user;
  company_id = none;
  guest_token_hash = none;
  expires_at = none;
  converted_at = none;
  converted_to_order_id = none;
}

abbrev pub guest_cart : Uuid → Hash → Instant → Cart
guest_cart i h now = record {
  id = i;
  user_id = none;
  company_id = none;
  guest_token_hash = some h;
  expires_at = some (now + guest_cart_ttl_ms);
  converted_at = none;
  converted_to_order_id = none;
}

unfoldable pub resolve_or_create_user_cart : Uuid → Uuid → List Cart → Uuid × List Cart
resolve_or_create_user_cart new_id user carts = elim (find_active_for_user user carts) [
  | some c ↦ (c.id, carts)
  | none ↦ (new_id, carts ++ user_cart new_id user ∷ [])
]

-- `cart.expiresAt && cart.expiresAt < new Date()`
abbrev pub is_expired : Instant → Option Instant → Bool
is_expired now none = false
is_expired now (some t) = ltb t now

-- `!cart.expiresAt || cart.expiresAt > new Date()`
abbrev pub is_fresh : Instant → Option Instant → Bool
is_fresh now none = true
is_fresh now (some t) = ltb now t

abbrev pub membership : Result CompanyMember → Result (Unit {0})
membership (ok m) = ok tt
membership (err e) = err e

abbrev pub name_or_empty : Result String → String
name_or_empty (ok s) = s
name_or_empty (err e) = ""

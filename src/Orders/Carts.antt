-- ===== src/Orders/Carts.antt =====
-- apps/api/src/modules/orders/services/cart.service.ts and
-- apps/api/src/modules/orders/repositories/cart.repository.ts.
mod Data
mod View
unfoldable pub use Data.*
unfoldable pub use View.*
use savemycontrollers.Errors.{forbidden, not_found, validation}
use savemycontrollers.Catalog.{
  Service, ServiceOption, find_options_by_ids, find_services_by_ids, get_device_model_name,
  get_device_variant_name,
}
use savemycontrollers.Companies.{CompanyMember, CompanyTables, assert_active_approved_member}
use savemycontrollers.Configurator.Data.{ConfigurationRequest, ConfigurationPrice}
use savemycontrollers.Configurator.Validate.{validate}
use savemycontrollers.Identity.Sessions.{Hash}
use savemycontrollers.Orders.Data.{
  Cart, CartItem, OrderStore, find_active_for_user, find_by_guest_token_hash, find_cart, items_of,
}
use savemycontrollers.Prelude.{
  ℕ, String, Uuid, Instant, Bool, true, false, Option, none, some, List, [], ◌∷◌, ◌++◌, ◌+◌, ◌-◌,
  ◌*◌, ◌&&◌, ◌==◌, not, ltb, is_some, is_id, map, filter, update_where, sum_by, Result, ok, err,
  Action, gets, modify, or_throw, lift, throw_if, ◌>>=◌, ◌>>◌, if◌then◌else◌,
}

abbrev pub attached : Uuid → Cart → Cart
attached user c = record c { user_id = some user; guest_token_hash = none; expires_at = none }

abbrev merge_into : Uuid → Cart → Option Cart → OrderStore → Result Merge × OrderStore
merge_into user guest none s = (
  ok (record { cart_id = some guest.id; merged = true }),
  record s { carts = update_where (λ (c : Cart). c.id == guest.id) (attached user) s.carts },
)
merge_into user guest (some own) s = (
  ok (record { cart_id = some own.id; merged = true }),
  record s {
    cart_items =
        filter (λ (t : CartItem). not (t.cart_id == guest.id))
          (update_where (λ (t : CartItem). t.cart_id == guest.id)
            (λ t. record t { cart_id = own.id }) s.cart_items);
    carts = filter (λ (c : Cart). not (c.id == guest.id)) s.carts;
  },
)

abbrev merge_guest : Uuid → Cart → OrderStore → Result Merge × OrderStore
merge_guest user guest s =
    if is_some guest.converted_at
    then (
      err (validation "Ce panier a deja ete converti en commande, il ne peut pas etre fusionne."),
      s,
    )
    else if is_some guest.user_id && not (is_id guest.user_id user)
    then (err (forbidden "Ce panier invite ne peut pas etre fusionne."), s)
    else if is_id guest.user_id user
    then (ok (record { cart_id = some guest.id; merged = true }), s)
    else merge_into user guest (find_active_for_user user s.carts) s

abbrev pub nothing_merged : Merge
nothing_merged = record { cart_id = none; merged = false }

abbrev merge_found : Uuid → Option Cart → OrderStore → Result Merge × OrderStore
merge_found user none s = (ok nothing_merged, s)
merge_found user (some guest) s = merge_guest user guest s

module _ (hash_token : ℕ → Hash) where
  abbrev reusable : Instant → Option Cart → Option Cart
  reusable now none = none
  reusable now (some c) =
      if not (is_some c.converted_at) && is_fresh now c.expires_at then some c else none

  abbrev guest_cart_of : Instant → Option ℕ → List Cart → Option Cart
  guest_cart_of now none carts = none
  guest_cart_of now (some raw) carts =
      reusable now (find_by_guest_token_hash (hash_token raw) carts)

  -- A token that is unknown, expired or of a converted cart gives a new cart.
  unfoldable pub resolve_or_create_guest_cart :
      Uuid → ℕ → Instant → Option ℕ → List Cart → GuestCartHandle × List Cart
  resolve_or_create_guest_cart new_id new_raw now existing carts =
      elim (guest_cart_of now existing carts) [
        | some c ↦ (record { cart_id = c.id; new_guest_token_raw = none }, carts)
        | none ↦ (
          record { cart_id = new_id; new_guest_token_raw = some new_raw },
          carts ++ guest_cart new_id (hash_token new_raw) now ∷ [],
        )
      ]

  abbrev is_guest_token : Option ℕ → Hash → Bool
  is_guest_token none h = false
  is_guest_token (some raw) h = hash_token raw == h

  abbrev check_user : Uuid → CartActor → Result (Unit {0})
  check_user owner actor =
      if is_id actor.user_id owner
      then ok tt
      else err (forbidden "Ce panier ne vous appartient pas.")

  abbrev check_company : CompanyTables → Uuid → Option Uuid → Result (Unit {0})
  check_company companies firm none =
      err (forbidden "Authentification requise pour ce panier professionnel.")
  check_company companies firm (some user) =
      membership (assert_active_approved_member companies firm user)

  abbrev check_guest : Option Hash → CartActor → Result (Unit {0})
  check_guest none actor = err (forbidden "Acces refuse a ce panier.")
  check_guest (some h) actor =
      if is_guest_token actor.guest_token_raw h
      then ok tt
      else err (forbidden "Acces refuse a ce panier.")

  abbrev check_owner : CompanyTables → Cart → CartActor → Result (Unit {0})
  check_owner companies cart actor = elim cart.user_id [
    | some owner ↦ check_user owner actor
    | none ↦ elim cart.company_id [
      | some firm ↦ check_company companies firm actor.user_id
      | none ↦ check_guest cart.guest_token_hash actor
    ]
  ]

  unfoldable pub assert_ownership : CompanyTables → Instant → Cart → CartActor → Result (Unit {0})
  assert_ownership companies now cart actor =
      if is_some cart.converted_at
      then err (validation "Ce panier a deja ete converti en commande.")
      else if is_expired now cart.expires_at
      then err (validation "Ce panier a expire.")
      else check_owner companies cart actor

  unfoldable pub get_cart : Instant → Uuid → CartActor → Action OrderStore CartView
  get_cart now i actor = do
    found ← gets (λ s. find_cart i s.carts)
    c ← or_throw found (not_found "Panier introuvable.")
    owner ← gets (λ s. assert_ownership s.companies now c actor)
    lift owner
    gets (λ s. cart_view s now c)

  -- The line is written only where the configurator accepts it.
  unfoldable pub add_item :
      Uuid
      → Instant
      → Uuid
      → ConfigurationRequest
      → Option String
      → CartActor
      → Action OrderStore CartView
  add_item item_id now i input reported actor = do
    found ← gets (λ s. find_cart i s.carts)
    c ← or_throw found (not_found "Panier introuvable.")
    owner ← gets (λ s. assert_ownership s.companies now c actor)
    lift owner
    result ← gets (λ s. validate s.configuration input c.company_id now)
    throw_if (not result.valid) (validation "Configuration invalide.")
    modify λ s. record s {
      cart_items =
          s.cart_items
          ++ record { id = item_id; cart_id = i; configuration = input; reported_issue = reported }
            ∷ [];
    }
    get_cart now i actor

  unfoldable pub attach_guest_cart_to_user :
      Uuid → Option ℕ → OrderStore → Result Merge × OrderStore
  attach_guest_cart_to_user user none s = (ok nothing_merged, s)
  attach_guest_cart_to_user user (some raw) s =
      merge_found user (find_by_guest_token_hash (hash_token raw) s.carts) s

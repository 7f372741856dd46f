-- ===== src/Orders/Create.antt =====
-- `createOrder` of apps/api/src/modules/orders/services/order.service.ts: the transaction, the order
-- as the client reads it (`getOrderForUser`), and the whole call.
use savemycontrollers.Errors.{internal, not_found, validation}
use savemycontrollers.Identity.Sessions.{Hash}
use savemycontrollers.Orders.Checkout.{
  CreateOrderRequest, OrderDraws, Prepared, Preparation, existing, prepared, prepare, new_order,
  case_inputs, total_of,
}
use savemycontrollers.Orders.Data.{AddressSnapshot, Cart, Order, OrderItem, OrderStore, find_cart}
use savemycontrollers.Outbox.{order_created, order, order_payload, append_event}
use savemycontrollers.References.{order_scope, next_reference_sequence}
use savemycontrollers.Repairs.Cases.{create_cases}
use savemycontrollers.Repairs.Data.{RepairCase, RepairStore}
use savemycontrollers.Prelude.{
  ℕ, Uuid, Instant, Bool, false, Option, none, some, List, [], ◌∷◌, ◌++◌, ◌&&◌, ◌==◌, not, is_some,
  map, find?, update_where, count_where, Result, ok, err, Action, pure, gets, modify, or_throw,
  ◌>>=◌, ◌>>◌, if◌then◌else◌,
}

-- A transaction, whose throw undoes everything but the counters of references, which are drawn outside.
abbrev pub in_transaction : {A : Type 0} → Action OrderStore A → Action OrderStore A
in_transaction body s =
    let (r, s') = body s in
    elim r [
      | ok a ↦ (ok a, s')
      | err e ↦ (err e, record s { repairs = record s.repairs { counters = s'.repairs.counters } })
    ]

abbrev on_repairs : {A : Type 0} → Action RepairStore A → Action OrderStore A
on_repairs m s = let (r, t) = m s.repairs in (r, record s { repairs = t })

-- `{ id, convertedAt: null }`
abbrev pub is_unclaimed : Uuid → Cart → Bool
is_unclaimed i c = c.id == i && not (is_some c.converted_at)

abbrev pub claim_carts : Uuid → Instant → List Cart → List Cart
claim_carts i now carts =
    update_where (is_unclaimed i) (λ c. record c { converted_at = some now }) carts

abbrev pub link_carts : Uuid → Uuid → List Cart → List Cart
link_carts i order_id carts =
    update_where (λ (c : Cart). c.id == i) (λ c. record c { converted_to_order_id = some order_id })
      carts

-- The order that another request made of the cart.
abbrev winning_order : Option Cart → Result Uuid
winning_order none = err (internal "No record was found for a query.")
winning_order (some c) = elim c.converted_to_order_id [
  | none ↦
      err (validation "Ce panier a deja ete transforme en commande, mais elle est introuvable.")
  | some i ↦ ok i
]

abbrev insert_order : OrderDraws → Instant → ℕ × ℕ → Prepared → OrderStore → OrderStore
insert_order d now reference p s = record s {
  carts = claim_carts p.cart_id now s.carts;
  orders = s.orders ++ new_order d now reference p ∷ [];
  repairs = record s.repairs {
    outbox =
        append_event d.event_id now
          (record {
            event_type = order_created;
            aggregate_type = order;
            aggregate_id = d.order_id;
            payload = order_payload reference (total_of p.items);
            correlation_id = d.correlation_id;
          })
          false s.repairs.outbox;
  };
}

module _ (hash_token : ℕ → Hash) where
  abbrev write_order : OrderDraws → ℕ → Instant → ℕ × ℕ → Prepared → Action OrderStore Uuid
  write_order d year now reference p = do
    modify (insert_order d now reference p)
    cases ←
        on_repairs
          (create_cases hash_token d.cases 0 year now d.correlation_id (case_inputs d p 0 p.items))
    modify (λ s. record s { carts = link_carts p.cart_id d.order_id s.carts })
    pure d.order_id

  -- The first statement claims the cart; a claim that changes no row gives the order that won.
  abbrev pub claim_or_write : OrderDraws → ℕ → Instant → ℕ × ℕ → Prepared → Action OrderStore Uuid
  claim_or_write d year now reference p s =
      if count_where (is_unclaimed p.cart_id) s.carts == 0
      then (winning_order (find_cart p.cart_id s.carts), s)
      else write_order d year now reference p s

  unfoldable pub commit_order : OrderDraws → ℕ → Instant → ℕ × ℕ → Prepared → Action OrderStore Uuid
  commit_order d year now reference p = in_transaction (claim_or_write d year now reference p)

pub record OrderDetail : Type 0 where
  pub id : Uuid
  pub reference : ℕ × ℕ
  pub billing : AddressSnapshot
  pub shipping : AddressSnapshot
  pub subtotal_minor : ℕ
  pub discount_minor : ℕ
  pub tax_minor : ℕ
  pub total_minor : ℕ
  pub items : List (OrderItem × Option Uuid)
  pub created_at : Instant

abbrev case_id : Option RepairCase → Option Uuid
case_id none = none
case_id (some c) = some c.id

-- `row.repairCases.find((rc) => rc.orderItemId === item.id)?.id ?? null`
abbrev with_case : Uuid → List RepairCase → OrderItem → OrderItem × Option Uuid
with_case order_id cases item = (
  item,
  case_id (find? (λ (c : RepairCase). c.order_id == order_id && c.order_item_id == item.id) cases),
)

abbrev detail : OrderStore → Order → OrderDetail
detail s o = record {
  id = o.id;
  reference = o.reference;
  billing = o.billing;
  shipping = o.shipping;
  subtotal_minor = o.subtotal_minor;
  discount_minor = o.discount_minor;
  tax_minor = o.tax_minor;
  total_minor = o.total_minor;
  items = map (with_case o.id s.repairs.cases) o.items;
  created_at = o.created_at;
}

-- `{ id, userId }`
abbrev pub find_for_user : Uuid → Uuid → List Order → Option Order
find_for_user i user orders = find? (λ (o : Order). o.id == i && o.user_id == user) orders

unfoldable pub get_order_for_user : Uuid → Uuid → Action OrderStore OrderDetail
get_order_for_user i user = do
  found ← gets (λ s. find_for_user i user s.orders)
  o ← or_throw found (not_found "Commande introuvable.")
  gets (λ s. detail s o)

-- `generateOrderReference`
abbrev draw_order_reference : ℕ → Action OrderStore (ℕ × ℕ)
draw_order_reference year s =
    let (r, counters) = next_reference_sequence order_scope year s.repairs.counters in
    (r, record s { repairs = record s.repairs { counters = counters } })

module _ (hash_token : ℕ → Hash) where
  abbrev finish_order : OrderDraws → ℕ → Instant → Preparation → Action OrderStore Uuid
  finish_order d year now (existing i) = pure i
  finish_order d year now (prepared p) = do
    reference ← draw_order_reference year
    commit_order hash_token d year now reference p

  -- `createOrder` with no other request between its parts.
  unfoldable pub create_order :
      OrderDraws → ℕ → Instant → CreateOrderRequest → Uuid → Action OrderStore OrderDetail
  create_order d year now input user = do
    ready ← prepare now input user
    i ← finish_order d year now ready
    get_order_for_user i user

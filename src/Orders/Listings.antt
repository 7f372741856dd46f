-- ===== src/Orders/Listings.antt =====
-- `listOwnOrders` of apps/api/src/modules/orders/services/order.service.ts, without the two statuses
-- and the currency, which are constants of a new order.
use savemycontrollers.Orders.Data.{Order}
use savemycontrollers.Prelude.{
  ℕ, Uuid, Instant, List, [], ◌∷◌, ◌==◌, leb, filter, length, map, if◌then◌else◌,
}

pub record OrderSummaryDto : Type 0 where
  pub id : Uuid
  pub reference : ℕ × ℕ
  pub total_minor : ℕ
  pub item_count : ℕ
  pub created_at : Instant

abbrev pub to_order_summary_dto : Order → OrderSummaryDto
to_order_summary_dto row = record {
  id = row.id;
  reference = row.reference;
  total_minor = row.total_minor;
  item_count = length row.items;
  created_at = row.created_at;
}

abbrev insert_newest_order : Order → List Order → List Order
insert_newest_order o [] = o ∷ []
insert_newest_order o (p ∷ orders) =
    let rest = insert_newest_order o orders in
    if leb p.created_at o.created_at then o ∷ p ∷ orders else p ∷ rest

-- `orderBy: { createdAt: "desc" }`
abbrev pub newest_orders_first : List Order → List Order
newest_orders_first [] = []
newest_orders_first (o ∷ orders) = insert_newest_order o (newest_orders_first orders)

unfoldable pub list_own_orders : Uuid → List Order → List OrderSummaryDto
list_own_orders user orders =
    map to_order_summary_dto
      (newest_orders_first (filter (λ (o : Order). o.user_id == user) orders))

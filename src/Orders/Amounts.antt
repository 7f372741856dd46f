-- ===== src/Orders/Amounts.antt =====
-- The amounts of an order and of its items, from the lines that the preparation prices.
use savemycontrollers.Configurator.Data.{Store, ConfigurationRequest}
use savemycontrollers.Configurator.Prices.{validate-AddsUp}
use savemycontrollers.Configurator.Validate.{validate, all_issues, is_not_blocking}
use savemycontrollers.Configurator.Pricing.{compute_price}
use savemycontrollers.Orders.Checkout.{
  CreateOrderRequest, OrderDraws, PricedItem, Prepared, prepared, prepare, price_items, new_order,
  order_items, subtotal_of, discount_of, tax_of_items,
}
use savemycontrollers.Orders.Data.{CartItem, OrderItem, OrderStore, find_cart, items_of}
use savemycontrollers.Prelude.{
  ℕ, suc, Uuid, Instant, Option, some, none, List, [], ◌∷◌, ◌≡◌, ◌+◌, refl, arith, sum_by, all, ok,
  inl, inr, Bool-cases, Option-cases, Result-cases,
}

validate-discount :
    (db : Store) (input : ConfigurationRequest) (firm : Option Uuid) (now : Instant)
    → (validate db input firm now).price.discount_minor ≡ 0
unfolding validate compute_price
validate-discount db input firm now =
    elim (Bool-cases (all is_not_blocking (all_issues db input))) [
      | inl e ↦ rw e refl
      | inr e ↦ rw e refl
    ]

price_items-sums :
    (now : Instant) (firm : Option Uuid) (items : List CartItem) (s : OrderStore)
    (lines : List PricedItem)
    → (price_items now firm items s).0 ≡ ok lines
    → (discount_of lines ≡ 0)
      × (subtotal_of lines + tax_of_items lines
          ≡ sum_by (λ (p : PricedItem). p.price.total_minor) lines)
unfolding price_items
price_items-sums now firm [] s lines done = ground arith
price_items-sums now firm (t ∷ items) s lines done =
    elim (Result-cases (price_items now firm items s).0) [
      | inr (e, failed) ↦ ground arith
      | inl (rest, priced) ↦ ground (
        arith,
        price_items-sums now firm items s rest priced,
        validate-AddsUp s.configuration t.configuration firm now,
        validate-discount s.configuration t.configuration firm now,
      )
    ]

order_items-total :
    (ids : ℕ → Uuid) (n : ℕ) (items : List PricedItem)
    → sum_by (λ (o : OrderItem). o.total_minor) (order_items ids n items)
      ≡ sum_by (λ (p : PricedItem). p.price.total_minor) items
unfolding order_items
order_items-total ids n [] = refl
order_items-total ids n (p ∷ items) = omega (arith, order_items-total ids (suc n) items)

-- The lines that a preparation priced.
prepared-sums :
    (now : Instant) (input : CreateOrderRequest) (user : Uuid) (s : OrderStore) (p : Prepared)
    → (prepare now input user s).0 ≡ ok (prepared p)
    → (discount_of p.items ≡ 0)
      × (subtotal_of p.items + tax_of_items p.items
          ≡ sum_by (λ (t : PricedItem). t.price.total_minor) p.items)
unfolding prepare
prepared-sums now input user s p done = elim (Option-cases (find_cart input.cart_id s.carts)) [
  | inl missing ↦ ground arith
  | inr (cart, found) ↦ elim (Option-cases cart.company_id) [
    | inl personal ↦
        elim (Result-cases (price_items now none (items_of cart.id s.cart_items) s).0) [
          | inl (lines, priced) ↦
              ground
                (arith, price_items-sums now none (items_of cart.id s.cart_items) s lines priced)
          | inr (e, failed) ↦ ground arith
        ]
    | inr (firm, owned) ↦
        elim (Result-cases (price_items now (some firm) (items_of cart.id s.cart_items) s).0) [
          | inl (lines, priced) ↦ ground (
            arith,
            price_items-sums now (some firm) (items_of cart.id s.cart_items) s lines priced,
          )
          | inr (e, failed) ↦ ground arith
        ]
  ]
]

-- The order that a call prepares has no discount, whatever its quantities, since nothing applies the
-- discounts by quantity; its total is the subtotal with the tax, and the sum of the totals of its items.
pub new_order-total :
    (now later : Instant) (input : CreateOrderRequest) (user : Uuid) (s : OrderStore) (p : Prepared)
    (d : OrderDraws) (reference : ℕ × ℕ)
    → (prepare now input user s).0 ≡ ok (prepared p)
    → let o = new_order d later reference p in
      (o.discount_minor ≡ 0)
      × (o.total_minor ≡ o.subtotal_minor + o.tax_minor)
      × (o.total_minor ≡ sum_by (λ (t : OrderItem). t.total_minor) o.items)
new_order-total now later input user s p d reference done =
    let (none_off, total) = prepared-sums now input user s p done in
    (
      none_off,
      omega (arith, none_off),
      omega (arith, none_off, total, order_items-total d.item_id 0 p.items),
    )

-- ===== src/Orders/Once.antt =====
-- A cart becomes one order.
use savemycontrollers.Identity.Sessions.{Hash}
use savemycontrollers.Orders.Checkout.{OrderDraws, Prepared}
use savemycontrollers.Orders.Create.{is_unclaimed, claim_carts, link_carts, commit_order}
use savemycontrollers.Orders.Data.{Cart, OrderStore, find_cart}
use savemycontrollers.Prelude.{
  ℕ, Uuid, Instant, some, List, [], ◌∷◌, ◌≡◌, ◌≢◌, refl, arith, ◌==◌, is_some, ok, count_where, inl,
  inr, Bool-cases, Option-cases,
}

-- A cart that became the order, with no row of the id left to claim.
abbrev pub IsWon : Uuid → Uuid → List Cart → Type 0
IsWon i order_id carts =
    (count_where (is_unclaimed i) carts ≡ 0)
    × (c : Cart) × (find_cart i carts ≡ some c)
    × (c.converted_to_order_id ≡ some order_id)

none_unclaimed :
    (i order_id : Uuid) (now : Instant) (carts : List Cart)
    → count_where (is_unclaimed i) (link_carts i order_id (claim_carts i now carts)) ≡ 0
none_unclaimed i order_id now [] = refl
none_unclaimed i order_id now (c ∷ carts) = ground (arith, none_unclaimed i order_id now carts)

linked :
    (i order_id : Uuid) (now : Instant) (carts : List Cart)
    → count_where (is_unclaimed i) carts ≢ 0
    → (c : Cart) × (find_cart i (link_carts i order_id (claim_carts i now carts)) ≡ some c)
      × (c.converted_to_order_id ≡ some order_id)
linked i order_id now [] h = absurd (h refl)
linked i order_id now (c ∷ carts) h = elim (Bool-cases (c.id == i)) [
  | inl here ↦ elim (Bool-cases (is_some c.converted_at)) [
    | inl taken ↦ (record c { converted_to_order_id = some order_id }, ground arith, refl)
    | inr free ↦ (
      record c { converted_at = some now; converted_to_order_id = some order_id },
      ground arith,
      refl,
    )
  ]
  | inr other ↦
      let (d, found, set) = linked i order_id now carts (ground arith) in (d, ground arith, set)
]

module _ (hash_token : ℕ → Hash) where
  won_again :
      (d : OrderDraws) (year : ℕ) (now : Instant) (reference : ℕ × ℕ) (p : Prepared)
      (s : OrderStore) (i : Uuid)
      → IsWon p.cart_id i s.carts
      → commit_order hash_token d year now reference p s ≡ (ok i, s)
  unfolding commit_order
  won_again d year now reference p s i (claimed, c, found, set) = ground arith

  commit-IsWon :
      (d : OrderDraws) (year : ℕ) (now : Instant) (reference : ℕ × ℕ) (p : Prepared)
      (s : OrderStore) (i : Uuid)
      → (commit_order hash_token d year now reference p s).0 ≡ ok i
      → IsWon p.cart_id i (commit_order hash_token d year now reference p s).1.carts
  unfolding commit_order
  commit-IsWon d year now reference p s i done =
      elim (Bool-cases (count_where (is_unclaimed p.cart_id) s.carts == 0)) [
        | inl taken ↦ elim (Option-cases (find_cart p.cart_id s.carts)) [
          | inl missing ↦ ground arith
          | inr (c, found) ↦ (ground arith, c, ground arith, ground arith)
        ]
        | inr free ↦
            let (c, found, set) = linked p.cart_id d.order_id now s.carts (ground arith) in
            (
              ground (arith, none_unclaimed p.cart_id d.order_id now s.carts),
              c,
              ground arith,
              ground arith,
            )
      ]

  -- Two calls that were prepared from one cart make one order, whichever is committed first and
  -- whatever they drew: once one has given an order, the other gives the same one and changes nothing.
  pub commit_order_once :
      (d e : OrderDraws) (year year' : ℕ) (now later : Instant) (reference reference' : ℕ × ℕ)
      (p q : Prepared) (s : OrderStore) (i : Uuid)
      → q.cart_id ≡ p.cart_id
      → (commit_order hash_token d year now reference p s).0 ≡ ok i
      → let s' = (commit_order hash_token d year now reference p s).1 in
        commit_order hash_token e year' later reference' q s' ≡ (ok i, s')
  commit_order_once d e year year' now later reference reference' p q s i same done =
      won_again e year' later reference' q (commit_order hash_token d year now reference p s).1 i
        (rw same (commit-IsWon d year now reference p s i done))

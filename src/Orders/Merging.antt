-- ===== src/Orders/Merging.antt =====
-- The cart of a guest who signs in: `attachGuestCartToUser` of
-- apps/api/src/modules/orders/services/cart.service.ts.
use savemycontrollers.Identity.Sessions.{Hash}
use savemycontrollers.Orders.Carts.{Merge, attached, attach_guest_cart_to_user, nothing_merged}
use savemycontrollers.Orders.Data.{Cart, OrderStore, find_by_guest_token_hash}
use savemycontrollers.Prelude.{
  ℕ, Uuid, none, some, List, [], ◌∷◌, ◌≡◌, ◌≤◌, refl, arith, ◌==◌, not, is_id, ok, count_where,
  update_where, filter, inl, inr, Bool-cases, Option-cases,
}

-- The carts with a token.
abbrev pub with_token : Hash → List Cart → ℕ
with_token h carts = count_where (λ (c : Cart). is_id c.guest_token_hash h) carts

no_token :
    (h : Hash) (user i : Uuid) (carts : List Cart)
    → with_token h carts ≡ 0
    → (find_by_guest_token_hash h carts ≡ none)
      × (find_by_guest_token_hash h (update_where (λ (c : Cart). c.id == i) (attached user) carts)
          ≡ none)
      × (find_by_guest_token_hash h (filter (λ (c : Cart). not (c.id == i)) carts) ≡ none)
no_token h user i [] e = (refl, refl, refl)
no_token h user i (c ∷ carts) e = ground (arith, no_token h user i carts)

-- Once the cart that holds the token is attached or deleted, nothing is found by the token.
token_spent :
    (h : Hash) (user : Uuid) (carts : List Cart) (g : Cart)
    → with_token h carts ≤ 1
    → find_by_guest_token_hash h carts ≡ some g
    → (find_by_guest_token_hash h (update_where (λ (c : Cart). c.id == g.id) (attached user) carts)
        ≡ none)
      × (find_by_guest_token_hash h (filter (λ (c : Cart). not (c.id == g.id)) carts) ≡ none)
token_spent h user [] g one f = cc
token_spent h user (c ∷ carts) g one f = elim (Bool-cases (is_id c.guest_token_hash h)) [
  | inl here ↦ ground (arith, no_token h user c.id carts)
  | inr other ↦ ground (arith, token_spent h user carts g)
]

module _ (hash_token : ℕ → Hash) where
  -- Where a token belongs to one cart at most: after a call that succeeds, the same call again
  -- succeeds and changes nothing.
  pub attach_twice :
      (user : Uuid) (raw : ℕ) (s : OrderStore) (m : Merge)
      → with_token (hash_token raw) s.carts ≤ 1
      → (attach_guest_cart_to_user hash_token user (some raw) s).0 ≡ ok m
      → let s' = (attach_guest_cart_to_user hash_token user (some raw) s).1 in
        (m' : Merge) × (attach_guest_cart_to_user hash_token user (some raw) s' ≡ (ok m', s'))
  unfolding attach_guest_cart_to_user
  attach_twice user raw s m one done =
      elim (Option-cases (find_by_guest_token_hash (hash_token raw) s.carts)) [
        | inl missing ↦ (nothing_merged, ground arith)
        | inr (g, found) ↦ elim (Bool-cases (is_id g.user_id user)) [
          | inl own ↦ (m, ground arith)
          | inr new ↦ (
            nothing_merged,
            ground (arith, token_spent (hash_token raw) user s.carts g one found),
          )
        ]
      ]

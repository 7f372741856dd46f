-- ===== src/Orders/Defaults.antt =====
-- The default addresses, and whose addresses a client reaches.
use savemycontrollers.Errors.{not_found}
use savemycontrollers.Orders.Addresses.{
  Address, AddressWrite, AddressPatch, find_by_id_for_user, is_of_user, is_billing_of,
  is_shipping_of, clear_billing, clear_shipping, address_row, create_for_user, is_set, update_rows,
  update_for_user, delete_for_user, get_address, update_address, remove_address,
}
use savemycontrollers.Prelude.{
  ℕ, Uuid, Instant, Bool, true, false, none, some, List, [], ◌∷◌, ◌++◌, ◌≡◌, ◌≤◌, ◌+◌, refl, arith,
  ◌&&◌, ◌||◌, ◌==◌, not, filter, any, all, update_where, count_where, is_id, err, if◌then◌else◌,
  inl, inr, Option-cases,
}

not_found_by :
    (user i : Uuid) (rows : List Address)
    → any (is_of_user i user) rows ≡ false
    → (find_by_id_for_user i user rows ≡ none)
      × (count_where (is_of_user i user) rows ≡ 0)
      × (filter (λ a. not (is_of_user i user a)) rows ≡ rows)
unfolding find_by_id_for_user
not_found_by user i [] h = (refl, refl, refl)
not_found_by user i (a ∷ rows) h = ground (arith, not_found_by user i rows)

-- An address that is not the user's is answered as one that does not exist, whatever is asked, and
-- no row changes.
pub foreign_address :
    (user i : Uuid) (p : AddressPatch) (rows : List Address)
    → any (is_of_user i user) rows ≡ false
    → (get_address user i rows ≡ err (not_found "Adresse introuvable."))
      × (update_address user i p rows ≡ (err (not_found "Adresse introuvable."), rows))
      × (remove_address user i rows ≡ (err (not_found "Adresse introuvable."), rows))
unfolding get_address update_address update_for_user remove_address delete_for_user
foreign_address user i p rows h = ground (arith, not_found_by user i rows h)

-- At most one address of every user is the default for billing, and at most one for shipping.
abbrev pub OneDefault : List Address → Type 0
OneDefault rows =
    (u : Uuid)
    → (count_where (is_billing_of u) rows ≤ 1) × (count_where (is_shipping_of u) rows ≤ 1)

count_where-append :
    (p : Address → Bool) (rows : List Address) (a : Address)
    → count_where p (rows ++ a ∷ []) ≡ count_where p rows + (if p a then 1 else 0)
count_where-append p [] a = ground arith
count_where-append p (b ∷ rows) a = omega (arith, count_where-append p rows a)

-- The user's marks that a clearing spares, where `keep` says which rows it passes over.
cleared :
    (keep : Address → Bool) (user u : Uuid) (rows : List Address)
    → let billed = update_where (λ a. is_billing_of user a && not (keep a)) clear_billing rows in
      let shipped = update_where (λ a. is_shipping_of user a && not (keep a)) clear_shipping rows in
      (count_where (is_billing_of u) billed ≤ count_where (is_billing_of u) rows)
      × (count_where (is_shipping_of u) billed ≡ count_where (is_shipping_of u) rows)
      × (count_where (is_shipping_of u) shipped ≤ count_where (is_shipping_of u) rows)
      × (count_where (is_billing_of u) shipped ≡ count_where (is_billing_of u) rows)
cleared keep user u [] = ground arith
cleared keep user u (a ∷ rows) = ground (arith, cleared keep user u rows)

-- The same with nothing spared: the user has no mark left, and no other count rises.
cleared_all :
    (user u : Uuid) (rows : List Address)
    → let billed = update_where (is_billing_of user) clear_billing rows in
      let shipped = update_where (is_shipping_of user) clear_shipping rows in
      (count_where (is_billing_of u) billed
          + (if user == u then count_where (is_billing_of u) rows else 0)
        ≡ count_where (is_billing_of u) rows)
      × (count_where (is_shipping_of u) billed ≡ count_where (is_shipping_of u) rows)
      × (count_where (is_shipping_of u) shipped
            + (if user == u then count_where (is_shipping_of u) rows else 0)
          ≡ count_where (is_shipping_of u) rows)
      × (count_where (is_billing_of u) shipped ≡ count_where (is_billing_of u) rows)
cleared_all user u [] = ground arith
cleared_all user u (a ∷ rows) = ground (arith, cleared_all user u rows)

-- A new address keeps the defaults of every user single.
create_for_user-OneDefault :
    (i : Uuid) (now : Instant) (user : Uuid) (d : AddressWrite) (rows : List Address)
    → OneDefault rows
    → OneDefault (create_for_user i now user d rows)
unfolding create_for_user
create_for_user-OneDefault i now user d rows one u = ground (
  arith,
  one u,
  cleared_all user u rows,
  cleared_all user u (update_where (is_billing_of user) clear_billing rows),
  count_where-append (is_billing_of u) rows (address_row i now user d),
  count_where-append (is_shipping_of u) rows (address_row i now user d),
  count_where-append (is_billing_of u) (update_where (is_billing_of user) clear_billing rows)
      (address_row i now user d),
  count_where-append (is_shipping_of u) (update_where (is_billing_of user) clear_billing rows)
      (address_row i now user d),
  count_where-append (is_billing_of u) (update_where (is_shipping_of user) clear_shipping rows)
      (address_row i now user d),
  count_where-append (is_shipping_of u) (update_where (is_shipping_of user) clear_shipping rows)
      (address_row i now user d),
  count_where-append (is_billing_of u)
      (update_where (is_shipping_of user) clear_shipping
        (update_where (is_billing_of user) clear_billing rows))
      (address_row i now user d),
  count_where-append (is_shipping_of u)
      (update_where (is_shipping_of user) clear_shipping
        (update_where (is_billing_of user) clear_billing rows))
      (address_row i now user d),
)

deleted :
    (user i : Uuid) (u : Uuid) (rows : List Address)
    → (count_where (is_billing_of u) (filter (λ a. not (is_of_user i user a)) rows)
        ≤ count_where (is_billing_of u) rows)
      × (count_where (is_shipping_of u) (filter (λ a. not (is_of_user i user a)) rows)
          ≤ count_where (is_shipping_of u) rows)
deleted user i u [] = ground arith
deleted user i u (a ∷ rows) = ground (arith, deleted user i u rows)

-- The rows with an id.
abbrev pub with_id : Uuid → List Address → ℕ
with_id i rows = count_where (λ (a : Address). a.id == i) rows

-- Every row with the id is the user's.
abbrev owned : Uuid → Uuid → List Address → Bool
owned user i rows = all (λ (a : Address). not (a.id == i) || is_id a.user_id user) rows

owned_absent : (user i : Uuid) (rows : List Address) → with_id i rows ≡ 0 → owned user i rows ≡ true
owned_absent user i [] h = refl
owned_absent user i (a ∷ rows) h = ground (arith, owned_absent user i rows)

found-with_id :
    (user i : Uuid) (rows : List Address) (a : Address)
    → find_by_id_for_user i user rows ≡ some a
    → 1 ≤ with_id i rows
unfolding find_by_id_for_user
found-with_id user i [] a f = cc
found-with_id user i (b ∷ rows) a f = ground (arith, found-with_id user i rows a)

found-owned :
    (user i : Uuid) (rows : List Address) (a : Address)
    → with_id i rows ≤ 1
    → find_by_id_for_user i user rows ≡ some a
    → owned user i rows ≡ true
unfolding find_by_id_for_user
found-owned user i [] a h f = refl
found-owned user i (b ∷ rows) a h f =
    ground (arith, found-owned user i rows a, owned_absent user i rows, found-with_id user i rows a)

updated :
    (i user u : Uuid) (p : AddressPatch) (rows : List Address)
    → owned user i rows ≡ true
    → (count_where (is_billing_of u) (update_rows i user p rows) ≤ (
        if is_set p.is_default_billing && user == u
        then with_id i rows
        else count_where (is_billing_of u) rows))
      × (count_where (is_shipping_of u) (update_rows i user p rows) ≤ (
          if is_set p.is_default_shipping && user == u
          then with_id i rows
          else count_where (is_shipping_of u) rows))
unfolding update_rows
updated i user u p [] h = ground arith
updated i user u p (a ∷ rows) h = ground (arith, updated i user u p rows)

-- Where an id stands once, every operation on the addresses leaves every user with at most one
-- default address for billing and at most one for shipping.
pub addresses-OneDefault :
    (i : Uuid) (now : Instant) (user : Uuid) (d : AddressWrite) (p : AddressPatch)
    (rows : List Address)
    → with_id i rows ≤ 1
    → OneDefault rows
    → OneDefault (create_for_user i now user d rows)
      × OneDefault (update_for_user i user p rows).1
      × OneDefault (delete_for_user i user rows).1
unfolding update_for_user delete_for_user
addresses-OneDefault i now user d p rows keyed one = (
  create_for_user-OneDefault i now user d rows one,
  elim (Option-cases (find_by_id_for_user i user rows)) [
    | inl missing ↦ rw (missing, update_for_user) one
    | inr (a, found) ↦
        rw (found, update_for_user)
          (λ u.
            ground (arith, one u, updated i user u p rows (found-owned user i rows a keyed found)))
  ],
  λ u. ground (arith, one u, deleted user i u rows),
)

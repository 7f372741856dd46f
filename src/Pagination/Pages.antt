-- ===== src/Pagination/Pages.antt =====
-- A client that reads every page of apps/api/src/modules/core/pagination/paginate.ts.
use savemycontrollers.Pagination.{
  PaginationQuery, IsQuery, PaginatedResult, ceil_div, to_paginated_result, to_skip_take,
}
use savemycontrollers.Prelude.{
  ℕ, zero, suc, List, [], ◌∷◌, ◌++◌, ◌+◌, ◌-◌, ◌*◌, ◌≤◌, ◌<◌, ◌≡◌, max, refl, sym, ap, ◌∙◌, arith,
  length, length-take-le, take,
}
use mathlib.Core.Path.{subst}
use native.Mathlib.Nat.{suc-mul, lt-div-mul-add, div-mul-le_self, le-div_iff_mul-le}

page_start : (n size : ℕ) → (suc n - 1) * size ≡ n * size
page_start n size = ap (λ k. k * size) (omega arith)

-- The pages hold every item, and without the last one they would not.
ceil_div-le : (n d : ℕ) → 1 ≤ d → n ≤ ceil_div n d * d
ceil_div-le n d h = omega (arith, lt-div-mul-add {a = n + (d - 1)} {b = d} h)

pred-mul : (c d : ℕ) → 1 ≤ c → (c - 1) * d + d ≡ c * d
pred-mul zero d h = absurd (omega arith)
pred-mul (suc c) d h = ap (λ k. k + d) (page_start c d) ∙ sym (suc-mul c d)

ceil_div-pred-lt : (n d : ℕ) → 1 ≤ d → 1 ≤ ceil_div n d → (ceil_div n d - 1) * d < n
ceil_div-pred-lt n d h some_pages =
    omega (arith, div-mul-le_self (n + (d - 1)) d, pred-mul (ceil_div n d) d some_pages)

max_one : (c : ℕ) → 1 ≤ c → max 1 c ≡ c
max_one c h = omega arith

ceil_div-pos : (n d : ℕ) → 1 ≤ d → 1 ≤ n → 1 ≤ ceil_div n d
ceil_div-pos n d h some_items =
    (le-div_iff_mul-le {k = d} {x = 1} {y = n + (d - 1)} h).1 (omega arith)

max-mul-le : (n c d : ℕ) → n ≤ c * d → n ≤ max 1 c * d
max-mul-le n zero d h = ground arith
max-mul-le n (suc c) d h = subst (λ k. n ≤ k * d) (sym (max_one (suc c) (omega arith))) h

last_page : (n d : ℕ) → 1 ≤ d → 1 ≤ n → (max 1 (ceil_div n d) - 1) * d < n
last_page n d h some_items =
    subst (λ k. (k - 1) * d < n) (sym (max_one (ceil_div n d) (ceil_div-pos n d h some_items)))
      (ceil_div-pred-lt n d h (ceil_div-pos n d h some_items))

module _ {A : Type 0} where
  -- `skip` of a query, which leaves out the first rows.
  abbrev pub drop : ℕ → List A → List A
  drop zero xs = xs
  drop (suc n) [] = []
  drop (suc n) (x ∷ xs) = drop n xs

  -- A handler that pages a table: `findMany({ skip, take })` with `count()`.
  abbrev pub page_of : List A → PaginationQuery → PaginatedResult A
  page_of rows q =
      let w = to_skip_take q in to_paginated_result (take w.take (drop w.skip rows)) (length rows) q

  -- The items of the pages from 1 to `n`, one after the other.
  abbrev pub items_of_pages : List A → ℕ → ℕ → List A
  items_of_pages rows size zero = []
  items_of_pages rows size (suc n) =
      items_of_pages rows size n ++ (page_of rows (record { page = suc n; page_size = size })).items

  take-nil : (n : ℕ) → take {A = A} n [] ≡ []
  take-nil zero = refl
  take-nil (suc n) = refl

  take_cong : (m n : ℕ) (xs : List A) → m ≡ n → take m xs ≡ take n xs
  take_cong m n xs e = ap (λ k. take k xs) e

  take-append-drop : (m n : ℕ) (xs : List A) → take m xs ++ take n (drop m xs) ≡ take (m + n) xs
  take-append-drop zero n xs = take_cong n (0 + n) xs (omega arith)
  take-append-drop (suc m) n [] = take-nil n ∙ sym (take-nil (suc m + n))
  take-append-drop (suc m) n (x ∷ xs) =
      ap (x ∷◌) (take-append-drop m n xs)
      ∙ take_cong (suc (m + n)) (suc m + n) (x ∷ xs) (omega arith)

  take_all : (n : ℕ) (xs : List A) → length xs ≤ n → take n xs ≡ xs
  take_all n [] h = take-nil n
  take_all zero (x ∷ xs) h = absurd (omega arith)
  take_all (suc n) (x ∷ xs) h = ap (x ∷◌) (take_all n xs (omega arith))

  items_of_pages-take :
      (rows : List A) (size n : ℕ) → items_of_pages rows size n ≡ take (n * size) rows
  unfolding to_paginated_result to_skip_take
  items_of_pages-take rows size zero = take_cong 0 (0 * size) rows (omega arith)
  items_of_pages-take rows size (suc n) =
      rw (items_of_pages-take rows size n, page_start n size)
        (take-append-drop (n * size) size rows
          ∙ take_cong (n * size + size) (suc n * size) rows (sym (suc-mul n size)))

  -- For a query that the contract allows, the pages from the first to the last that `totalPages`
  -- announces hold every row once and in order, none of them holds more than `pageSize` rows, and
  -- where there are rows, the pages before the last do not hold them all.
  pub items_of_pages-rows :
      (rows : List A) (q : PaginationQuery)
      → IsQuery q
      → (items_of_pages rows q.page_size (page_of rows q).total_pages ≡ rows)
        × (length (page_of rows q).items ≤ q.page_size)
        × (1 ≤ length rows → ((page_of rows q).total_pages - 1) * q.page_size < length rows)
  unfolding to_paginated_result to_skip_take
  items_of_pages-rows rows q v = (
    items_of_pages-take rows q.page_size (page_of rows q).total_pages
        ∙ take_all ((page_of rows q).total_pages * q.page_size) rows (
            max-mul-le (length rows) (ceil_div (length rows) q.page_size) q.page_size
              (ceil_div-le (length rows) q.page_size v.some_size)),
    length-take-le q.page_size (drop ((q.page - 1) * q.page_size) rows),
    λ some_rows. last_page (length rows) q.page_size v.some_size some_rows,
  )

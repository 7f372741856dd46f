-- ===== src/Pagination/Tests.antt =====
-- Five rows in pages of two, through apps/api/src/modules/core/pagination/paginate.ts.
use savemycontrollers.Pagination.{PaginationQuery, parsed_query, to_paginated_result, to_skip_take}
use savemycontrollers.Pagination.Pages.{page_of, items_of_pages, items_of_pages-rows}
use savemycontrollers.Prelude.{
  ℕ, none, some, List, [], ◌∷◌, ◌≡◌, ◌≤◌, ◌<◌, ◌-◌, ◌*◌, refl, arith, length,
}

abbrev five : List ℕ
five = 11 ∷ 12 ∷ 13 ∷ 14 ∷ 15 ∷ []

abbrev pairs : PaginationQuery
pairs = parsed_query none (some 2)

items_of_pages-rows_example :
    (items_of_pages five 2 (page_of five pairs).total_pages ≡ five)
    × (length (page_of five pairs).items ≤ 2)
    × (1 ≤ length five → ((page_of five pairs).total_pages - 1) * 2 < length five)
items_of_pages-rows_example =
    items_of_pages-rows five pairs
      (record { from_one = omega arith; some_size = omega arith; bounded = omega arith })

third_page : (page_of five (record { page = 3; page_size = 2 })).items ≡ 15 ∷ []
unfolding to_paginated_result to_skip_take
third_page = refl

three_pages : (page_of five pairs).total_pages ≡ 3
unfolding to_paginated_result
three_pages = refl

-- ===== src/Pagination.antt =====
-- Pages of lists: apps/api/src/modules/core/pagination/paginate.ts and
-- packages/contracts/src/common/pagination.ts.
pub mod Pages
mod Tests
use savemycontrollers.Prelude.{ℕ, Option, none, some, List, ◌+◌, ◌-◌, ◌*◌, ◌/◌, ◌≤◌, max, or_else}

-- `paginationQuerySchema`, with its defaults and its bounds.
pub record PaginationQuery : Type 0 where
  pub page : ℕ
  pub page_size : ℕ

abbrev pub parsed_query : Option ℕ → Option ℕ → PaginationQuery
parsed_query page page_size = record { page = or_else page 1; page_size = or_else page_size 20 }

-- `min(1)` of the page, `min(1).max(100)` of its size.
pub record IsQuery (q : PaginationQuery) : Type 0 where
  pub from_one : 1 ≤ q.page
  pub some_size : 1 ≤ q.page_size
  pub bounded : q.page_size ≤ 100

pub record PaginatedResult (A : Type 0) : Type 0 where
  pub items : List A
  pub page : ℕ
  pub page_size : ℕ
  pub total_items : ℕ
  pub total_pages : ℕ

-- `Math.ceil(n / d)`, for a size of at least one.
abbrev pub ceil_div : ℕ → ℕ → ℕ
ceil_div n d = (n + (d - 1)) / d

unfoldable pub to_paginated_result : {A : Type 0} → List A → ℕ → PaginationQuery → PaginatedResult A
to_paginated_result items total_items query = record {
  items = items;
  page = query.page;
  page_size = query.page_size;
  total_items = total_items;
  total_pages = max 1 (ceil_div total_items query.page_size);
}

pub record SkipTake : Type 0 where
  pub skip : ℕ
  pub take : ℕ

unfoldable pub to_skip_take : PaginationQuery → SkipTake
to_skip_take query = record { skip = (query.page - 1) * query.page_size; take = query.page_size }

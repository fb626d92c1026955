-- ===== src/Utils/Pagination.antt =====
-- src/utils/dto/pagination-query.dto.ts and PaginationQueryPipeTransform of
-- src/pipe/transform.pipe.ts. A page is a whole number of at least 1 (`@IsInt @Min(1)`), a limit a
-- whole number of at most 50 (`@IsInt @Max(50)`); a negative limit, which the validator lets pass, is
-- left out.
use vnst_be.Base.{ℕ, ◌-◌, ◌*◌, ◌≤◌, ◌&&◌, Option, none, Text, ltb, if◌then◌else◌}

pub record PaginationQuery : Type 0 where
  pub page : ℕ
  pub limit : ℕ
  pub sort : Option Text
  pub skip : ℕ

-- The initial values of the class's fields.
abbrev pub default_pagination : PaginationQuery
default_pagination = record { page = 1; limit = 30; sort = none; skip = 0 }

-- What the validators of the class let pass.
pub record IsValidPage (q : PaginationQuery) : Type 0 where
  pub page_min : 1 ≤ q.page
  pub limit_max : q.limit ≤ 50

pub record OffsetQuery : Type 0 where
  pub offset : ℕ
  pub limit : ℕ
  pub sort : Option Text

abbrev pub default_offset : OffsetQuery
default_offset = record { offset = 0; limit = 30; sort = none }

-- `(query.page - 1) * query.limit`, at a page of at least 1.
unfoldable pub page_skip : ℕ → ℕ → ℕ
page_skip page limit = (page - 1) * limit

unfoldable pub transform_pagination : PaginationQuery → PaginationQuery
unfolding page_skip
transform_pagination q =
    if ltb 0 q.limit && ltb 0 q.page then record q { skip = page_skip q.page q.limit } else q

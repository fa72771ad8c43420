-- ===== src/Pagination.antt =====
-- pagination/: the constants, PaginationService, and the transforms of the query that
-- pagination.decorator.ts declares.
pub mod Laws
pub mod Listing
pub mod Filters
use openapi_nestjs_auth_mong.Prelude.{
  ltb, if◌then◌else◌, includes, ℤ, pos, negsuc, pred_ℤ, neg, ◌*ℤ◌, ℕ, zero, suc, ◌+◌, ◌/◌, String,
  Bool, false, not, Option, none, some, List, ◌==◌,
}
use openapi_nestjs_auth_mong.Helper.Split.{split_first, split_second}

abbrev pub default_max_per_page : ℕ
default_max_per_page = 100

abbrev pub default_max_page : ℕ
default_max_page = 20

-- `value > max ? max : value`
abbrev pub at_most : ℕ → ℤ → ℤ
at_most most (pos n) = if ltb most n then pos most else pos n
at_most most (negsuc n) = negsuc n

-- PaginationService.skip
unfoldable pub skip : ℤ → ℤ → ℤ
skip page per_page = pred_ℤ (at_most default_max_page page) *ℤ at_most default_max_per_page per_page

-- PaginationService.totalPage, Math.ceil(totalData / limit); none: the limit is 0 and the quotient
-- is no number of pages. A quotient by a negative limit is rounded towards 0.
unfoldable pub total_page : ℕ → ℤ → Option ℤ
total_page total_data (pos zero) = none
total_page total_data (pos (suc l)) = some (pos ((total_data + l) / suc l))
total_page total_data (negsuc l) = some (neg (total_data / suc l))

-- PaginationPage and PaginationPerPage: `!value` for 0 and for NaN, which is none
abbrev pub or_default : ℕ → Option ℤ → ℤ
or_default d none = pos d
or_default d (some (pos zero)) = pos d
or_default d (some n) = n

unfoldable pub pagination_page : ℕ → Option ℤ → ℤ
pagination_page page value = at_most default_max_page (or_default page value)

unfoldable pub pagination_per_page : ℕ → Option ℤ → ℤ
pagination_per_page per_page value = at_most default_max_per_page (or_default per_page value)

-- PaginationSort: `field@type`, and true for an ascending order
abbrev pub b_sort : String
b_sort = "createdAt"

abbrev pub or_text : Option String → String → String
or_text none d = d
or_text (some s) d = if s == "" then d else s

abbrev is_desc : Option String → Bool
is_desc none = false
is_desc (some s) = s == "desc"

unfoldable pub pagination_sort : String → List String → Option String → String × Bool
pagination_sort sort available_sort value =
    let r_sort = or_text value sort in
    let field = split_first b'@' r_sort in
    let type = split_second b'@' r_sort in
    (if includes available_sort field then field else b_sort, not (is_desc type))

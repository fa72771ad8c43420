-- ===== src/Pagination/Filters.antt =====
-- pagination.decorator.ts: the transforms of the search and of the filters of a list.
use openapi_nestjs_auth_mong.Prelude.{String, Bool, Option, none, some, List, map, truthy, ◌==◌}
use openapi_nestjs_auth_mong.Helper.Split.{split}
use mathlib.Core.Option

-- PaginationSearch: value ? value : undefined
unfoldable pub pagination_search : Option String → Option String
pagination_search value = truthy value

-- PaginationAvailableSearch takes no notice of the value.
unfoldable pub pagination_available_search : List String → Option String → List String
pagination_available_search available_search value = available_search

-- PaginationAvailableSort: an empty array is truthy.
unfoldable pub pagination_available_sort : List String → Option (List String) → List String
pagination_available_sort available_sort none = available_sort
pagination_available_sort available_sort (some value) = value

-- PaginationFilterBoolean: each part that is not 'true' counts as false.
unfoldable pub pagination_filter_boolean : List Bool → Option String → List Bool
unfolding split
pagination_filter_boolean default_value value = elim (truthy value) [
  | none ↦ default_value
  | some s ↦ map (λ t. t == "true") (split b',' s)
]

-- PaginationFilterEnum: a part that is no key of the enum becomes `undefined`, which is none.
unfoldable pub pagination_filter_enum :
    {T : Type 0} → List T → (String → Option T) → Option String → List (Option T)
unfolding split
pagination_filter_enum default_value default_enum value = elim (truthy value) [
  | none ↦ map some default_value
  | some s ↦ map default_enum (split b',' s)
]

-- PaginationFilterString with `lowercase`
unfoldable pub pagination_filter_string : (String → String) → Option String → Option (List String)
unfolding split
pagination_filter_string to_lower_case value =
    Option.map (λ s. map to_lower_case (split b',' s)) (truthy value)

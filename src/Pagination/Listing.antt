-- ===== src/Pagination/Listing.antt =====
-- What the list requests share: the query as its DTO leaves it, and IResponsePaging. The search pattern
-- is taken to be a regular expression that RegExp accepts.
use openapi_nestjs_auth_mong.Prelude.{truthy, ℤ, ℕ, String, Bool, Option, none, some, List, [], ◌∷◌}
use openapi_nestjs_auth_mong.Database.{Condition, like, Filter, FindAllOptions}
use openapi_nestjs_auth_mong.Pagination as Paging

-- PaginationListAbstract
pub record ListQuery : Type 0 where
  pub search : Option String
  pub page : ℤ
  pub per_page : ℤ
  pub sort : String × Bool

pub record Page (A : Type 0) : Type 0 where
  pub total_data : ℕ
  pub total_page : Option ℤ
  pub current_page : ℤ
  pub per_page : ℤ
  pub items : List A

-- `limit`, `skip` and `sort` of a query
abbrev pub page_options : ListQuery → FindAllOptions
page_options q = record {
  limit = some q.per_page;
  skip = some (Paging.skip q.page q.per_page);
  sort = some q.sort;
}

-- `if (search) { find['$or'] = [...] }`
abbrev pub search_for :
    List (String × Condition) → (String → List (List (String × Condition))) → Option String → Filter
search_for fields alternatives search = elim (truthy search) [
  | none ↦ record { fields = fields; alternatives = none }
  | some s ↦ record { fields = fields; alternatives = some (alternatives s) }
]

-- `{ name: { $regex, $options } }`
abbrev pub by_name : String → List (List (String × Condition))
by_name search = (("name", like search) ∷ []) ∷ []

abbrev pub page_of : {A : Type 0} → ListQuery → ℕ → List A → Page A
page_of q total items = record {
  total_data = total;
  total_page = Paging.total_page total q.per_page;
  current_page = q.page;
  per_page = q.per_page;
  items = items;
}

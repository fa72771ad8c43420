-- ===== src/Role/Admin/Listing.antt =====
-- What the list of the roles answers.
use openapi_nestjs_auth_mong.Prelude.{String, ◌≡◌, [], arith}
use openapi_nestjs_auth_mong.Documents.{Role}
use openapi_nestjs_auth_mong.Database.{where_all}
use openapi_nestjs_auth_mong.Platform.{Platform}
use openapi_nestjs_auth_mong.Handler.{World, returns}
use openapi_nestjs_auth_mong.Pagination.Listing.{ListQuery, Page}
use openapi_nestjs_auth_mong.Role.Admin.{list}

-- The total that a list of the roles reports is the number of all roles, whatever the search was.
pub list_total :
    (p : Platform) (token : String) (q : ListQuery) (w : World) (page : Page Role)
    → (list p token q w).0 ≡ returns page
    → page.total_data ≡ p.roles.count_documents (where_all []) w.roles
unfolding list
list_total p token q w page h = ground arith

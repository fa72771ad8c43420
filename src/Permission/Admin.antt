-- ===== src/Permission/Admin.antt =====
-- permission/controller/permission.admin.controller.ts
use openapi_nestjs_auth_mong.Prelude.{String, Bool, Option, List, [], ◌∷◌}
use openapi_nestjs_auth_mong.Documents.{Permission}
use openapi_nestjs_auth_mong.Database.{within}
use openapi_nestjs_auth_mong.Platform.{Platform}
use openapi_nestjs_auth_mong.Handler.{Handler, ◌>>=◌, ◌>>◌, pure, or_throw, unknown}
use openapi_nestjs_auth_mong.Auth.Guards.{auth_admin_jwt_guard}
use openapi_nestjs_auth_mong.Request.Param.{param_guard}
use openapi_nestjs_auth_mong.Pagination.Listing.{
  ListQuery, Page, page_options, search_for, by_name, page_of,
}
use openapi_nestjs_auth_mong.Permission.Guards.{
  permission_get_guard, permission_update_guard, permission_update_active_guard,
}
use openapi_nestjs_auth_mong.Permission.Service

module _ (p : Platform) where
  -- the query has a list of flags beside the search
  unfoldable pub list : String → List Bool → ListQuery → Handler (Page Permission)
  unfolding auth_admin_jwt_guard Service.find_all Service.get_total
  list token is_active q = do
    auth_admin_jwt_guard p ("PERMISSION_READ" ∷ []) token
    let filter = search_for (("isActive", within is_active) ∷ []) by_name q.search
    permissions ← Service.find_all p filter (page_options q)
    total_data ← Service.get_total p filter
    pure (page_of q total_data permissions)

  unfoldable pub get : String → String → Handler Permission
  unfolding auth_admin_jwt_guard param_guard permission_get_guard
  get token i = do
    auth_admin_jwt_guard p ("PERMISSION_READ" ∷ []) token
    param_guard p i
    permission_get_guard p i

  unfoldable pub update : String → String → String → Option String → Handler String
  unfolding auth_admin_jwt_guard param_guard permission_update_guard Service.update
  update token i name description = do
    auth_admin_jwt_guard p ("PERMISSION_READ" ∷ "PERMISSION_UPDATE" ∷ []) token
    param_guard p i
    permission ← permission_update_guard p i
    or_throw (Service.update p permission.id name description) unknown
    pure permission.id

  unfoldable pub inactive : String → String → Handler (Unit {0})
  unfolding auth_admin_jwt_guard param_guard permission_update_guard Service.inactive
  inactive token i = do
    auth_admin_jwt_guard p ("PERMISSION_READ" ∷ "PERMISSION_UPDATE" ∷ []) token
    param_guard p i
    permission ← permission_update_guard p i
    or_throw (Service.inactive p permission.id) unknown

  unfoldable pub active : String → String → Handler (Unit {0})
  unfolding auth_admin_jwt_guard param_guard permission_update_active_guard Service.active
  active token i = do
    auth_admin_jwt_guard p ("PERMISSION_READ" ∷ "PERMISSION_UPDATE" ∷ []) token
    param_guard p i
    permission ← permission_update_active_guard p i
    or_throw (Service.active p permission.id) unknown

-- ===== src/Role/Admin.antt =====
-- role/controller/role.admin.controller.ts: each request runs the guards of its decorators, from
-- the method upwards, and then the method.
pub mod Listing
use openapi_nestjs_auth_mong.Prelude.{String, none, some, List, [], ◌∷◌}
use openapi_nestjs_auth_mong.Http.{
  bad_request, not_found, http, permission_not_found_error, role_exist_error,
}
use openapi_nestjs_auth_mong.Documents.{Role, FullRole}
use openapi_nestjs_auth_mong.Database.{where_all}
use openapi_nestjs_auth_mong.Platform.{Platform}
use openapi_nestjs_auth_mong.Handler.{
  Handler, ◌>>=◌, ◌>>◌, pure, or_fail, or_throw, throw_if, unknown,
}
use openapi_nestjs_auth_mong.Pagination.Listing.{
  ListQuery, Page, page_options, search_for, by_name, page_of,
}
use openapi_nestjs_auth_mong.Role.Guards.{
  role_get_guard, role_update_guard, role_update_active_guard, role_delete_guard,
}
use openapi_nestjs_auth_mong.Request.Param.{param_guard}
use openapi_nestjs_auth_mong.Auth.Guards.{auth_admin_jwt_guard}
use openapi_nestjs_auth_mong.Permission.Service.{find_one_by_id as permission_find_one_by_id}
use openapi_nestjs_auth_mong.Role.Service
use openapi_nestjs_auth_mong.Role.Service.{RoleBody}

module _ (p : Platform) where
  -- the loop over the permissions of the body
  unfoldable pub check_permissions : List String → Handler (Unit {0})
  unfolding permission_find_one_by_id
  check_permissions [] = pure tt
  check_permissions (i ∷ is) = do
    found ← permission_find_one_by_id p i
    permission ←
        or_fail (http not_found permission_not_found_error "permission.error.notFound") found
    check_permissions is

  abbrev pub insert : RoleBody → Handler String
  insert body = do created ← Service.create p body; pure created.id

  unfoldable pub create : String → RoleBody → Handler String
  unfolding auth_admin_jwt_guard Service.exists Service.create
  create token body = do
    auth_admin_jwt_guard p ("ROLE_READ" ∷ "ROLE_CREATE" ∷ []) token
    exist ← Service.exists p body.name none
    throw_if exist (http bad_request role_exist_error "role.error.exist")
    check_permissions body.permissions
    or_throw (insert body) unknown

  unfoldable pub get : String → String → Handler FullRole
  unfolding auth_admin_jwt_guard param_guard role_get_guard
  get token i = do
    auth_admin_jwt_guard p ("ROLE_READ" ∷ []) token
    param_guard p i
    role_get_guard p i

  unfoldable pub update : String → String → RoleBody → Handler String
  unfolding auth_admin_jwt_guard param_guard role_update_guard Service.exists Service.update
  update token i body = do
    auth_admin_jwt_guard p ("ROLE_READ" ∷ "ROLE_UPDATE" ∷ []) token
    param_guard p i
    full ← role_update_guard p i
    check ← Service.exists p body.name (some full.role.id)
    throw_if check (http bad_request role_exist_error "role.error.exist")
    check_permissions body.permissions
    or_throw (Service.update p full.role.id body) unknown
    pure full.role.id

  unfoldable pub delete : String → String → Handler (Unit {0})
  unfolding auth_admin_jwt_guard param_guard role_delete_guard Service.delete_one_by_id
  delete token i = do
    auth_admin_jwt_guard p ("ROLE_READ" ∷ "ROLE_DELETE" ∷ []) token
    param_guard p i
    full ← role_delete_guard p i
    or_throw (Service.delete_one_by_id p full.role.id) unknown

  unfoldable pub inactive : String → String → Handler (Unit {0})
  unfolding auth_admin_jwt_guard param_guard role_update_guard Service.inactive
  inactive token i = do
    auth_admin_jwt_guard p ("ROLE_READ" ∷ "ROLE_UPDATE" ∷ []) token
    param_guard p i
    full ← role_update_guard p i
    or_throw (Service.inactive p full.role.id) unknown

  unfoldable pub active : String → String → Handler (Unit {0})
  unfolding auth_admin_jwt_guard param_guard role_update_active_guard Service.active
  active token i = do
    auth_admin_jwt_guard p ("ROLE_READ" ∷ "ROLE_UPDATE" ∷ []) token
    param_guard p i
    full ← role_update_active_guard p i
    or_throw (Service.active p full.role.id) unknown

  -- the total is that of every role, whatever the search
  unfoldable pub list : String → ListQuery → Handler (Page Role)
  unfolding auth_admin_jwt_guard Service.find_all Service.get_total
  list token q = do
    auth_admin_jwt_guard p ("ROLE_READ" ∷ []) token
    let filter = search_for [] by_name q.search
    roles ← Service.find_all p filter (page_options q)
    total_data ← Service.get_total p (where_all [])
    pure (page_of q total_data roles)

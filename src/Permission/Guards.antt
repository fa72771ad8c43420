-- ===== src/Permission/Guards.antt =====
-- permission/guard and permission/permission.decorator.ts
use openapi_nestjs_auth_mong.Prelude.{
  String, Bool, true, false, not, Option, none, some, List, [], ◌∷◌,
}
use openapi_nestjs_auth_mong.Http.{
  bad_request, not_found, http, permission_not_found_error, permission_active_error,
}
use openapi_nestjs_auth_mong.Documents.{Permission}
use openapi_nestjs_auth_mong.Platform.{Platform}
use openapi_nestjs_auth_mong.Handler.{Handler, ◌>>=◌, ◌>>◌, pure, or_fail, throw_if}
use openapi_nestjs_auth_mong.Permission.Service.{find_one_by_id}
use openapi_nestjs_auth_mong.Auth.Guards.{includes_flag}

module _ (p : Platform) where
  -- PermissionPutToRequestGuard
  unfoldable pub permission_put_to_request_guard : String → Handler (Option Permission)
  unfolding find_one_by_id
  permission_put_to_request_guard i = find_one_by_id p i

  -- PermissionNotFoundGuard
  unfoldable pub permission_not_found_guard : Option Permission → Handler Permission
  permission_not_found_guard =
      or_fail (http not_found permission_not_found_error "permission.error.notFound")

  -- PermissionActiveGuard
  unfoldable pub permission_active_guard : Option (List Bool) → Permission → Handler (Unit {0})
  permission_active_guard none permission = pure tt
  permission_active_guard (some required) permission =
      throw_if (not (includes_flag required permission.is_active))
        (http bad_request permission_active_error "permission.error.active")

  -- PermissionGetGuard
  unfoldable pub permission_get_guard : String → Handler Permission
  unfolding permission_put_to_request_guard permission_not_found_guard
  permission_get_guard i = do
    found ← permission_put_to_request_guard i
    permission_not_found_guard found

  -- PermissionUpdateGuard and PermissionUpdateInactiveGuard
  unfoldable pub permission_update_guard : String → Handler Permission
  unfolding permission_get_guard permission_active_guard
  permission_update_guard i = do
    permission ← permission_get_guard i
    permission_active_guard (some (true ∷ [])) permission
    pure permission

  -- PermissionUpdateActiveGuard
  unfoldable pub permission_update_active_guard : String → Handler Permission
  unfolding permission_get_guard permission_active_guard
  permission_update_active_guard i = do
    permission ← permission_get_guard i
    permission_active_guard (some (false ∷ [])) permission
    pure permission

-- ===== src/Role/Guards.antt =====
-- role/guard and role/role.decorator.ts
use openapi_nestjs_auth_mong.Prelude.{
  String, Bool, true, false, not, Option, none, some, List, [], ◌∷◌,
}
use openapi_nestjs_auth_mong.Http.{
  bad_request, not_found, http, role_not_found_error, role_active_error, role_used_error,
}
use openapi_nestjs_auth_mong.Documents.{text, FullRole}
use openapi_nestjs_auth_mong.Database.{text, equals, Filter, where_all}
use openapi_nestjs_auth_mong.Platform.{text, Platform}
use openapi_nestjs_auth_mong.Handler.{Handler, ◌>>=◌, ◌>>◌, pure, or_fail, throw_if}
use openapi_nestjs_auth_mong.Auth.Guards.{includes_flag}
use openapi_nestjs_auth_mong.Role.Service.{find_one_by_id_populated}
use openapi_nestjs_auth_mong.User.Service.{find_one}

-- `if (check)`, for a document or null
abbrev pub is_found : {A : Type 0} → Option A → Bool
is_found none = false
is_found (some a) = true

module _ (p : Platform) where
  -- RolePutToRequestGuard and RoleNotFoundGuard: RoleGetGuard
  unfoldable pub role_put_to_request_guard : String → Handler (Option FullRole)
  unfolding find_one_by_id_populated
  role_put_to_request_guard i = find_one_by_id_populated p i

  unfoldable pub role_not_found_guard : Option FullRole → Handler FullRole
  role_not_found_guard = or_fail (http not_found role_not_found_error "role.error.notFound")

  unfoldable pub role_get_guard : String → Handler FullRole
  unfolding role_put_to_request_guard role_not_found_guard
  role_get_guard i = do found ← role_put_to_request_guard i; role_not_found_guard found

  -- RoleActiveGuard
  unfoldable pub role_active_guard : Option (List Bool) → FullRole → Handler (Unit {0})
  role_active_guard none full = pure tt
  role_active_guard (some required) full =
      throw_if (not (includes_flag required full.role.is_active))
        (http bad_request role_active_error "role.error.active")

  abbrev pub with_role : String → Filter
  with_role i = where_all (("role", equals (text i)) ∷ [])

  -- RoleUsedGuard
  unfoldable pub role_used_guard : FullRole → Handler (Unit {0})
  unfolding find_one
  role_used_guard full = do
    check ← find_one p (with_role full.role.id)
    throw_if (is_found check) (http bad_request role_used_error "role.error.used")

  -- RoleUpdateGuard and RoleUpdateInactiveGuard
  unfoldable pub role_update_guard : String → Handler FullRole
  unfolding role_get_guard role_active_guard
  role_update_guard i = do
    full ← role_get_guard i
    role_active_guard (some (true ∷ [])) full
    pure full

  -- RoleUpdateActiveGuard
  unfoldable pub role_update_active_guard : String → Handler FullRole
  unfolding role_get_guard role_active_guard
  role_update_active_guard i = do
    full ← role_get_guard i
    role_active_guard (some (false ∷ [])) full
    pure full

  -- RoleDeleteGuard
  unfoldable pub role_delete_guard : String → Handler FullRole
  unfolding role_update_guard role_used_guard
  role_delete_guard i = do full ← role_update_guard i; role_used_guard full; pure full

-- ===== src/User/Guards.antt =====
-- user/guard and user/user.decorator.ts
use openapi_nestjs_auth_mong.Prelude.{
  String, Bool, true, false, not, Option, none, some, List, [], ◌∷◌,
}
use openapi_nestjs_auth_mong.Http.{
  bad_request, not_found, http, user_not_found_error, user_active_error,
}
use openapi_nestjs_auth_mong.Documents.{FullUser}
use openapi_nestjs_auth_mong.Platform.{Platform}
use openapi_nestjs_auth_mong.Handler.{Handler, ◌>>=◌, ◌>>◌, pure, or_fail, throw_if}
use openapi_nestjs_auth_mong.Auth.Guards.{includes_flag}
use openapi_nestjs_auth_mong.User.Service.{find_one_by_id_populated}

module _ (p : Platform) where
  -- UserPutToRequestGuard: what it finds becomes `request.__user`.
  unfoldable pub user_put_to_request_guard : String → Handler (Option FullUser)
  unfolding find_one_by_id_populated
  user_put_to_request_guard i = find_one_by_id_populated p i

  -- UserNotFoundGuard
  unfoldable pub user_not_found_guard : Option FullUser → Handler FullUser
  user_not_found_guard = or_fail (http not_found user_not_found_error "user.error.notFound")

  -- UserActiveGuard
  unfoldable pub user_active_guard : Option (List Bool) → FullUser → Handler (Unit {0})
  user_active_guard none full = pure tt
  user_active_guard (some required) full =
      throw_if (not (includes_flag required full.user.is_active))
        (http bad_request user_active_error "user.error.active")

  -- UserGetGuard, UserDeleteGuard and UserUpdateGuard; UserProfileGuard with the id of the payload
  unfoldable pub user_get_guard : String → Handler FullUser
  unfolding user_put_to_request_guard user_not_found_guard
  user_get_guard i = do found ← user_put_to_request_guard i; user_not_found_guard found

  -- UserUpdateInactiveGuard
  unfoldable pub user_update_inactive_guard : String → Handler FullUser
  unfolding user_get_guard user_active_guard
  user_update_inactive_guard i = do
    full ← user_get_guard i
    user_active_guard (some (true ∷ [])) full
    pure full

  -- UserUpdateActiveGuard
  unfoldable pub user_update_active_guard : String → Handler FullUser
  unfolding user_get_guard user_active_guard
  user_update_active_guard i = do
    full ← user_get_guard i
    user_active_guard (some (false ∷ [])) full
    pure full

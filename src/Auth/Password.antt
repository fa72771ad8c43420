-- ===== src/Auth/Password.antt =====
-- auth/controller/auth.common.controller.ts: changePassword.
pub mod Laws
pub mod Renewed
use openapi_nestjs_auth_mong.Prelude.{String, not}
use openapi_nestjs_auth_mong.Http.{
  bad_request, not_found, http, auth_password_not_match_error,
  auth_password_new_must_difference_error, user_not_found_error,
}
use openapi_nestjs_auth_mong.Documents.{User}
use openapi_nestjs_auth_mong.Platform.{Platform}
use openapi_nestjs_auth_mong.Handler.{Handler, ◌>>=◌, ◌>>◌, or_fail, or_throw, throw_if, unknown}
use openapi_nestjs_auth_mong.User.Service.{find_one_by_id, update_password}
use openapi_nestjs_auth_mong.Auth.Service.{validate_user, create_password}
use openapi_nestjs_auth_mong.User.Service.{find_one_by_id, update_password}

module _ (p : Platform) where
  -- the `try` block
  abbrev pub renew : String → User → Handler (Unit {0})
  renew new_password user = do
    password ← create_password p new_password
    update_password p user.id password

  -- `body.oldPassword`, `body.newPassword` and the `_id` of the payload
  unfoldable pub change_password : String → String → String → Handler (Unit {0})
  unfolding find_one_by_id validate_user create_password update_password
  change_password old_password new_password i = do
    found ← find_one_by_id p i
    user ← or_fail (http not_found user_not_found_error "user.error.notFound") found
    throw_if (not (validate_user p old_password user.password))
        (http bad_request auth_password_not_match_error "auth.error.passwordNotMatch")
    throw_if (validate_user p new_password user.password) (
        http bad_request auth_password_new_must_difference_error "auth.error.newPasswordMustDiffer")
    or_throw (renew new_password user) unknown

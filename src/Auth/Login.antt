-- ===== src/Auth/Login.antt =====
-- auth/controller/auth.common.controller.ts: login and refresh.
pub mod Laws
pub mod Refresh
pub mod Granted
pub mod Admitted
use openapi_nestjs_auth_mong.Prelude.{ℕ, String, Bool, false, not, Option, none, some, [], ◌∷◌}
use openapi_nestjs_auth_mong.Http.{
  bad_request, forbidden, not_found, Tokens, http, success, auth_password_not_match_error,
  auth_password_expired_error, user_not_found_error, user_is_inactive_error, role_is_inactive_error,
}
use openapi_nestjs_auth_mong.Documents.{text}
use openapi_nestjs_auth_mong.Database.{text, equals, Filter, where_all}
use openapi_nestjs_auth_mong.Payload.{Payload, access, refresh}
use openapi_nestjs_auth_mong.Platform.{text, Platform}
use openapi_nestjs_auth_mong.Handler.{◌>>=◌, ◌>>◌, Handler, pure, not_null, or_fail, throw_if}
use openapi_nestjs_auth_mong.User.Service.{find_one_by_id_populated, find_one_populated}
use openapi_nestjs_auth_mong.Auth.Service.{
  AuthLogin, serialization_login, create_access_token, create_refresh_token, validate_user,
  create_payload_access_token, create_payload_refresh_token, check_password_expired,
}

module _ (p : Platform) where
  abbrev pub by_email : String → Filter
  by_email email = where_all (("email", equals (text email)) ∷ [])

  unfoldable pub login : AuthLogin → Handler Tokens
  unfolding find_one_populated validate_user serialization_login create_payload_access_token
      create_payload_refresh_token create_access_token create_refresh_token check_password_expired
  login body = do
    found ← find_one_populated p (by_email body.email)
    full ← or_fail (http not_found user_not_found_error "user.error.notFound") found
    throw_if (not (validate_user p body.password full.user.password))
        (http bad_request auth_password_not_match_error "auth.error.passwordNotMatch")
    throw_if (not full.user.is_active) (http forbidden user_is_inactive_error "user.error.inactive")
    role ← not_null full.role
    throw_if (not role.role.is_active) (http forbidden role_is_inactive_error "role.error.inactive")
    safe ← not_null (serialization_login full)
    payload ← create_payload_access_token p safe body.remember_me none
    let refresh_payload =
        create_payload_refresh_token p safe body.remember_me (some payload.login_date)
    access_token ← create_access_token p (access payload)
    refresh_token ← create_refresh_token p (refresh refresh_payload) body.remember_me false
    let tokens : Tokens = record { access_token = access_token; refresh_token = refresh_token }
    expired ← check_password_expired p full.user.password_expiration
    throw_if expired (success auth_password_expired_error "auth.error.passwordExpiration" tokens)
    pure tokens

  -- The `_id`, the `rememberMe` and the `loginDate` of the payload that JwtRefreshGuard accepted. An
  -- access payload spreads the login data, so it has them too.
  abbrev payload_id : Payload → String
  payload_id (access a) = a.login.id
  payload_id (refresh r) = r.id

  abbrev payload_remember_me : Payload → Bool
  payload_remember_me (access a) = a.remember_me
  payload_remember_me (refresh r) = r.remember_me

  abbrev payload_login_date : Payload → Option ℕ
  payload_login_date (access a) = some a.login_date
  payload_login_date (refresh r) = r.login_date

  unfoldable pub refresh_tokens : Payload → String → Handler Tokens
  unfolding find_one_by_id_populated serialization_login create_payload_access_token
      create_access_token check_password_expired
  refresh_tokens payload refresh_token = do
    found ← find_one_by_id_populated p (payload_id payload)
    full ← or_fail (http not_found user_not_found_error "user.error.notFound") found
    throw_if (not full.user.is_active) (http forbidden user_is_inactive_error "user.error.inactive")
    role ← not_null full.role
    throw_if (not role.role.is_active) (http forbidden role_is_inactive_error "role.error.inactive")
    expired ← check_password_expired p full.user.password_expiration
    throw_if expired (http forbidden auth_password_expired_error "auth.error.passwordExpiration")
    safe ← not_null (serialization_login full)
    access_payload ←
        create_payload_access_token p safe (payload_remember_me payload)
          (payload_login_date payload)
    access_token ← create_access_token p (access access_payload)
    pure (record { access_token = access_token; refresh_token = refresh_token })

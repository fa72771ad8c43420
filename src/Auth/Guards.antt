-- ===== src/Auth/Guards.antt =====
-- The guards that read the payload of the access token, which JwtGuard puts in `request.user`:
-- auth/guard/jwt, auth/guard/payload and permission/guard/payload, and the decorators of
-- auth/auth.decorator.ts that list them. NestJS runs the guards of a list in order until one throws.
pub mod Laws
use openapi_nestjs_auth_mong.Prelude.{
  ltb, every, keep, includes, String, Bool, true, false, not, ◌||◌, Option, none, some, List, [],
  ◌∷◌, map,
}
use openapi_nestjs_auth_mong.Http.{
  unauthorized, forbidden, http, auth_guard_jwt_access_token_error,
  auth_guard_jwt_refresh_token_error, auth_guard_inactive_error, auth_guard_role_inactive_error,
  auth_guard_admin_error, auth_guard_password_expired_error, permission_guard_invalid_error,
}
use openapi_nestjs_auth_mong.Payload.{LoginPermission, LoginData, Payload, access, refresh}
use openapi_nestjs_auth_mong.Platform.{Platform}
use openapi_nestjs_auth_mong.Handler.{Handler, ◌>>=◌, ◌>>◌, pure, or_fail, throw_if, now}

-- `required.includes(flag)`
abbrev pub includes_flag : List Bool → Bool → Bool
includes_flag [] b = false
includes_flag (true ∷ bs) b = b || includes_flag bs b
includes_flag (false ∷ bs) b = not b || includes_flag bs b

-- A property of the payload; a refresh payload has neither `isActive` nor `role`.
abbrev login_of : Payload → Option LoginData
login_of (access a) = some a.login
login_of (refresh r) = none

-- the codes of the active permissions
abbrev pub active_codes : List LoginPermission → List String
active_codes ps = map (λ q. q.code) (keep (λ q. q.is_active) ps)

module _ (p : Platform) where
  -- JwtGuard: the token is checked by passport-jwt, and the strategy's `validate` hands its payload on.
  unfoldable pub jwt_guard : String → Handler Payload
  jwt_guard token = do
    today ← now p
    or_fail (http unauthorized auth_guard_jwt_access_token_error "http.clientError.unauthorized")
        (p.verify p.config.access_secret_key token today)

  -- JwtRefreshGuard
  unfoldable pub jwt_refresh_guard : String → Handler Payload
  jwt_refresh_guard token = do
    today ← now p
    or_fail (http unauthorized auth_guard_jwt_refresh_token_error "http.clientError.unauthorized")
        (p.verify p.config.refresh_secret_key token today)

  -- AuthPayloadDefaultGuard: an `isActive` that is missing is falsy.
  unfoldable pub auth_payload_default_guard : Payload → Handler LoginData
  auth_payload_default_guard user = do
    login ← or_fail (http forbidden auth_guard_inactive_error "auth.error.blocked") (login_of user)
    throw_if (not login.is_active) (http forbidden auth_guard_inactive_error "auth.error.blocked")
    throw_if (not login.role.is_active)
        (http forbidden auth_guard_role_inactive_error "auth.error.roleBlocked")
    pure login

  -- AuthPayloadPasswordExpiredGuard
  unfoldable pub auth_payload_password_expired_guard : LoginData → Handler (Unit {0})
  auth_payload_password_expired_guard user = do
    today ← now p
    throw_if (ltb user.password_expiration today)
        (http forbidden auth_guard_password_expired_error "auth.error.passwordExpiration")

  -- AuthPayloadAdminGuard, with the metadata that the decorator sets
  unfoldable pub auth_payload_admin_guard : Option (List Bool) → LoginData → Handler (Unit {0})
  auth_payload_admin_guard none user = pure tt
  auth_payload_admin_guard (some required) user =
      throw_if (not (includes_flag required user.role.is_admin))
        (http forbidden auth_guard_admin_error "auth.error.admin")

  -- PermissionPayloadDefaultGuard
  unfoldable pub permission_payload_default_guard :
      Option (List String) → LoginData → Handler (Unit {0})
  permission_payload_default_guard none user = pure tt
  permission_payload_default_guard (some required) user =
      throw_if (not (every (includes (active_codes user.role.permissions)) required))
        (http forbidden permission_guard_invalid_error "permission.error.forbidden")

  -- AuthJwtGuard(...permissions)
  unfoldable pub auth_jwt_guard : List String → String → Handler LoginData
  unfolding jwt_guard auth_payload_default_guard permission_payload_default_guard
  auth_jwt_guard permissions token = do
    payload ← jwt_guard token
    user ← auth_payload_default_guard payload
    permission_payload_default_guard (some permissions) user
    pure user

  abbrev pub guarded : List Bool → List String → String → Handler LoginData
  guarded admin permissions token = do
    payload ← jwt_guard token
    user ← auth_payload_default_guard payload
    auth_payload_password_expired_guard user
    auth_payload_admin_guard (some admin) user
    permission_payload_default_guard (some permissions) user
    pure user

  -- AuthPublicJwtGuard(...permissions)
  unfoldable pub auth_public_jwt_guard : List String → String → Handler LoginData
  unfolding jwt_guard auth_payload_default_guard auth_payload_password_expired_guard
      auth_payload_admin_guard permission_payload_default_guard
  auth_public_jwt_guard permissions token = guarded (false ∷ []) permissions token

  -- AuthAdminJwtGuard(...permissions)
  unfoldable pub auth_admin_jwt_guard : List String → String → Handler LoginData
  unfolding jwt_guard auth_payload_default_guard auth_payload_password_expired_guard
      auth_payload_admin_guard permission_payload_default_guard
  auth_admin_jwt_guard permissions token = guarded (true ∷ []) permissions token

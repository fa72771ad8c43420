-- ===== src/ApiKey/Listing.antt =====
-- apikey/controller/api.key.common.controller.ts: the list of the API keys, with the global guard of
-- auth/auth.module.ts and the global interceptor of utils/request/request.module.ts.
pub mod Laws
use openapi_nestjs_auth_mong.Prelude.{String, List, [], ◌∷◌, Bool, true, false, Option, none, some}
use openapi_nestjs_auth_mong.Documents.{ApiKey}
use openapi_nestjs_auth_mong.Database.{where_all}
use openapi_nestjs_auth_mong.Payload.{LoginData}
use openapi_nestjs_auth_mong.Platform.{Platform}
use openapi_nestjs_auth_mong.Handler.{Handler, ◌>>=◌, ◌>>◌, pure}
use openapi_nestjs_auth_mong.Auth.Guards.{
  jwt_guard, auth_payload_default_guard, auth_payload_password_expired_guard,
  auth_payload_admin_guard, permission_payload_default_guard,
}
use openapi_nestjs_auth_mong.Request.Headers.{Headers, Locale}
use openapi_nestjs_auth_mong.Request.Clock.{ClockConfig, timestamp_interceptor}
use openapi_nestjs_auth_mong.ApiKey.Strategy.{Verified, api_key_guard}
use openapi_nestjs_auth_mong.ApiKey.Service.{ApiKeySelected, find_all}

-- The metadata of a method, under PERMISSION_META_KEY and AUTH_ADMIN_META_KEY. SetMetadata
-- replaces what is there, and the decorators of a method apply from the lowest up.
pub record Metadata : Type 0 where
  pub permissions : Option (List String)
  pub admin : Option (List Bool)

-- the metadata that AuthJwtGuard and AuthAdminJwtGuard set
abbrev pub jwt_metadata : List String → Metadata → Metadata
jwt_metadata permissions m = record m { permissions = some permissions }

abbrev pub admin_jwt_metadata : List String → Metadata → Metadata
admin_jwt_metadata permissions m = record {
  permissions = some permissions;
  admin = some (true ∷ []);
}

-- the metadata of `list`
unfoldable pub list_metadata : Metadata
list_metadata =
    jwt_metadata []
      (admin_jwt_metadata ("APIKEY_READ" ∷ []) (record { permissions = none; admin = none }))

module _ (p : Platform) where
  -- The guards of AuthAdminJwtGuard and of AuthJwtGuard, on the metadata of the method.
  unfoldable pub admin_jwt_guards : Metadata → String → Handler LoginData
  unfolding jwt_guard auth_payload_default_guard auth_payload_password_expired_guard
      auth_payload_admin_guard permission_payload_default_guard
  admin_jwt_guards m token = do
    payload ← jwt_guard p token
    user ← auth_payload_default_guard p payload
    auth_payload_password_expired_guard p user
    auth_payload_admin_guard p m.admin user
    permission_payload_default_guard p m.permissions user
    pure user

  unfoldable pub jwt_guards : Metadata → String → Handler LoginData
  unfolding jwt_guard auth_payload_default_guard permission_payload_default_guard
  jwt_guards m token = do
    payload ← jwt_guard p token
    user ← auth_payload_default_guard p payload
    permission_payload_default_guard p m.permissions user
    pure user

module _ (p : Platform) (settle : List Verified → Verified) (locale : Locale)
    (config : ClockConfig) where
  -- UseGuards adds to the guards that are there, so those of the lower decorator run first.
  -- `findAll()` has no filter. ApiKeyListSerialization hands on what is selected.
  unfoldable pub list : Option String → Headers → String → Handler (List ApiKeySelected)
  unfolding admin_jwt_guards jwt_guards list_metadata find_all
  list x_api_key headers token = do
    api_key_guard p settle false x_api_key headers.x_timestamp
    admin_jwt_guards p list_metadata token
    jwt_guards p list_metadata token
    timestamp_interceptor p locale config false headers
    find_all p (where_all []) (record { limit = none; skip = none; sort = none })

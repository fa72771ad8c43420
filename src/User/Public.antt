-- ===== src/User/Public.antt =====
-- user/controller/user.public.controller.ts: profile.
use openapi_nestjs_auth_mong.Prelude.{String, []}
use openapi_nestjs_auth_mong.Documents.{FullUser}
use openapi_nestjs_auth_mong.Platform.{Platform}
use openapi_nestjs_auth_mong.Handler.{Handler, ◌>>=◌}
use openapi_nestjs_auth_mong.User.Guards.{user_get_guard}
use openapi_nestjs_auth_mong.Auth.Guards.{auth_public_jwt_guard}

module _ (p : Platform) where
  -- UserProfileGuard looks up the `_id` of the payload
  unfoldable pub profile : String → Handler FullUser
  unfolding auth_public_jwt_guard user_get_guard
  profile token = do login ← auth_public_jwt_guard p [] token; user_get_guard p login.id

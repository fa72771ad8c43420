-- ===== src/ApiKey/Basic.antt =====
-- auth/guard/basic/auth.basic.guard.ts
use openapi_nestjs_auth_mong.Prelude.{truthy, String, Bool, true, not, Option}
use openapi_nestjs_auth_mong.Http.{
  unauthorized, http, auth_guard_basic_token_needed_error, auth_guard_basic_token_invalid_error,
}
use openapi_nestjs_auth_mong.Platform.{Platform}
use openapi_nestjs_auth_mong.Handler.{Handler, ◌>>=◌, ◌>>◌, pure, or_fail, throw_if}
use openapi_nestjs_auth_mong.Helper.Text.{without_first}
use openapi_nestjs_auth_mong.ApiKey.Service.{create_basic_token, validate_basic_token}

module _ (p : Platform) where
  -- the Authorization header, which may be missing
  unfoldable pub basic_guard : Option String → Handler Bool
  unfolding create_basic_token validate_basic_token
  basic_guard header = do
    authorization ←
        or_fail
          (http unauthorized auth_guard_basic_token_needed_error "http.clientError.unauthorized")
          (truthy header)
    let client_basic_token = without_first "Basic " authorization
    let our_basic_token = create_basic_token p p.config.client_id p.config.client_secret
    throw_if (not (validate_basic_token p client_basic_token our_basic_token))
        (http unauthorized auth_guard_basic_token_invalid_error "http.clientError.unauthorized")
    pure true

-- ===== src/Request/Param.antt =====
-- utils/request/guard/request.param.guard.ts, for the DTOs whose one property is a Mongo id.
use openapi_nestjs_auth_mong.Prelude.{String, not}
use openapi_nestjs_auth_mong.Http.{bad_request, http, request_validation_error}
use openapi_nestjs_auth_mong.Platform.{Platform}
use openapi_nestjs_auth_mong.Handler.{Handler, throw_if}

module _ (p : Platform) where
  unfoldable pub param_guard : String → Handler (Unit {0})
  param_guard i =
      throw_if (not (p.is_mongo_id i))
        (http bad_request request_validation_error "http.clientError.badRequest")

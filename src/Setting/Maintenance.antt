-- ===== src/Setting/Maintenance.antt =====
-- utils/middleware/maintenance/maintenance.middleware.ts, which runs before every request but
-- those of the routes that Routes lists.
pub mod Laws
pub mod Routes
use openapi_nestjs_auth_mong.Http.{service_unavailable, http, service_unavailable_error}
use openapi_nestjs_auth_mong.Platform.{Platform}
use openapi_nestjs_auth_mong.Handler.{Handler, ◌>>=◌, ◌>>◌, not_null, throw_if}
use openapi_nestjs_auth_mong.Helper.Convert.{is_truthy}
use openapi_nestjs_auth_mong.Setting.Service.{find_one_by_name}

module _ (p : Platform) where
  -- a missing setting is null, a TypeError
  unfoldable pub maintenance : Handler (Unit {0})
  unfolding find_one_by_name
  maintenance = do
    found ← find_one_by_name p "maintenance"
    setting ← not_null found
    throw_if (is_truthy setting.value)
        (http service_unavailable service_unavailable_error "http.serverError.serviceUnavailable")

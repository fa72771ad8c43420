-- ===== src/Setting/Controllers.antt =====
-- setting/guard, setting/setting.decorator.ts, and the requests of
-- setting/controller/setting.admin.controller.ts and setting/controller/setting.common.controller.ts.
use openapi_nestjs_auth_mong.Prelude.{String, Option, [], ◌∷◌}
use openapi_nestjs_auth_mong.Http.{not_found, http, setting_not_found_error}
use openapi_nestjs_auth_mong.Documents.{SettingValue, Setting}
use openapi_nestjs_auth_mong.Platform.{Platform}
use openapi_nestjs_auth_mong.Handler.{Handler, ◌>>=◌, ◌>>◌, pure, or_fail, or_throw, unknown}
use openapi_nestjs_auth_mong.Auth.Guards.{auth_admin_jwt_guard}
use openapi_nestjs_auth_mong.Request.Param.{param_guard}
use openapi_nestjs_auth_mong.Pagination.Listing.{
  ListQuery, Page, page_options, search_for, by_name, page_of,
}
use openapi_nestjs_auth_mong.Setting.Service

module _ (p : Platform) where
  -- SettingNotFoundGuard
  unfoldable pub setting_not_found_guard : Option Setting → Handler Setting
  setting_not_found_guard =
      or_fail (http not_found setting_not_found_error "setting.error.notFound")

  -- SettingPutToRequestGuard and SettingNotFoundGuard: SettingGetGuard and SettingUpdateGuard
  unfoldable pub setting_get_guard : String → Handler Setting
  unfolding Service.find_one_by_id setting_not_found_guard
  setting_get_guard i = do found ← Service.find_one_by_id p i; setting_not_found_guard found

  -- SettingGetByNameGuard
  unfoldable pub setting_get_by_name_guard : String → Handler Setting
  unfolding Service.find_one_by_name setting_not_found_guard
  setting_get_by_name_guard name = do
    found ← Service.find_one_by_name p name
    setting_not_found_guard found

  -- SettingAdminController.update
  unfoldable pub update : String → String → Option String → SettingValue → Handler String
  unfolding auth_admin_jwt_guard param_guard setting_get_guard Service.update_one_by_id
  update token i description value = do
    auth_admin_jwt_guard p ("SETTING_READ" ∷ "SETTING_UPDATE" ∷ []) token
    param_guard p i
    setting ← setting_get_guard i
    or_throw (Service.update_one_by_id p setting.id description value) unknown
    pure setting.id

  -- SettingCommonController.list, get and getByName, which ask for no token
  unfoldable pub list : ListQuery → Handler (Page Setting)
  unfolding Service.find_all Service.get_total
  list q = do
    let filter = search_for [] by_name q.search
    settings ← Service.find_all p filter (page_options q)
    total_data ← Service.get_total p filter
    pure (page_of q total_data settings)

  unfoldable pub get : String → Handler Setting
  unfolding param_guard setting_get_guard
  get i = do param_guard p i; setting_get_guard i

  unfoldable pub get_by_name : String → Handler Setting
  unfolding setting_get_by_name_guard
  get_by_name name = setting_get_by_name_guard name

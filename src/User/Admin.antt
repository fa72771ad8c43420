-- ===== src/User/Admin.antt =====
-- user/controller/user.admin.controller.ts: each request runs the guards of its decorators, from
-- the method upwards, and then the method.
pub mod Laws
pub mod Listing
use openapi_nestjs_auth_mong.Prelude.{String, Option, none, List, [], ◌∷◌}
use openapi_nestjs_auth_mong.Http.{not_found, http, role_not_found_error}
use openapi_nestjs_auth_mong.Documents.{FullUser}
use openapi_nestjs_auth_mong.Database.{text, Condition, equals, like}
use openapi_nestjs_auth_mong.Platform.{Platform}
use openapi_nestjs_auth_mong.Handler.{Handler, ◌>>=◌, ◌>>◌, pure, or_fail, or_throw, unknown}
use openapi_nestjs_auth_mong.User.Guards.{
  user_get_guard, user_update_inactive_guard, user_update_active_guard,
}
use openapi_nestjs_auth_mong.Pagination.Listing.{ListQuery, Page, page_options, search_for, page_of}
use openapi_nestjs_auth_mong.Request.Param.{param_guard}
use openapi_nestjs_auth_mong.Auth.Service.{create_password}
use openapi_nestjs_auth_mong.Auth.SignUp.{reject_existing}
use openapi_nestjs_auth_mong.Auth.Guards.{auth_admin_jwt_guard}
use openapi_nestjs_auth_mong.Role.Service.{find_one_by_id as role_find_one_by_id}
use openapi_nestjs_auth_mong.User.Service

-- UserCreateDto
pub record UserBody : Type 0 where
  pub email : String
  pub first_name : String
  pub last_name : Option String
  pub mobile_number : Option String
  pub role : String
  pub password : String

module _ (p : Platform) where
  abbrev pub insert : UserBody → Handler String
  insert body = do
    password ← create_password p body.password
    created ← Service.create p (record {
      first_name = body.first_name;
      last_name = body.last_name;
      password = password.password_hash;
      password_expiration = password.password_expiration;
      email = body.email;
      mobile_number = body.mobile_number;
      role = body.role;
      salt = password.salt;
    })
    pure created.id

  unfoldable pub create : String → UserBody → Handler String
  unfolding auth_admin_jwt_guard Service.check_exist reject_existing role_find_one_by_id
      create_password Service.create
  create token body = do
    auth_admin_jwt_guard p ("USER_READ" ∷ "USER_CREATE" ∷ []) token
    check ← Service.check_exist p body.email body.mobile_number none
    reject_existing check
    found ← role_find_one_by_id p body.role
    role ← or_fail (http not_found role_not_found_error "role.error.notFound") found
    or_throw (insert body) unknown

  unfoldable pub get : String → String → Handler FullUser
  unfolding auth_admin_jwt_guard param_guard user_get_guard
  get token i = do
    auth_admin_jwt_guard p ("USER_READ" ∷ []) token
    param_guard p i
    user_get_guard p i

  unfoldable pub delete : String → String → Handler (Unit {0})
  unfolding auth_admin_jwt_guard param_guard user_get_guard Service.delete_one_by_id
  delete token i = do
    auth_admin_jwt_guard p ("USER_READ" ∷ "USER_DELETE" ∷ []) token
    param_guard p i
    full ← user_get_guard p i
    or_throw (Service.delete_one_by_id p full.user.id) unknown

  unfoldable pub update : String → String → String → Option String → Handler String
  unfolding auth_admin_jwt_guard param_guard user_get_guard Service.update_one_by_id
  update token i first_name last_name = do
    auth_admin_jwt_guard p ("USER_READ" ∷ "USER_UPDATE" ∷ []) token
    param_guard p i
    full ← user_get_guard p i
    or_throw (Service.update_one_by_id p full.user.id first_name last_name) unknown
    pure full.user.id

  unfoldable pub inactive : String → String → Handler (Unit {0})
  unfolding auth_admin_jwt_guard param_guard user_update_inactive_guard Service.inactive
  inactive token i = do
    auth_admin_jwt_guard p ("USER_READ" ∷ "USER_UPDATE" ∷ []) token
    param_guard p i
    full ← user_update_inactive_guard p i
    or_throw (Service.inactive p full.user.id) unknown

  unfoldable pub active : String → String → Handler (Unit {0})
  unfolding auth_admin_jwt_guard param_guard user_update_active_guard Service.active
  active token i = do
    auth_admin_jwt_guard p ("USER_READ" ∷ "USER_UPDATE" ∷ []) token
    param_guard p i
    full ← user_update_active_guard p i
    or_throw (Service.active p full.user.id) unknown

  -- one object: all of its conditions have to hold at once
  abbrev pub user_search : String → List (List (String × Condition))
  user_search search =
      (("firstName", like search)
        ∷ ("lastName", like search)
        ∷ ("email", like search)
        ∷ ("mobileNumber", equals (text search))
        ∷ [])
      ∷ []

  unfoldable pub list : String → ListQuery → Handler (Page FullUser)
  unfolding auth_admin_jwt_guard Service.find_all Service.get_total
  list token q = do
    auth_admin_jwt_guard p ("USER_READ" ∷ []) token
    let filter = search_for [] user_search q.search
    users ← Service.find_all p filter (page_options q)
    total_data ← Service.get_total p filter
    pure (page_of q total_data users)

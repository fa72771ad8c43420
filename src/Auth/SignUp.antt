-- ===== src/Auth/SignUp.antt =====
-- auth/controller/auth.public.controller.ts: signUp.
pub mod Laws
pub mod Failures
use openapi_nestjs_auth_mong.Prelude.{String, false, ◌&&◌, Option, none, some, [], ◌∷◌}
use openapi_nestjs_auth_mong.Http.{
  bad_request, not_found, Tokens, http, user_exists_error, user_email_exist_error,
  user_mobile_number_exist_error, role_not_found_error,
}
use openapi_nestjs_auth_mong.Documents.{Role, User, text}
use openapi_nestjs_auth_mong.Database.{text, equals, Filter, where_all}
use openapi_nestjs_auth_mong.Payload.{access, refresh}
use openapi_nestjs_auth_mong.Platform.{Platform}
use openapi_nestjs_auth_mong.Handler.{
  Handler, ◌>>=◌, ◌>>◌, pure, not_null, or_fail, or_throw, throw_if, unknown,
}
use openapi_nestjs_auth_mong.User.Service.{UserCreate, AuthPassword, UserCheckExist}
use openapi_nestjs_auth_mong.Auth.Service.{
  serialization_login, create_access_token, create_refresh_token, create_payload_access_token,
  create_payload_refresh_token, create_password,
}
use openapi_nestjs_auth_mong.User.Service
use openapi_nestjs_auth_mong.Role.Service as RoleService

-- AuthSignUpDto
pub record AuthSignUp : Type 0 where
  pub email : String
  pub mobile_number : Option String
  pub first_name : String
  pub last_name : Option String
  pub password : String

-- the three answers to an account that exists
unfoldable pub reject_existing : UserCheckExist → Handler (Unit {0})
reject_existing check = do
  throw_if (check.email && check.mobile_number)
      (http bad_request user_exists_error "user.error.exist")
  throw_if check.email (http bad_request user_email_exist_error "user.error.emailExist")
  throw_if check.mobile_number
      (http bad_request user_mobile_number_exist_error "user.error.mobileNumberExist")

abbrev pub new_account : AuthSignUp → Role → AuthPassword → UserCreate
new_account body role password = record {
  first_name = body.first_name;
  last_name = body.last_name;
  password = password.password_hash;
  password_expiration = password.password_expiration;
  email = body.email;
  mobile_number = body.mobile_number;
  role = role.id;
  salt = password.salt;
}

module _ (p : Platform) where
  abbrev pub user_role : Filter
  user_role = where_all (("name", equals (text "user")) ∷ [])

  -- the tokens of the account that was just created
  unfoldable pub issue : User → Handler Tokens
  unfolding Service.find_one_by_id_populated serialization_login create_payload_access_token
      create_payload_refresh_token create_access_token create_refresh_token
  issue created = do
    found ← Service.find_one_by_id_populated p created.id
    full ← not_null found
    safe ← not_null (serialization_login full)
    payload ← create_payload_access_token p safe false none
    let refresh_payload = create_payload_refresh_token p safe false (some payload.login_date)
    access_token ← create_access_token p (access payload)
    refresh_token ← create_refresh_token p (refresh refresh_payload) false false
    pure (record { access_token = access_token; refresh_token = refresh_token })

  unfoldable pub register : AuthSignUp → Role → Handler Tokens
  unfolding create_password Service.create issue
  register body role = do
    password ← create_password p body.password
    created ← Service.create p (new_account body role password)
    issue created

  unfoldable pub sign_up : AuthSignUp → Handler Tokens
  unfolding RoleService.find_one Service.check_exist reject_existing register
  sign_up body = do
    found ← RoleService.find_one p user_role
    role ← or_fail (http not_found role_not_found_error "role.error.notFound") found
    check ← Service.check_exist p body.email body.mobile_number none
    reject_existing check
    or_throw (register body role) unknown

-- ===== src/Integrity/Quiet.antt =====
-- The guards and the checks that write no document.
use openapi_nestjs_auth_mong.Prelude.{
  String, Bool, true, false, Option, none, some, List, [], ◌∷◌, arith,
}
use openapi_nestjs_auth_mong.Http.{Exception}
use openapi_nestjs_auth_mong.Documents.{User}
use openapi_nestjs_auth_mong.Platform.{Platform}
use openapi_nestjs_auth_mong.Handler.{not_null, or_fail, throw_if, tick}
use openapi_nestjs_auth_mong.Handler.Rules.{IsQuiet}
use openapi_nestjs_auth_mong.Auth.Guards.{auth_admin_jwt_guard}
use openapi_nestjs_auth_mong.Auth.Service.{create_password}
use openapi_nestjs_auth_mong.Auth.SignUp.{reject_existing, issue}
use openapi_nestjs_auth_mong.Request.Param.{param_guard}
use openapi_nestjs_auth_mong.User.Service.{UserCheckExist, check_exist, find_one_by_id}
use openapi_nestjs_auth_mong.User.Guards.{
  user_get_guard, user_update_inactive_guard, user_update_active_guard,
}
use openapi_nestjs_auth_mong.Role.Service.{exists, role_by_id}
use openapi_nestjs_auth_mong.Role.Guards.{role_update_guard, role_update_active_guard}
use openapi_nestjs_auth_mong.Role.Admin.{check_permissions}

module _ (p : Platform) where
  pub admin-IsQuiet :
      (codes : List String) (token : String) → IsQuiet (auth_admin_jwt_guard p codes token)
  unfolding auth_admin_jwt_guard
  admin-IsQuiet codes token = record { quiet = λ w. ground arith }

  pub param-IsQuiet : (i : String) → IsQuiet (param_guard p i)
  unfolding param_guard
  param-IsQuiet i = record { quiet = λ w. ground arith }

  pub user_get-IsQuiet : (i : String) → IsQuiet (user_get_guard p i)
  unfolding user_get_guard
  user_get-IsQuiet i = record { quiet = λ w. ground arith }

  pub user_inactive-IsQuiet : (i : String) → IsQuiet (user_update_inactive_guard p i)
  unfolding user_update_inactive_guard
  user_inactive-IsQuiet i = record { quiet = λ w. ground arith }

  pub user_active-IsQuiet : (i : String) → IsQuiet (user_update_active_guard p i)
  unfolding user_update_active_guard
  user_active-IsQuiet i = record { quiet = λ w. ground arith }

  pub role_update-IsQuiet : (i : String) → IsQuiet (role_update_guard p i)
  unfolding role_update_guard
  role_update-IsQuiet i = record { quiet = λ w. ground arith }

  pub role_active-IsQuiet : (i : String) → IsQuiet (role_update_active_guard p i)
  unfolding role_update_active_guard
  role_active-IsQuiet i = record { quiet = λ w. ground arith }

  pub check_exist-IsQuiet :
      (email : String) (mobile_number i : Option String)
      → IsQuiet (check_exist p email mobile_number i)
  unfolding check_exist
  check_exist-IsQuiet email mobile_number none = record { quiet = λ w. ground arith }
  check_exist-IsQuiet email mobile_number (some i) = record { quiet = λ w. ground arith }

  pub create_password-IsQuiet : (password : String) → IsQuiet (create_password p password)
  unfolding create_password
  create_password-IsQuiet password = record { quiet = λ w. ground arith }

  pub role_exists-IsQuiet : (name : String) (i : Option String) → IsQuiet (exists p name i)
  unfolding exists
  role_exists-IsQuiet name none = record { quiet = λ w. ground arith }
  role_exists-IsQuiet name (some i) = record { quiet = λ w. ground arith }

  pub check_permissions-IsQuiet : (is : List String) → IsQuiet (check_permissions p is)
  unfolding check_permissions
  check_permissions-IsQuiet [] = record { quiet = λ w. ground arith }
  check_permissions-IsQuiet (i ∷ is) =
      let rest = check_permissions-IsQuiet is in
      record { quiet = λ w. ground (arith, rest.quiet (tick w)) }

pub reject_existing-IsQuiet : (check : UserCheckExist) → IsQuiet (reject_existing check)
unfolding reject_existing
reject_existing-IsQuiet check = record { quiet = λ w. ground arith }

pub throw_if-IsQuiet : (b : Bool) (e : Exception) → IsQuiet (throw_if b e)
throw_if-IsQuiet true e = record { quiet = λ w. ground arith }
throw_if-IsQuiet false e = record { quiet = λ w. ground arith }

module _ (p : Platform) where
  pub issue-IsQuiet : (created : User) → IsQuiet (issue p created)
  unfolding issue
  issue-IsQuiet created = record { quiet = λ w. ground arith }

  pub find_user-IsQuiet : (i : String) → IsQuiet (find_one_by_id p i)
  unfolding find_one_by_id
  find_user-IsQuiet i = record { quiet = λ w. ground arith }

pub or_fail-IsQuiet : {A : Type 0} (e : Exception) (o : Option A) → IsQuiet (or_fail e o)
or_fail-IsQuiet e none = record { quiet = λ w. ground arith }
or_fail-IsQuiet e (some a) = record { quiet = λ w. ground arith }

pub not_null-IsQuiet : {A : Type 0} (o : Option A) → IsQuiet (not_null o)
not_null-IsQuiet none = record { quiet = λ w. ground arith }
not_null-IsQuiet (some a) = record { quiet = λ w. ground arith }

pub find_role-IsQuiet : (p : Platform) (i : String) → IsQuiet (role_by_id p i)
find_role-IsQuiet p i = record { quiet = λ w. ground arith }

-- ===== src/Tests.antt =====
-- The theorems at a concrete platform and world.
pub mod Registry
pub mod Messages
pub mod Objects
pub mod Requests
pub mod Keys
pub mod Sessions
pub mod Seeds
pub mod Texts
pub mod Answers
use openapi_nestjs_auth_mong.Prelude.{
  ap, ◌==◌, if◌then◌else◌, some-inj, is_some, truthy, length, take, drop, Any, pos, ℕ, ◌*◌, ◌≤◌,
  String, ◌≡◌, refl, sym, subst, ◌≢◌, ◌↔◌, ◌⊎◌, Bool, true, false, none, some, List, [], ◌∷◌, map,
  arith, eq_iff, eq_refl,
}
use openapi_nestjs_auth_mong.Http.{
  bad_request, unauthorized, service_unavailable, Tokens, http, failure,
  auth_password_not_match_error, auth_guard_api_key_invalid_error, service_unavailable_error,
}
use openapi_nestjs_auth_mong.Documents.{
  Permission, Role, User, ApiKey, SettingValue, Setting, FullUser,
}
use openapi_nestjs_auth_mong.Database.{IsKeyed, where_all}
use openapi_nestjs_auth_mong.Payload.{RefreshPayload, refresh}
use openapi_nestjs_auth_mong.Handler.{World, returns, throws, SameDocuments}
use mathlib.Core.Option
use openapi_nestjs_auth_mong.Permission.Service as PermissionService
use openapi_nestjs_auth_mong.Permission.Service.{PermissionCreate}
use openapi_nestjs_auth_mong.Permission.Service.Laws.{create_ignores_state}
use openapi_nestjs_auth_mong.Sample.{
  user_field, role_field, setting_field, roles, admin, member, hashed, platform, user_one, role_one,
  key_one, maintenance_setting, world, settle,
}
use openapi_nestjs_auth_mong.Sample.Store.{listed-IsKeyed, no_match}
use openapi_nestjs_auth_mong.Integrity.{IsMongo, HasRoles}
use openapi_nestjs_auth_mong.Integrity.Requests.{
  Request, signing_up, deleting_role, inactivating_user, serve_all, serve_all-HasRoles,
}
use openapi_nestjs_auth_mong.Auth.SignUp.{AuthSignUp}
use openapi_nestjs_auth_mong.Auth.Service.{AuthLogin}
use openapi_nestjs_auth_mong.Auth.Guards.{auth_admin_jwt_guard, auth_public_jwt_guard}
use openapi_nestjs_auth_mong.Auth.Guards.Laws.{auth_admin_jwt_guard_stale}
use openapi_nestjs_auth_mong.Auth.Guards.Laws.{
  IsAdmitted, auth_admin_jwt_guard_iff, auth_public_jwt_guard_iff,
}
use openapi_nestjs_auth_mong.Auth.Login.{login, refresh_tokens}
use openapi_nestjs_auth_mong.Auth.Login.Laws.{Grants, handed_out, login_iff, refusal_needs_password}
use openapi_nestjs_auth_mong.Auth.Login.Refresh.{Renews, refresh_iff}
use openapi_nestjs_auth_mong.Auth.Password.{change_password}
use openapi_nestjs_auth_mong.Auth.Password.Laws.{
  KeepsUser, PasswordChanged, change_password-PasswordChanged, change_password_throws-SameDocuments,
}
use openapi_nestjs_auth_mong.User.Admin as UserAdmin
use openapi_nestjs_auth_mong.User.Admin.Laws.{
  Switched, HandsOutNone, admin_inactive-Switched, inactive_ends_refresh, inactive_ends_login,
}
use openapi_nestjs_auth_mong.User.Admin.Listing.{IsPaged, all_found, list_page}
use openapi_nestjs_auth_mong.Role.Guards.{with_role}
use openapi_nestjs_auth_mong.Role.Admin as RoleAdmin
use openapi_nestjs_auth_mong.Role.Admin.Listing.{list_total}
use openapi_nestjs_auth_mong.ApiKey.Strategy.{
  handle_request, check_decrypted, api_key_guard, fails, succeeds,
}
use openapi_nestjs_auth_mong.ApiKey.Strategy.Laws.{
  SettlesFirst, IsAccepted, api_key_guard_iff, timestamp_mismatch_reported, wrong_hash_goes_on,
}
use openapi_nestjs_auth_mong.ApiKey.Basic.{basic_guard}
use openapi_nestjs_auth_mong.Helper.Text.{without_first, joined}
use openapi_nestjs_auth_mong.Setting.Maintenance.{maintenance}
use openapi_nestjs_auth_mong.Setting.Controllers as SettingControllers
use openapi_nestjs_auth_mong.Setting.Maintenance.Laws.{KeepsSetting, update_switches_maintenance}
use openapi_nestjs_auth_mong.Pagination.{
  total_page, skip, pagination_page, pagination_per_page, pagination_sort, b_sort,
}
use openapi_nestjs_auth_mong.Pagination.Listing.{ListQuery, Page, search_for}
use openapi_nestjs_auth_mong.Setting.Service.{named}
use openapi_nestjs_auth_mong.User.Admin.{user_search}
use openapi_nestjs_auth_mong.Pagination.Laws.{
  skip_bounds, first_pages, first_pages-total_page, pagination_sort_field,
}

pub keeps : KeepsUser (λ u. u)
keeps = record {
  keeps_id = λ u. refl;
  keeps_role = λ u. refl;
  keeps_password = λ u. refl;
  keeps_password_expiration = λ u. refl;
  keeps_salt = λ u. refl;
  keeps_api_key = λ u. refl;
  keeps_is_active = λ u. refl;
}

pub mongo : IsMongo platform (λ u. u) (λ r. r)
mongo = record {
  users = listed-IsKeyed (λ (u : User). u.id) user_field;
  roles = listed-IsKeyed (λ (r : Role). r.id) role_field;
  keeps = keeps;
  unused = λ i us none_has j u found role.
      let missed =
        no_match (λ (u : User). u.id) user_field (with_role platform i) us us j u u none_has found
          found in
      ground (arith, missed, eq_iff u.role i);
}

the_one : (b : Bool) {u : User} → (if b then some user_one else none) ≡ some u → u ≡ user_one
the_one true h = sym (some-inj h)
the_one false h = cc

has_roles : HasRoles platform world
has_roles = record {
  of_user = λ i u found.
      let is = the_one (user_one.id == i) found in
      (role_one, ap (λ (v : User). roles.find_by_id v.role world.roles) is);
}

pub user_keys : IsKeyed (λ (u : User). u.id) (λ u. u) platform.users
user_keys = listed-IsKeyed (λ (u : User). u.id) user_field

abbrev pub new_member : AuthSignUp
new_member = record {
  email = "bob@mail.com";
  mobile_number = none;
  first_name = "bob";
  last_name = none;
  password = "pw";
}

abbrev pub requests : List Request
requests = signing_up new_member ∷ inactivating_user "admin" "u1" ∷ deleting_role "admin" "r1" ∷ []

serve_all-HasRoles_example : HasRoles platform (serve_all platform requests world)
serve_all-HasRoles_example = serve_all-HasRoles platform mongo requests world has_roles

auth_admin_jwt_guard_iff_example :
    ((auth_admin_jwt_guard platform ("USER_READ" ∷ []) "admin" world).0 ≡ returns admin)
    ↔ IsAdmitted platform true ("USER_READ" ∷ []) "admin" world admin
auth_admin_jwt_guard_iff_example =
    auth_admin_jwt_guard_iff platform ("USER_READ" ∷ []) "admin" world admin

abbrev pub ann : AuthLogin
ann = record { email = "ann@mail.com"; password = "old"; remember_me = false }

abbrev pub tokens : Tokens
tokens = record { access_token = "access"; refresh_token = "refresh" }

login_iff_example :
    ((login platform ann world).0 ≡ handed_out tokens false)
    ↔ Grants platform ann world tokens false
login_iff_example = login_iff platform ann world tokens false refl

abbrev of_ann : RefreshPayload
of_ann = record { id = "u1"; remember_me = false; login_date = some 1 }

refresh_iff_example :
    ((refresh_tokens platform (refresh of_ann) "refresh" world).0 ≡ returns tokens)
    ↔ Renews platform of_ann 1 "refresh" world tokens
refresh_iff_example = refresh_iff platform of_ann 1 refl "refresh" world tokens refl

change_password-PasswordChanged_example :
    PasswordChanged platform "old" "new" "u1" world
      (change_password platform "old" "new" "u1" world).1
unfolding change_password
change_password-PasswordChanged_example =
    change_password-PasswordChanged platform user_keys keeps (λ pw salt. eq_refl pw) "old" "new"
      "u1" world refl

change_password_throws-SameDocuments_example :
    SameDocuments world (change_password platform "wrong" "new" "u1" world).1
unfolding change_password
change_password_throws-SameDocuments_example =
    change_password_throws-SameDocuments platform "wrong" "new" "u1" world
      (http bad_request auth_password_not_match_error "auth.error.passwordNotMatch") refl

-- the world in which the administrator has deactivated Ann's account
abbrev blocked : World
unfolding UserAdmin.inactive
blocked = (UserAdmin.inactive platform "admin" "u1" world).1

admin_inactive-Switched_example :
    Switched platform "u1" true false world (UserAdmin.inactive platform "admin" "u1" world).1
unfolding UserAdmin.inactive
admin_inactive-Switched_example =
    admin_inactive-Switched platform user_keys keeps (λ u rs ps. refl) "admin" "u1" world refl

inactive_ends_refresh_example :
    (refresh_tokens platform (refresh of_ann) "refresh" blocked).0 ≢ returns tokens
unfolding blocked
inactive_ends_refresh_example =
    inactive_ends_refresh platform user_keys keeps (λ u rs ps. refl) "admin" of_ann world blocked
      "refresh" tokens refl refl

inactive_ends_login_example : HandsOutNone (login platform ann blocked).0
unfolding blocked
inactive_ends_login_example =
    inactive_ends_login platform user_keys keeps (λ u rs ps. refl) "admin" world blocked
      (record user_one { is_active = false }) ann refl refl refl

pub first_settles : SettlesFirst settle
first_settles = λ v vs. refl

api_key_guard_iff_example :
    ((api_key_guard platform settle false (some "key:cipher") (some "77") world).0
      ≡ returns (some key_one))
    ↔ IsAccepted platform "key:cipher" (some "77") world key_one
api_key_guard_iff_example =
    api_key_guard_iff platform settle first_settles refl "key:cipher" (some "77") world refl key_one

keeps_setting : KeepsSetting (λ s. s)
keeps_setting = record { keeps_name = λ s h. h; keeps_truth = λ s. refl }

-- the world in which the administrator has switched the maintenance mode on
abbrev under_maintenance : World
unfolding SettingControllers.update
under_maintenance =
    (SettingControllers.update platform "admin" "s1" none (SettingValue.text "true") world).1

by_its_name :
    (t : Setting)
    → platform.settings.find_by_id "s1" under_maintenance.settings ≡ some t
    → platform.settings.find_one (named platform t.name) under_maintenance.settings ≡ some t
unfolding under_maintenance
by_its_name t found =
    subst
      (λ (u : Setting).
        platform.settings.find_one (named platform u.name) under_maintenance.settings ≡ some u)
      (some-inj found) refl

update_switches_maintenance_example :
    (maintenance platform under_maintenance).0
    ≡ throws
        (http service_unavailable service_unavailable_error "http.serverError.serviceUnavailable")
unfolding SettingControllers.update
update_switches_maintenance_example =
    update_switches_maintenance platform (listed-IsKeyed (λ (s : Setting). s.id) setting_field)
      keeps_setting "admin" "s1" none (SettingValue.text "true") world under_maintenance
      maintenance_setting "s1" refl refl refl refl by_its_name refl

abbrev five : List String
five = "a" ∷ "b" ∷ "c" ∷ "d" ∷ "e" ∷ []

paged : IsPaged platform
paged = record { cut = λ f l s sort ds. refl; counted = λ f sort ds. refl }

abbrev first_of_users : ListQuery
first_of_users = record {
  search = none;
  page = pos 1;
  per_page = pos 10;
  sort = ("createdAt", true);
}

abbrev page_of_users : Page FullUser
page_of_users = record {
  total_data = 1;
  total_page = some (pos 1);
  current_page = pos 1;
  per_page = pos 10;
  items = platform.populate_user user_one world.roles [] ∷ [];
}

list_page_example :
    (page_of_users.items
      ≡ map
          (λ u. platform.populate_user u world.roles [])
          (take 10 (
            drop (0 * 10) (
              all_found platform
                (search_for [] (user_search platform) none)
                ("createdAt", true)
                world.users))))
    × (page_of_users.total_data
        ≡ length (
            all_found platform
              (search_for [] (user_search platform) none)
              ("createdAt", true)
              world.users))
unfolding UserAdmin.list total_page skip
list_page_example =
    list_page platform first_of_users paged "admin" world page_of_users 0 9 refl refl (ground arith)
      (ground arith) refl

-- ===== src/Tests/Sessions.antt =====
-- The logins after a sign-up and after a change of the password, and what the tokens of one open.
use openapi_nestjs_auth_mong.Prelude.{
  [], ◌≡◌, refl, true, some, arith, eq_refl, some-inj, subst, ap, sym, none, ◌∷◌, ℕ, false, leb,
  ltb, ◌&&◌, ◌+◌, ◌/◌, ◌≤◌, ◌<◌, ◌==◌, if◌then◌else◌, Option, All, ◌↔◌, ◌⊎◌, map,
}
use openapi_nestjs_auth_mong.Http.{Tokens}
use openapi_nestjs_auth_mong.Documents.{User, FullRole}
use openapi_nestjs_auth_mong.Handler.{World, returns}
use openapi_nestjs_auth_mong.Sample.{platform, world, role_one, user_one}
use openapi_nestjs_auth_mong.Auth.Service.{AuthLogin}
use openapi_nestjs_auth_mong.Auth.Login.{by_email, login}
use openapi_nestjs_auth_mong.Auth.Login.Granted.{CanLogin}
use openapi_nestjs_auth_mong.Auth.Password.{change_password}
use openapi_nestjs_auth_mong.Auth.Password.Renewed.{change_password-login}
use openapi_nestjs_auth_mong.Auth.SignUp.{sign_up}
use openapi_nestjs_auth_mong.Auth.SignUp.Laws.{sign_up-login}
use openapi_nestjs_auth_mong.Documents.{Permission}
use openapi_nestjs_auth_mong.Platform.{Platform}
use openapi_nestjs_auth_mong.Payload.{JwtOptions, Payload, access, refresh}
use openapi_nestjs_auth_mong.Auth.Service.{login_data, login_role}
use openapi_nestjs_auth_mong.Auth.Guards.{auth_admin_jwt_guard, jwt_refresh_guard}
use openapi_nestjs_auth_mong.Auth.Guards.Laws as GuardsLaws
use openapi_nestjs_auth_mong.Auth.Login.Admitted.{
  IsTimed, access_options, refresh_options, access_payload, refresh_payload,
  login-auth_admin_jwt_guard, login-jwt_refresh_guard,
}
use openapi_nestjs_auth_mong.Handler.{unknown, SameDocuments}
use openapi_nestjs_auth_mong.Auth.SignUp.Failures.{Leaves, sign_up_throws-Leaves}
use openapi_nestjs_auth_mong.Tests.{user_keys, keeps, ann, tokens, new_member}

abbrev member_role : FullRole
member_role = record { role = role_one; permissions = [] }

abbrev renewed_ann : AuthLogin
renewed_ann = record ann { password = "new" }

abbrev renewed_world : World
unfolding change_password
renewed_world = record ((change_password platform "old" "new" "u1" world).1) { moment = 100 }

ann_can : CanLogin platform "u1" "ann@mail.com" member_role renewed_world
unfolding renewed_world
ann_can = record {
  by_its_email = λ u found.
      subst
        (λ (t : User).
          platform.users.find_one (by_email platform "ann@mail.com") renewed_world.users ≡ some t)
        (some-inj found) refl;
  has_role = λ u found.
      subst
        (λ (t : User). (platform.populate_user t renewed_world.roles []).role ≡ some member_role)
        (some-inj found) refl;
  role_active = refl;
}

change_password-login_example :
    (granted : Tokens) × ((login platform renewed_ann renewed_world).0 ≡ returns granted)
unfolding change_password renewed_world
change_password-login_example =
    change_password-login platform user_keys keeps (λ pw salt. eq_refl pw) (λ u rs ps. refl) "old"
      "u1" world renewed_world renewed_ann member_role refl refl ann_can refl
      (λ u found. sym (ap (λ (t : User). t.is_active) (some-inj found))) (ground arith)

abbrev bob : AuthLogin
bob = record { email = "bob@mail.com"; password = "pw"; remember_me = true }

abbrev grown_world : World
unfolding sign_up
grown_world = record ((sign_up platform new_member world).1) { moment = 100 }

bob_can : CanLogin platform "new" "bob@mail.com" member_role grown_world
unfolding grown_world
bob_can = record {
  by_its_email = λ u found.
      subst
        (λ (t : User).
          platform.users.find_one (by_email platform "bob@mail.com") grown_world.users ≡ some t)
        (some-inj found) refl;
  has_role = λ u found.
      subst (λ (t : User). (platform.populate_user t grown_world.roles []).role ≡ some member_role)
        (some-inj found) refl;
  role_active = refl;
}

sign_up-login_example : (granted : Tokens) × ((login platform bob grown_world).0 ≡ returns granted)
unfolding sign_up grown_world
sign_up-login_example =
    sign_up-login platform user_keys keeps (λ pw salt. eq_refl pw) (λ u rs ps. refl) new_member
      world grown_world tokens bob member_role refl refl refl bob_can refl (ground arith)

abbrev user_read : Permission
user_read = record {
  id = "q1";
  code = "USER_READ";
  name = "USER READ";
  description = none;
  is_active = true;
}

abbrev admin_role : FullRole
admin_role = record {
  role = record role_one { is_admin = true; permissions = "q1" ∷ [] };
  permissions = user_read ∷ [];
}

abbrev admin_world : World
admin_world = record world { roles = admin_role.role ∷ []; permissions = admin_role.permissions }

-- jsonwebtoken for one token that is signed at a moment
abbrev check_time : ℕ → JwtOptions → Payload → ℕ → Option Payload
check_time m options payload time =
    if leb (m / 1000 + options.not_before) (time / 1000)
      && ltb (time / 1000) (m / 1000 + options.expired_in)
    then some payload
    else none

abbrev timed_platform : ℕ → JwtOptions → Payload → Platform
timed_platform m options payload = record platform {
  verify = λ secret token time.
      if secret == options.secret_key && token == options.secret_key
      then check_time m options payload time
      else none;
}

timed_platform-IsTimed :
    (m : ℕ) (options : JwtOptions) (payload : Payload)
    → IsTimed (timed_platform m options payload) payload options m
timed_platform-IsTimed m options payload = record {
  accepted = λ time begun running. ground (arith, eq_refl options.secret_key);
  early = λ time before. ground (arith, eq_refl options.secret_key);
  late = λ time after. ground (arith, eq_refl options.secret_key);
}

abbrev access_platform : Platform
access_platform =
    timed_platform 2 (access_options platform)
      (access (access_payload platform ann user_one admin_role 0))

login-auth_admin_jwt_guard_example :
    ((auth_admin_jwt_guard access_platform
        ("USER_READ" ∷ [])
        "access"
        (record admin_world { moment = 8000 })).0
      ≡ returns (login_data user_one (login_role admin_role)))
    ↔ ((true ≡ true)
        × (8001 ≤ 9000)
        × All (GuardsLaws.Grants (login_role admin_role).permissions) ("USER_READ" ∷ []))
unfolding login
login-auth_admin_jwt_guard_example =
    login-auth_admin_jwt_guard access_platform (λ u w. refl) ann admin_world
      (record admin_world { moment = 8000 }) tokens user_one admin_role refl refl refl refl
      ("USER_READ" ∷ [])
      (timed_platform-IsTimed 2 (access_options platform)
        (access (access_payload platform ann user_one admin_role 0)))
      (omega arith) (omega arith)

abbrev refresh_platform : Platform
refresh_platform =
    timed_platform 3 (refresh_options platform false)
      (refresh (refresh_payload platform ann user_one 0))

login-jwt_refresh_guard_example :
    ((jwt_refresh_guard refresh_platform "refresh" (record admin_world { moment = 2000000000 })).0
      ≡ returns (refresh (refresh_payload platform ann user_one 0)))
    ↔ ((1800000 ≤ 2000000) × (2000000 < 604800000))
unfolding login
login-jwt_refresh_guard_example =
    login-jwt_refresh_guard refresh_platform (λ u w. refl) ann admin_world
      (record admin_world { moment = 2000000000 }) tokens user_one admin_role refl refl refl refl
      (timed_platform-IsTimed 3 (refresh_options platform false)
        (refresh (refresh_payload platform ann user_one 0)))

-- the platform whose database stops answering after the account is stored
abbrev failing_platform : Platform
failing_platform = record platform { reachable = λ m. ltb m 9 }

account_stays :
    map (λ u. u.email) (sign_up failing_platform new_member world).1.users
    ≡ "bob@mail.com" ∷ "ann@mail.com" ∷ []
unfolding sign_up
account_stays = refl

sign_up_throws-Leaves_example :
    SameDocuments world (sign_up failing_platform new_member world).1
    ⊎ ((unknown ≡ unknown)
        × Leaves failing_platform new_member world (sign_up failing_platform new_member world).1)
unfolding sign_up
sign_up_throws-Leaves_example = sign_up_throws-Leaves failing_platform new_member world unknown refl

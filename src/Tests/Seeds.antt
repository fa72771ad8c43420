-- ===== src/Tests/Seeds.antt =====
-- The seeds on an empty database.
use openapi_nestjs_auth_mong.Prelude.{
  [], ◌∷◌, List, ◌≡◌, ◌↔◌, refl, true, some, arith, eq_refl, some-inj, subst, ap, Any, keep, Bool,
  false, includes, Bool-cases, inl, inr,
}
use openapi_nestjs_auth_mong.Http.{Tokens}
use openapi_nestjs_auth_mong.Documents.{Permission, User, Role, FullRole}
use openapi_nestjs_auth_mong.Handler.{World, returns}
use openapi_nestjs_auth_mong.Sample.{platform, role_one}
use openapi_nestjs_auth_mong.Auth.Service.{AuthLogin}
use openapi_nestjs_auth_mong.Auth.Login.{by_email, login}
use openapi_nestjs_auth_mong.Auth.Login.Granted.{CanLogin}
use openapi_nestjs_auth_mong.Seeds.{permission_seed_insert, role_seed_insert, user_seed_insert}
use openapi_nestjs_auth_mong.Seeds.Laws.{
  Selects, AreRoles, role_seed_insert-AreRoles, user_seed_insert-login,
}
use openapi_nestjs_auth_mong.Tests.{user_keys, keeps}

-- what is kept of a list, as members
kept_iff :
    (test : Permission → Bool) (qs : List Permission) (q : Permission)
    → Any (λ e. e ≡ q) (keep test qs) ↔ (Any (λ e. e ≡ q) qs × (test q ≡ true))
kept_iff test [] q = ground arith
kept_iff test (e ∷ qs) q = elim (Bool-cases (test e)) [
  | inl kept ↦ ground (arith, kept_iff test qs q, λ (is : e ≡ q). ap test is)
  | inr left_out ↦ ground (arith, kept_iff test qs q, λ (is : e ≡ q). ap test is)
]

platform-Selects : Selects (λ q. q.code) platform.permissions
platform-Selects ts ds q = ground (arith, kept_iff (λ e. includes ts e.code) ds q)

abbrev empty : World
empty = record {
  users = [];
  roles = [];
  permissions = [];
  api_keys = [];
  settings = [];
  moment = 0;
}

abbrev permitted : World
unfolding permission_seed_insert
permitted = (permission_seed_insert platform empty).1

role_seed_insert-AreRoles_example :
    AreRoles platform permitted (role_seed_insert platform permitted).1
unfolding role_seed_insert permitted
role_seed_insert-AreRoles_example =
    role_seed_insert-AreRoles platform platform-Selects permitted refl

abbrev administrators : Role
administrators = record role_one { name = "admin"; is_admin = true }

abbrev staffed : World
staffed = record empty { roles = administrators ∷ [] }

abbrev set_up : World
unfolding user_seed_insert
set_up = record ((user_seed_insert platform staffed).1) { moment = 100 }

abbrev full_role : FullRole
full_role = record { role = administrators; permissions = [] }

abbrev credentials : AuthLogin
credentials = record { email = "admin@mail.com"; password = "aaAA@@123444"; remember_me = false }

administrator_can : CanLogin platform "new" "admin@mail.com" full_role set_up
unfolding set_up
administrator_can = record {
  by_its_email = λ u found.
      subst
        (λ (t : User).
          platform.users.find_one (by_email platform "admin@mail.com") set_up.users ≡ some t)
        (some-inj found) refl;
  has_role = λ u found.
      subst (λ (t : User). (platform.populate_user t set_up.roles []).role ≡ some full_role)
        (some-inj found) refl;
  role_active = refl;
}

user_seed_insert-login_example :
    (granted : Tokens) × ((login platform credentials set_up).0 ≡ returns granted)
unfolding user_seed_insert set_up
user_seed_insert-login_example =
    user_seed_insert-login platform user_keys keeps (λ pw salt. eq_refl pw) (λ u rs ps. refl)
      staffed set_up credentials full_role refl refl refl administrator_can refl (ground arith)

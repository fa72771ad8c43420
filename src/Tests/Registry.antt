-- ===== src/Tests/Registry.antt =====
-- The theorems on the accounts at a concrete platform and world.
use openapi_nestjs_auth_mong.Prelude.{List, [], ◌∷◌, refl, true, false, some}
use openapi_nestjs_auth_mong.Sample.{platform, world, admin, admin_role, role_one}
use openapi_nestjs_auth_mong.Payload.{LoginData, access}
use openapi_nestjs_auth_mong.Platform.{Platform}
use openapi_nestjs_auth_mong.Handler.{World}
use openapi_nestjs_auth_mong.Integrity.{IsMongo, HasRoles}
use openapi_nestjs_auth_mong.Integrity.Race.{sign_up_start, sign_up_finish, interleaved_sign_up}
use openapi_nestjs_auth_mong.Role.Admin as RoleAdmin
use openapi_nestjs_auth_mong.Integrity.Requests.{
  Request, inactivating_user, changing_password, serve, serve_all,
}
use openapi_nestjs_auth_mong.User.Admin as UserAdmin
use openapi_nestjs_auth_mong.Auth.Password.{change_password}
use openapi_nestjs_auth_mong.Registry.{Account, Runs, view}
use openapi_nestjs_auth_mong.Registry.Laws.{serve_all-Runs}
use openapi_nestjs_auth_mong.Registry.Kept.{
  ComesOf, any_asks_for, any_makes, makes, serve_all-ComesOf,
}
use openapi_nestjs_auth_mong.Tests.{mongo, requests, new_member}

serve_all-Runs_example :
    Runs requests (view platform world) (view platform (serve_all platform requests world))
serve_all-Runs_example = serve_all-Runs platform mongo (λ u rs ps. refl) requests world

abbrev edits : List Request
edits = changing_password "old" "new" "u1" ∷ inactivating_user "admin" "u1" ∷ []

abbrev ann_blocked : Account
ann_blocked = record { role = "r1"; is_active = false }

serve_all-ComesOf_example : ComesOf (view platform world) "u1" ann_blocked (any_asks_for "u1" edits)
unfolding any_makes makes view serve_all serve UserAdmin.inactive change_password
serve_all-ComesOf_example =
    serve_all-ComesOf platform mongo (λ u rs ps. refl) edits world refl "u1" ann_blocked refl

-- an administrator who may delete roles
abbrev deleter : LoginData
deleter = record admin {
  role = record admin_role {
    permissions =
        record { code = "ROLE_READ"; is_active = true }
        ∷ record { code = "ROLE_DELETE"; is_active = true }
        ∷ [];
  };
}

abbrev deleting_platform : Platform
deleting_platform = record platform {
  verify = λ secret token time.
      some (access (record { login = deleter; remember_me = false; login_date = 5 }));
}

deleting-IsMongo : IsMongo deleting_platform (λ u. u) (λ r. r)
deleting-IsMongo = record {
  users = mongo.users;
  roles = mongo.roles;
  keeps = mongo.keeps;
  unused = mongo.unused;
}

abbrev deserted : World
deserted = record world { users = [] }

interleaved_sign_up_example :
    ¬ HasRoles deleting_platform
      (sign_up_finish deleting_platform new_member role_one
        (RoleAdmin.delete deleting_platform "admin" "r1"
          (sign_up_start deleting_platform new_member deserted).1).1).1
unfolding sign_up_start sign_up_finish RoleAdmin.delete
interleaved_sign_up_example =
    interleaved_sign_up deleting_platform deleting-IsMongo (λ r ps. refl) new_member "admin"
      role_one deserted refl refl (λ e. cc)

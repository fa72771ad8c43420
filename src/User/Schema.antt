-- ===== src/User/Schema.antt =====
-- user/schema/user.schema.ts: the hook that runs before a user is saved, and the calls of the
-- model that UserService makes.
use openapi_nestjs_auth_mong.Prelude.{if◌then◌else◌, String, Option, none, some, List, ◌==◌}
use openapi_nestjs_auth_mong.Documents.{User, FullUser}
use openapi_nestjs_auth_mong.Platform.{Platform}
use openapi_nestjs_auth_mong.Handler.{World, Handler, query, write}
use mathlib.Core.Option

abbrev pub with_users : World → List User → World
with_users w us = record w { users = us }

module _ (p : Platform) where
  -- UserSchema.pre('save'): an empty last name is falsy and stays.
  abbrev lower_last_name : Option String → Option String
  lower_last_name none = none
  lower_last_name (some s) = if s == "" then some s else some (p.to_lower_case s)

  unfoldable pub user_pre_save : User → User
  user_pre_save u = record u {
    email = p.to_lower_case u.email;
    first_name = p.to_lower_case u.first_name;
    last_name = lower_last_name u.last_name;
  }

  -- `user.save()`: the hook, then the driver.
  abbrev pub save_user : User → Handler (Unit {0})
  save_user u = write p λ w. Option.map (with_users w) (p.users.save (user_pre_save u) w.users)

  abbrev pub user_by_id : String → Handler (Option User)
  user_by_id i = query p λ w. p.users.find_by_id i w.users

  -- `populate` of the role and of its permissions
  abbrev pub populated : Option User → World → Option FullUser
  populated o w = Option.map (λ u. p.populate_user u w.roles w.permissions) o

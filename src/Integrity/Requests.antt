-- ===== src/Integrity/Requests.antt =====
-- The requests that reach the users and the roles, served one after the other, each from the world
-- that the one before it left, whether that returned or threw.
use openapi_nestjs_auth_mong.Prelude.{String, refl, true, false, Option, List, [], ◌∷◌}
use openapi_nestjs_auth_mong.Documents.{Role, User, FullUser}
use openapi_nestjs_auth_mong.Platform.{Platform}
use openapi_nestjs_auth_mong.Handler.{World, Handler}
use openapi_nestjs_auth_mong.Handler.Rules.{kept}
use openapi_nestjs_auth_mong.Auth.SignUp.{AuthSignUp, sign_up}
use openapi_nestjs_auth_mong.Auth.Password.{change_password}
use openapi_nestjs_auth_mong.User.Admin as UserAdmin
use openapi_nestjs_auth_mong.User.Admin.{UserBody}
use openapi_nestjs_auth_mong.Role.Service.{RoleBody}
use openapi_nestjs_auth_mong.Role.Admin as RoleAdmin
use openapi_nestjs_auth_mong.User.Service as UserService
use openapi_nestjs_auth_mong.User.Service.{new_user, or_undefined}
use openapi_nestjs_auth_mong.Role.Service as RoleService
use openapi_nestjs_auth_mong.Integrity.{IsMongo, HasRoles, HasRoles-SameDocuments}
use openapi_nestjs_auth_mong.Integrity.Frame.{Frame, Finds}
use openapi_nestjs_auth_mong.Integrity.Saves
use openapi_nestjs_auth_mong.Integrity.Users
use openapi_nestjs_auth_mong.Integrity.Accounts
use openapi_nestjs_auth_mong.Integrity.Roles

pub data Request : Type 0 where
  signing_up : AuthSignUp → Request
  -- the old and the new password, and the `_id` of the payload
  changing_password : String → String → String → Request
  -- the bearer token, then the path's id and the body
  creating_user : String → UserBody → Request
  updating_user : String → String → String → Option String → Request
  deleting_user inactivating_user activating_user : String → String → Request
  creating_role : String → RoleBody → Request
  updating_role : String → String → RoleBody → Request
  deleting_role inactivating_role activating_role : String → String → Request

module _ (p : Platform) where
  unfoldable pub serve : Request → World → World
  serve (signing_up body) w = (sign_up p body w).1
  serve (changing_password old new i) w = (change_password p old new i w).1
  serve (creating_user token body) w = (UserAdmin.create p token body w).1
  serve (updating_user token i first last) w = (UserAdmin.update p token i first last w).1
  serve (deleting_user token i) w = (UserAdmin.delete p token i w).1
  serve (inactivating_user token i) w = (UserAdmin.inactive p token i w).1
  serve (activating_user token i) w = (UserAdmin.active p token i w).1
  serve (creating_role token body) w = (RoleAdmin.create p token body w).1
  serve (updating_role token i body) w = (RoleAdmin.update p token i body w).1
  serve (deleting_role token i) w = (RoleAdmin.delete p token i w).1
  serve (inactivating_role token i) w = (RoleAdmin.inactive p token i w).1
  serve (activating_role token i) w = (RoleAdmin.active p token i w).1

  unfoldable pub serve_all : List Request → World → World
  serve_all [] w = w
  serve_all (r ∷ rs) w = serve_all rs (serve r w)

module _ (p : Platform) {user_cast : User → User} {role_cast : Role → Role}
    (mongo : IsMongo p user_cast role_cast) where
  frame : Frame (HasRoles p) (HasRoles p)
  frame = record {
    before = HasRoles-SameDocuments p;
    after = HasRoles-SameDocuments p;
    weaken = λ w h. h;
  }

  abbrev Any : String → Type 0
  Any _ = Unit {0}

  any : {m : Handler FullUser} → Finds (λ full. Any full.user.id) m
  any = record { finds = λ w full e. tt }

  saves : (role : String) → Users.Saves p frame role
  saves role i c e = Saves.save_user-HasRoles p mongo (new_user i c)

  pub serve-HasRoles : (r : Request) (w : World) → HasRoles p w → HasRoles p (serve p r w)
  unfolding serve UserService.update_one_by_id UserService.inactive UserService.active
      UserService.update_password RoleService.update RoleService.inactive RoleService.active
  serve-HasRoles (signing_up body) = kept (Accounts.sign_up-Ensures p frame body mongo.roles saves)
  serve-HasRoles (changing_password old new i) = kept (
      Accounts.change_password-Ensures p frame old new i λ j a.
        Saves.edit_user-HasRoles p mongo
          (λ u. record u {
            password = a.password_hash;
            password_expiration = a.password_expiration;
            salt = a.salt;
          })
          (λ u. refl) j)
  serve-HasRoles (creating_user token body) =
      kept (Users.admin_create-Ensures p frame token body (saves body.role))
  serve-HasRoles (updating_user token i first last) = kept (
      Users.admin_update-Ensures p frame Any token i first last any λ j _.
        Saves.edit_user-HasRoles p mongo
          (λ u. record u { first_name = first; last_name = or_undefined last }) (λ u. refl) j)
  serve-HasRoles (deleting_user token i) = kept (
      Users.admin_delete-Ensures p frame Any token i any
        λ j _. Saves.delete_user-HasRoles p mongo j)
  serve-HasRoles (inactivating_user token i) = kept (
      Users.admin_inactive-Ensures p frame Any token i any
        λ j _. Saves.edit_user-HasRoles p mongo (λ u. record u { is_active = false }) (λ u. refl) j)
  serve-HasRoles (activating_user token i) = kept (
      Users.admin_active-Ensures p frame Any token i any
        λ j _. Saves.edit_user-HasRoles p mongo (λ u. record u { is_active = true }) (λ u. refl) j)
  serve-HasRoles (creating_role token body) =
      kept (Roles.role_create-Ensures p frame token body (Saves.save_role-HasRoles p mongo))
  serve-HasRoles (updating_role token i body) = kept (
      Roles.role_update-Ensures p frame token i body (
        Saves.edit_role-HasRoles p mongo (λ r. record r {
          name = body.name;
          permissions = body.permissions;
          is_admin = body.is_admin;
        })))
  serve-HasRoles (deleting_role token i) =
      kept (Roles.role_delete-Ensures p frame token i (Saves.delete_role-HasRoles p mongo))
  serve-HasRoles (inactivating_role token i) = kept (
      Roles.role_inactive-Ensures p frame token i
        (Saves.edit_role-HasRoles p mongo (λ r. record r { is_active = false })))
  serve-HasRoles (activating_role token i) = kept (
      Roles.role_active-Ensures p frame token i
        (Saves.edit_role-HasRoles p mongo (λ r. record r { is_active = true })))

  -- On collections that keep the laws IsMongo: whatever requests are served, whether they return or
  -- throw, if every user's role exists before them, it exists after them.
  pub serve_all-HasRoles :
      (rs : List Request) (w : World) → HasRoles p w → HasRoles p (serve_all p rs w)
  unfolding serve_all
  serve_all-HasRoles [] w h = h
  serve_all-HasRoles (r ∷ rs) w h = serve_all-HasRoles rs (serve p r w) (serve-HasRoles r w h)

-- ===== src/Seeds.antt =====
-- database/seeds: the commands that fill an empty database and that clear it, with the bulk services
-- that they call and the enum of permission/permission.constant.ts.
pub mod Laws
use openapi_nestjs_auth_mong.Prelude.{
  String, Bool, true, false, ◌||◌, Option, none, some, List, [], ◌∷◌, map,
}
use openapi_nestjs_auth_mong.Http.{failure}
use openapi_nestjs_auth_mong.Documents.{Permission, Role, SettingValue}
use openapi_nestjs_auth_mong.Database.{Term, equals, among, Filter, where_all, FindAllOptions}
use openapi_nestjs_auth_mong.Platform.{Platform}
use openapi_nestjs_auth_mong.Handler.{
  ◌>>=◌, ◌>>◌, Handler, pure, not_null, or_throw, at_moment, write,
}
use openapi_nestjs_auth_mong.Helper.Text.{replace_first}
use openapi_nestjs_auth_mong.Permission.Service as PermissionService
use openapi_nestjs_auth_mong.Permission.Service.{PermissionCreate, with_permissions}
use openapi_nestjs_auth_mong.Role.Service as RoleService
use openapi_nestjs_auth_mong.Role.Service.{RoleBody, new_role, with_roles}
use openapi_nestjs_auth_mong.User.Service as UserService
use openapi_nestjs_auth_mong.User.Service.{UserCreate, AuthPassword}
use openapi_nestjs_auth_mong.Setting.Service as SettingService
use openapi_nestjs_auth_mong.ApiKey.Service as ApiKeyService
use openapi_nestjs_auth_mong.Auth.Service.{create_password}
use mathlib.Core.Option

-- ENUM_PERMISSIONS: its keys and their values
abbrev pub enum_permissions : List (String × String)
enum_permissions =
    ("USER_CREATE", "USER_CREATE")
    ∷ ("USER_UPDATE", "USER_UPDATE")
    ∷ ("USER_READ", "USER_READ")
    ∷ ("USER_DELETE", "USER_DELETE")
    ∷ ("ROLE_CREATE", "ROLE_CREATE")
    ∷ ("ROLE_UPDATE", "ROLE_UPDATE")
    ∷ ("ROLE_READ", "ROLE_READ")
    ∷ ("ROLE_DELETE", "ROLE_DELETE")
    ∷ ("PERMISSION_READ", "PERMISSION_READ")
    ∷ ("PERMISSION_UPDATE", "PERMISSION_UPDATE")
    ∷ ("SETTING_READ", "SETTING_READ")
    ∷ ("SETTING_UPDATE", "SETTING_UPDATE")
    ∷ ("APIKEY_READ", "APIKEY_READ")
    ∷ ("APIKEY_CREATE", "APIKEY_CREATE")
    ∷ ("APIKEY_DELETE", "APIKEY_CREATE")
    ∷ []

-- `find` and `findAll` with no options, and `{}`
abbrev no_options : FindAllOptions
no_options = record { limit = none; skip = none; sort = none }

abbrev pub everything : Filter
everything = where_all []

-- the permission of a key of the enum; an `isActive` that is not given is falsy
abbrev pub seeded_permission : String → PermissionCreate
seeded_permission key = record {
  code = key;
  name = replace_first "_" " " key;
  description = none;
  is_active = false;
}

-- `{ code, name, description, isActive: isActive || true }` with its id
abbrev pub bulk_permission : String → PermissionCreate → Permission
bulk_permission i c = record {
  id = i;
  code = c.code;
  name = c.name;
  description = c.description;
  is_active = c.is_active || true;
}

module _ {A D : Type 0} (p : Platform) (make : String → A → D) where
  -- the documents of `insertMany`, each with a fresh id
  abbrev pub documents : List A → Handler (List D)
  documents [] = pure []
  documents (a ∷ as_given) = do
    i ← at_moment p p.new_object_id
    rest ← documents as_given
    pure (make i a ∷ rest)

module _ (p : Platform) where
  -- PermissionBulkService.createMany
  unfoldable pub create_permissions : List PermissionCreate → Handler (List Permission)
  create_permissions given = do
    qs ← documents p bulk_permission given
    write p (λ w. Option.map (with_permissions w) (p.permissions.insert_many qs w.permissions))
    pure qs

  -- RoleBulkService.createMany
  unfoldable pub create_roles : List RoleBody → Handler (List Role)
  create_roles given = do
    rs ← documents p new_role given
    write p (λ w. Option.map (with_roles w) (p.roles.insert_many rs w.roles))
    pure rs

  -- deleteMany of the five bulk services
  unfoldable pub delete_permissions : Filter → Handler (Unit {0})
  delete_permissions f =
      write p λ w. some (record w { permissions = p.permissions.delete_many f w.permissions })

  unfoldable pub delete_roles : Filter → Handler (Unit {0})
  delete_roles f = write p λ w. some (record w { roles = p.roles.delete_many f w.roles })

  unfoldable pub delete_users : Filter → Handler (Unit {0})
  delete_users f = write p λ w. some (record w { users = p.users.delete_many f w.users })

  unfoldable pub delete_settings : Filter → Handler (Unit {0})
  delete_settings f =
      write p λ w. some (record w { settings = p.settings.delete_many f w.settings })

  unfoldable pub delete_api_keys : Filter → Handler (Unit {0})
  delete_api_keys f =
      write p λ w. some (record w { api_keys = p.api_keys.delete_many f w.api_keys })

  -- PermissionSeed: `catch (e) { throw new Error(e.message) }` in all of the seeds
  unfoldable pub permission_seed_insert : Handler (Unit {0})
  unfolding create_permissions
  permission_seed_insert =
      or_throw (create_permissions (map (λ e. seeded_permission e.0) enum_permissions) >> pure tt)
        failure

  unfoldable pub permission_seed_remove : Handler (Unit {0})
  unfolding delete_permissions
  permission_seed_remove = or_throw (delete_permissions everything) failure

  -- RoleSeed: the permissions are read before the `try`.
  abbrev pub of_enum : Filter
  of_enum = where_all (("code", among (map (λ e. e.1) enum_permissions)) ∷ [])

  abbrev pub seeded_roles : List Permission → List RoleBody
  seeded_roles qs =
      record { name = "admin"; permissions = map (λ q. q.id) qs; is_admin = true }
      ∷ record { name = "user"; permissions = []; is_admin = false }
      ∷ []

  unfoldable pub role_seed_insert : Handler (Unit {0})
  unfolding create_roles PermissionService.find_all
  role_seed_insert = do
    permissions ← PermissionService.find_all p of_enum no_options
    or_throw (create_roles (seeded_roles permissions) >> pure tt) failure

  unfoldable pub role_seed_remove : Handler (Unit {0})
  unfolding delete_roles
  role_seed_remove = or_throw (delete_roles everything) failure

  -- UserSeed: the role is read before the `try`, and used in it.
  abbrev pub admin_name : Filter
  admin_name = where_all (("name", equals (Term.text "admin")) ∷ [])

  abbrev pub seeded_password : String
  seeded_password = "aaAA@@123444"

  abbrev pub seeded_user : AuthPassword → Role → UserCreate
  seeded_user password role = record {
    first_name = "admin";
    last_name = some "test";
    email = "admin@mail.com";
    password = password.password_hash;
    password_expiration = password.password_expiration;
    mobile_number = some "08111111111";
    role = role.id;
    salt = password.salt;
  }

  unfoldable pub create_administrator : Option Role → Handler (Unit {0})
  unfolding create_password UserService.create
  create_administrator found = do
    password ← create_password p seeded_password
    role ← not_null found
    UserService.create p (seeded_user password role)
    pure tt

  unfoldable pub user_seed_insert : Handler (Unit {0})
  unfolding RoleService.find_one create_administrator
  user_seed_insert = do
    found ← RoleService.find_one p admin_name
    or_throw (create_administrator found) failure

  unfoldable pub user_seed_remove : Handler (Unit {0})
  unfolding delete_users
  user_seed_remove = or_throw (delete_users everything) failure

  -- SettingSeed
  unfoldable pub setting_seed_insert : Handler (Unit {0})
  unfolding SettingService.create
  setting_seed_insert =
      or_throw
        (SettingService.create p (record {
          name = "maintenance";
          description = some "Maintenance Mode";
          value = SettingValue.text "false";
        })
          >> pure tt)
        failure

  unfoldable pub setting_seed_remove : Handler (Unit {0})
  unfolding delete_settings
  setting_seed_remove = or_throw (delete_settings everything) failure

  -- AuthApiSeed
  unfoldable pub auth_api_seed_insert : Handler (Unit {0})
  unfolding ApiKeyService.create
  auth_api_seed_insert =
      or_throw
        (ApiKeyService.create p (record {
          name = "Auth Default";
          description = some "Default API Key used for authenticating users";
          key = some "qwertyuiop12345zxcvbnmkjh";
          secret = some "5124512412412asdasdasdasdasdASDASDASD";
          passphrase = some "cuwakimacojulawu";
          encryption_key = some "opbUwdiS1FBsrDUoPgZdx";
        })
          >> pure tt)
        failure

  unfoldable pub auth_api_seed_remove : Handler (Unit {0})
  unfolding delete_api_keys
  auth_api_seed_remove = or_throw (delete_api_keys everything) failure

-- ===== src/Auth/Service.antt =====
-- auth/service/auth.service.ts
use mathlib.Core.Option
use openapi_nestjs_auth_mong.Prelude.{
  ltb, if◌then◌else◌, ℕ, ◌+◌, String, Bool, Option, none, some, map,
}
use openapi_nestjs_auth_mong.Documents.{Permission, User, FullRole, FullUser}
use openapi_nestjs_auth_mong.Payload.{
  LoginPermission, LoginRole, LoginData, AccessPayload, RefreshPayload, Payload,
}
use openapi_nestjs_auth_mong.Platform.{Platform}
use openapi_nestjs_auth_mong.Handler.{◌>>=◌, Handler, pure, at_moment, now}
use openapi_nestjs_auth_mong.User.Service.{AuthPassword}

-- AuthLoginDto
pub record AuthLogin : Type 0 where
  pub email : String
  pub password : String
  pub remember_me : Bool

abbrev pub login_permission : Permission → LoginPermission
login_permission q = record { code = q.code; is_active = q.is_active }

abbrev pub login_role : FullRole → LoginRole
login_role r = record {
  name = r.role.name;
  permissions = map login_permission r.permissions;
  is_active = r.role.is_active;
  is_admin = r.role.is_admin;
}

abbrev pub login_data : User → LoginRole → LoginData
login_data u r = record {
  id = u.id;
  role = r;
  email = u.email;
  mobile_number = u.mobile_number;
  is_active = u.is_active;
  password_expiration = u.password_expiration;
  api_key = u.api_key;
}

-- plainToInstance(AuthLoginSerialization, data); none: the role is null, a TypeError in its Transform
unfoldable pub serialization_login : FullUser → Option LoginData
serialization_login full = Option.map (λ r. login_data full.user (login_role r)) full.role

module _ (p : Platform) where
  unfoldable pub create_access_token : Payload → Handler String
  create_access_token payload = at_moment p (
      p.sign payload (record {
        secret_key = p.config.access_secret_key;
        expired_in = p.config.access_expiration_time;
        not_before = p.config.access_not_before_expiration_time;
      }))

  unfoldable pub create_refresh_token : Payload → Bool → Bool → Handler String
  create_refresh_token payload remember_me test = at_moment p (
      p.sign payload (record {
        secret_key = p.config.refresh_secret_key;
        expired_in =
            if remember_me
            then p.config.refresh_expiration_time_remember_me
            else p.config.refresh_expiration_time;
        not_before = if test then 0 else p.config.refresh_not_before_expiration_time;
      }))

  unfoldable pub validate_user : String → String → Bool
  validate_user password_string password_hash = p.compare_sync password_string password_hash

  -- the login date is the one that is given, or the time
  unfoldable pub create_payload_access_token : LoginData → Bool → Option ℕ → Handler AccessPayload
  create_payload_access_token safe remember_me none = do
    date ← now p
    pure (record { login = safe; remember_me = remember_me; login_date = date })
  create_payload_access_token safe remember_me (some date) =
      pure (record { login = safe; remember_me = remember_me; login_date = date })

  unfoldable pub create_payload_refresh_token : LoginData → Bool → Option ℕ → RefreshPayload
  create_payload_refresh_token safe remember_me date = record {
    id = safe.id;
    remember_me = remember_me;
    login_date = date;
  }

  unfoldable pub create_password : String → Handler AuthPassword
  create_password password = do
    salt ← at_moment p (p.gen_salt p.config.salt_length)
    today ← now p
    pure (record {
      salt = salt;
      password_hash = p.hash_sync password salt;
      password_expiration = today + p.config.expired_in_ms;
    })

  unfoldable pub check_password_expired : ℕ → Handler Bool
  check_password_expired password_expiration = do
    today ← now p
    pure (ltb password_expiration today)

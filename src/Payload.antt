-- ===== src/Payload.antt =====
-- What the JWTs carry: auth/serialization/auth.login.serialization.ts and the two payloads of
-- auth/service/auth.service.ts.
use openapi_nestjs_auth_mong.Prelude.{ℕ, String, Bool, Option, List}

pub record LoginPermission : Type 0 where
  pub code : String
  pub is_active : Bool

pub record LoginRole : Type 0 where
  pub name : String
  pub permissions : List LoginPermission
  pub is_active : Bool
  pub is_admin : Bool

-- AuthLoginSerialization: what is left of a user when the excluded properties are dropped.
pub record LoginData : Type 0 where
  pub id : String
  pub role : LoginRole
  pub email : String
  pub mobile_number : Option String
  pub is_active : Bool
  pub password_expiration : ℕ
  pub api_key : List String

pub record AccessPayload : Type 0 where
  pub login : LoginData
  pub remember_me : Bool
  pub login_date : ℕ

pub record RefreshPayload : Type 0 where
  pub id : String
  pub remember_me : Bool
  pub login_date : Option ℕ

pub data Payload : Type 0 where
  access : AccessPayload → Payload
  refresh : RefreshPayload → Payload

-- IHelperJwtOptions. The two times are numbers, as `ms(...)` gives them.
pub record JwtOptions : Type 0 where
  pub secret_key : String
  pub expired_in : ℕ
  pub not_before : ℕ

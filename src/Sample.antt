-- ===== src/Sample.antt =====
-- A platform and a world that satisfy what the theorems rely on.
pub mod Store
use openapi_nestjs_auth_mong.Prelude.{
  if◌then◌else◌, ℕ, String, true, false, Option, none, some, List, [], ◌∷◌, ◌==◌,
}
use openapi_nestjs_auth_mong.Documents.{
  Permission, Role, User, ApiKey, SettingValue, text, Setting, FullUser,
}
use openapi_nestjs_auth_mong.Database.{Term, text, flag, Collection}
use openapi_nestjs_auth_mong.Payload.{LoginRole, LoginData, Payload, access}
use openapi_nestjs_auth_mong.Platform.{AuthConfig, JsonValue, text, HashedData, Platform}
use openapi_nestjs_auth_mong.Handler.{World}
use mathlib.Core.Option
use openapi_nestjs_auth_mong.Sample.Store.{listed, first}
use openapi_nestjs_auth_mong.ApiKey.Strategy.{Verified, fails}
use Prim.Native.String

abbrev pub user_field : String → User → Option Term
user_field name u =
    if name == "email"
    then some (text u.email)
    else if name == "role"
    then some (text u.role)
    else if name == "_id"
    then some (text u.id)
    else if name == "firstName"
    then some (text u.first_name)
    else none

abbrev pub role_field : String → Role → Option Term
role_field name r =
    if name == "name" then some (text r.name) else if name == "_id" then some (text r.id) else none

abbrev pub permission_field : String → Permission → Option Term
permission_field name q =
    if name == "name"
    then some (text q.name)
    else if name == "code"
    then some (text q.code)
    else if name == "isActive"
    then some (flag q.is_active)
    else none

abbrev pub api_key_field : String → ApiKey → Option Term
api_key_field name k = if name == "key" then some (text k.key) else none

abbrev pub setting_field : String → Setting → Option Term
setting_field name s = if name == "name" then some (text s.name) else none

abbrev pub users : Collection User
users = listed (λ (u : User). u.id) user_field

abbrev pub roles : Collection Role
roles = listed (λ (r : Role). r.id) role_field

abbrev pub settings : Collection Setting
settings = listed (λ (s : Setting). s.id) setting_field

abbrev populate_user : User → List Role → List Permission → FullUser
populate_user u rs ps = record {
  user = u;
  role = Option.map (λ r. record { role = r; permissions = ps }) (roles.find_by_id u.role rs);
}

abbrev pub admin_role : LoginRole
admin_role = record {
  name = "admin";
  permissions =
      record { code = "USER_READ"; is_active = true }
      ∷ record { code = "USER_UPDATE"; is_active = true }
      ∷ record { code = "ROLE_READ"; is_active = true }
      ∷ record { code = "SETTING_READ"; is_active = true }
      ∷ record { code = "SETTING_UPDATE"; is_active = true }
      ∷ [];
  is_active = true;
  is_admin = true;
}

abbrev pub admin : LoginData
admin = record {
  id = "u0";
  role = admin_role;
  email = "admin@mail.com";
  mobile_number = none;
  is_active = true;
  password_expiration = 9000;
  api_key = [];
}

abbrev pub member : LoginData
member = record admin { id = "u1"; role = record admin_role { name = "user"; is_admin = false } }

-- the token of each of the two
abbrev verify : String → String → ℕ → Option Payload
verify secret token time =
    if token == "admin"
    then some (access (record { login = admin; remember_me = false; login_date = 5 }))
    else if token == "member"
    then some (access (record { login = member; remember_me = false; login_date = 5 }))
    else none

abbrev pub hashed : HashedData
hashed = record {
  key = some (JsonValue.text "key");
  timestamp = some (JsonValue.number 77);
  hash = some (JsonValue.text "hash");
}

abbrev pub config : AuthConfig
config = record {
  access_secret_key = "access";
  access_expiration_time = 1800000;
  access_not_before_expiration_time = 0;
  refresh_secret_key = "refresh";
  refresh_expiration_time = 604800000;
  refresh_expiration_time_remember_me = 2592000000;
  refresh_not_before_expiration_time = 1800000;
  salt_length = 8;
  expired_in_ms = 500;
  client_id = "client";
  client_secret = "secret";
}

-- A hash is the text itself, an id that is new is "new", and a moment is a millisecond.
abbrev pub platform : Platform
platform = record {
  config = config;
  production = false;
  secure_mode = true;
  upload_path = "/user";
  users = users;
  roles = roles;
  permissions = listed (λ (q : Permission). q.id) permission_field;
  api_keys = listed (λ (k : ApiKey). k.id) api_key_field;
  settings = settings;
  populate_user = populate_user;
  populate_role = λ r ps. record { role = r; permissions = ps };
  reachable = λ m. true;
  clock = λ m. m;
  new_object_id = λ m. "new";
  random_password = λ n safe prefix m. "random";
  gen_salt = λ n m. "salt";
  hash_sync = λ password salt. password;
  compare_sync = λ password hash. password == hash;
  sha256 = λ s. s;
  from_base64 = λ s. s;
  aes_decrypt = λ encrypted key iv. encrypted;
  aes_encrypt = λ d key iv. "cipher";
  json_parse = λ s. some hashed;
  to_number = λ s. if s == "77" then some 77 else some 78;
  is_mongo_id = λ s. true;
  to_lower_case = λ s. s;
  to_upper_case = λ s. s;
  sign = λ payload options m. options.secret_key;
  verify = verify;
}

abbrev pub user_one : User
user_one = record {
  id = "u1";
  first_name = "ann";
  last_name = none;
  mobile_number = none;
  email = "ann@mail.com";
  role = "r1";
  password = "old";
  password_expiration = 9000;
  salt = "salt";
  is_active = true;
  picture = none;
  api_key = [];
}

abbrev pub role_one : Role
role_one = record { id = "r1"; name = "user"; permissions = []; is_active = true; is_admin = false }

abbrev pub key_one : ApiKey
key_one = record {
  id = "k1";
  name = "one";
  description = none;
  key = "key";
  hash = "hash";
  encryption_key = "e";
  passphrase = "p";
  is_active = true;
}

abbrev pub maintenance_setting : Setting
maintenance_setting = record {
  id = "s1";
  name = "maintenance";
  description = none;
  value = SettingValue.boolean false;
}

abbrev pub world : World
world = record {
  users = user_one ∷ [];
  roles = role_one ∷ [];
  permissions = [];
  api_keys = key_one ∷ [];
  settings = maintenance_setting ∷ [];
  moment = 0;
}

-- passport settles a request by the first call
abbrev pub settle : List Verified → Verified
settle [] = fails 0
settle (v ∷ vs) = v

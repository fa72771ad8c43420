-- ===== src/Platform.antt =====
-- What the services call and the repository does not hold: the collections, bcrypt, crypto-js,
-- jsonwebtoken, the clock and the generators, with the configuration that they are used with.
-- An effect outside the process takes place at a moment, a number that grows with each effect.
use openapi_nestjs_auth_mong.Prelude.{ℕ, String, Bool, Option, List}
use openapi_nestjs_auth_mong.Documents.{Permission, Role, User, ApiKey, Setting, FullRole, FullUser}
use openapi_nestjs_auth_mong.Database.{Collection}
use openapi_nestjs_auth_mong.Payload.{Payload, JwtOptions}

-- config/auth.config.ts: the values that the process reads.
pub record AuthConfig : Type 0 where
  pub access_secret_key : String
  pub access_expiration_time : ℕ
  pub access_not_before_expiration_time : ℕ
  pub refresh_secret_key : String
  pub refresh_expiration_time : ℕ
  pub refresh_expiration_time_remember_me : ℕ
  pub refresh_not_before_expiration_time : ℕ
  pub salt_length : ℕ
  pub expired_in_ms : ℕ
  pub client_id : String
  pub client_secret : String

-- A property of a parsed JSON object.
pub data JsonValue : Type 0 where
  text : String → JsonValue
  number : ℕ → JsonValue
  other : JsonValue

-- The decrypted API key, IApiKeyAuthRequestHashedData as it arrives: a property may be missing.
pub record HashedData : Type 0 where
  pub key : Option JsonValue
  pub timestamp : Option JsonValue
  pub hash : Option JsonValue

pub record Platform : Type 0 where
  pub config : AuthConfig
  pub production : Bool
  pub secure_mode : Bool
  pub upload_path : String
  pub users : Collection User
  pub roles : Collection Role
  pub permissions : Collection Permission
  pub api_keys : Collection ApiKey
  pub settings : Collection Setting
  pub populate_user : User → List Role → List Permission → FullUser
  -- `populate` of the role alone: the permissions stay references
  pub populate_role : Role → List Permission → FullRole
  -- whether the database answers at a moment
  pub reachable : ℕ → Bool
  -- the time at a moment, in milliseconds
  pub clock : ℕ → ℕ
  pub new_object_id : ℕ → String
  -- faker.internet.password(length, memorable, ..., prefix)
  pub random_password : ℕ → Bool → String → ℕ → String
  pub gen_salt : ℕ → ℕ → String
  pub hash_sync : String → String → String
  pub compare_sync : String → String → Bool
  pub sha256 : String → String
  -- Buffer.from(data, 'base64').toString('utf8')
  pub from_base64 : String → String
  -- AES.decrypt(encrypted, key, { iv }), of a text that may be undefined; none: it throws
  pub aes_decrypt : Option String → String → String → Option String
  -- AES.encrypt(JSON.stringify(data), key, { iv }).toString()
  pub aes_encrypt : HashedData → String → String → String
  -- JSON.parse; none: it throws
  pub json_parse : String → Option HashedData
  -- Number(text) for a header; none: NaN
  pub to_number : String → Option ℕ
  -- the @IsMongoId of the request DTOs
  pub is_mongo_id : String → Bool
  pub to_lower_case : String → String
  pub to_upper_case : String → String
  -- jwtService.sign(payload, options), at a moment
  pub sign : Payload → JwtOptions → ℕ → String
  -- the check of passport-jwt: the secret, the token and the time
  pub verify : String → String → ℕ → Option Payload

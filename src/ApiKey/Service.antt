-- ===== src/ApiKey/Service.antt =====
-- apikey/service/api.key.service.ts
use openapi_nestjs_auth_mong.Prelude.{
  if◌then◌else◌, ℕ, String, Bool, true, false, Option, none, some, List, [], ◌∷◌, ◌==◌, map,
}
use openapi_nestjs_auth_mong.Documents.{ApiKey}
use openapi_nestjs_auth_mong.Database.{text, equals, Filter, where_all, FindAllOptions, paged}
use openapi_nestjs_auth_mong.Platform.{JsonValue, text, HashedData, Platform}
use openapi_nestjs_auth_mong.Handler.{
  World, Handler, ◌>>=◌, ◌>>◌, pure, not_null, query, at_moment, write,
}
use mathlib.Core.Option
use openapi_nestjs_auth_mong.Helper.Text.{random, joined}

-- IApiKeyCreate
pub record ApiKeyCreate : Type 0 where
  pub name : String
  pub description : Option String
  pub key : Option String
  pub secret : Option String
  pub passphrase : Option String
  pub encryption_key : Option String

-- IApiKeyDocument: what the owner of a key is told.
pub record ApiKeySecrets : Type 0 where
  pub id : String
  pub secret : String
  pub passphrase : String
  pub encryption_key : String

-- What `findAll` selects of a key, beside its `_id`; createdAt is left out as in the documents.
pub record ApiKeySelected : Type 0 where
  pub id : String
  pub name : String
  pub key : String
  pub is_active : Bool

abbrev pub select : ApiKey → ApiKeySelected
select k = record { id = k.id; name = k.name; key = k.key; is_active = k.is_active }

abbrev pub with_api_keys : World → List ApiKey → World
with_api_keys w ks = record w { api_keys = ks }

module _ (p : Platform) where
  abbrev pub save_api_key : ApiKey → Handler (Unit {0})
  save_api_key k = write p λ w. Option.map (with_api_keys w) (p.api_keys.save k w.api_keys)

  abbrev pub api_key_by_id : String → Handler (Option ApiKey)
  api_key_by_id i = query p λ w. p.api_keys.find_by_id i w.api_keys

  unfoldable pub find_all : Filter → FindAllOptions → Handler (List ApiKeySelected)
  find_all f o = query p λ w. map select (p.api_keys.find f (paged o) w.api_keys)

  unfoldable pub get_total : Filter → Handler ℕ
  get_total f = query p λ w. p.api_keys.count_documents f w.api_keys

  unfoldable pub find_one_by_id : String → Handler (Option ApiKey)
  find_one_by_id i = api_key_by_id i

  unfoldable pub find_one : Filter → Handler (Option ApiKey)
  find_one f = query p λ w. p.api_keys.find_one f w.api_keys

  abbrev pub by_key : String → Filter
  by_key key = where_all (("key", equals (text key)) ∷ [])

  unfoldable pub find_one_by_key : String → Handler (Option ApiKey)
  find_one_by_key key = query p λ w. p.api_keys.find_one (by_key key) w.api_keys

  unfoldable pub inactive : String → Handler (Unit {0})
  inactive i = do
    found ← api_key_by_id i
    auth_api ← not_null found
    save_api_key (record auth_api { is_active = false })

  unfoldable pub active : String → Handler (Unit {0})
  active i = do
    found ← api_key_by_id i
    auth_api ← not_null found
    save_api_key (record auth_api { is_active = true })

  abbrev prefix : String
  prefix = if p.production then "production_" else "development_"

  unfoldable pub create_key : Handler String
  unfolding random
  create_key = random p 25 (record { safe = false; upper_case = true; prefix = prefix })

  unfoldable pub create_encryption_key : Handler String
  unfolding random
  create_encryption_key = random p 15 (record { safe = false; upper_case = true; prefix = prefix })

  unfoldable pub create_secret : Handler String
  unfolding random
  create_secret = random p 35 (record { safe = false; upper_case = true; prefix = "" })

  unfoldable pub create_passphrase : Handler String
  unfolding random
  create_passphrase = random p 16 (record { safe = true; upper_case = false; prefix = "" })

  unfoldable pub create_hash_api_key : String → String → String
  create_hash_api_key key secret = p.sha256 (joined key secret)

  -- sha256Compare
  unfoldable pub validate_hash_api_key : Option JsonValue → String → Bool
  validate_hash_api_key (some (JsonValue.text from_request)) hash = from_request == hash
  validate_hash_api_key _ hash = false

  -- `value ? value : await make()`
  abbrev pub or_make : Option String → Handler String → Handler String
  or_make none make = make
  or_make (some s) make = if s == "" then make else pure s

  unfoldable pub create : ApiKeyCreate → Handler ApiKeySecrets
  unfolding create_key create_secret create_passphrase create_encryption_key create_hash_api_key
  create c = do
    key ← or_make c.key create_key
    secret ← or_make c.secret create_secret
    passphrase ← or_make c.passphrase create_passphrase
    encryption_key ← or_make c.encryption_key create_encryption_key
    i ← at_moment p p.new_object_id
    save_api_key (record {
      id = i;
      name = c.name;
      description = c.description;
      key = key;
      hash = create_hash_api_key key secret;
      encryption_key = encryption_key;
      passphrase = passphrase;
      is_active = true;
    })
    pure (record {
      id = i;
      secret = secret;
      passphrase = passphrase;
      encryption_key = encryption_key;
    })

  unfoldable pub update_one_by_id : String → String → Option String → Handler (Unit {0})
  update_one_by_id i name description = do
    found ← api_key_by_id i
    auth_api ← not_null found
    save_api_key (record auth_api { name = name; description = description })

  unfoldable pub update_hash_by_id : String → Handler ApiKeySecrets
  unfolding create_secret create_passphrase create_encryption_key create_hash_api_key
  update_hash_by_id i = do
    found ← api_key_by_id i
    secret ← create_secret
    auth_api ← not_null found
    passphrase ← create_passphrase
    encryption_key ← create_encryption_key
    save_api_key (record auth_api {
      hash = create_hash_api_key auth_api.key secret;
      passphrase = passphrase;
      encryption_key = encryption_key;
    })
    pure (record {
      id = auth_api.id;
      secret = secret;
      passphrase = passphrase;
      encryption_key = encryption_key;
    })

  unfoldable pub delete_one_by_id : String → Handler (Unit {0})
  delete_one_by_id i =
      write p λ w. some (with_api_keys w (p.api_keys.find_by_id_and_delete i w.api_keys))

  unfoldable pub delete_one : Filter → Handler (Unit {0})
  delete_one f = write p λ w. some (with_api_keys w (p.api_keys.find_one_and_delete f w.api_keys))

  -- aes256Decrypt and JSON.parse
  unfoldable pub decrypt_api_key : Option String → String → String → Option HashedData
  decrypt_api_key api_key_hashed secret_key passphrase =
      Option.bind (p.aes_decrypt api_key_hashed secret_key passphrase) p.json_parse

  -- aes256Encrypt
  unfoldable pub encrypt_api_key : HashedData → String → String → String
  encrypt_api_key hashed secret_key passphrase = p.aes_encrypt hashed secret_key passphrase

  -- base64Decrypt of the two texts
  unfoldable pub create_basic_token : String → String → String
  create_basic_token client_id client_secret = p.from_base64 (joined client_id client_secret)

  -- base64Compare
  unfoldable pub validate_basic_token : String → String → Bool
  validate_basic_token client_basic_token our_basic_token = our_basic_token == client_basic_token

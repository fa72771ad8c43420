-- ===== src/Tests/Keys.antt =====
-- A key that is created, and the header that its owner sends.
use openapi_nestjs_auth_mong.Prelude.{
  if◌then◌else◌, ◌&&◌, ◌==◌, suc, true, String, ◌∷◌, [], ◌≡◌, refl, false, none, some, arith,
  eq_iff, some-inj, subst,
}
use openapi_nestjs_auth_mong.Documents.{ApiKey}
use openapi_nestjs_auth_mong.Platform.{Platform}
use openapi_nestjs_auth_mong.Handler.{World, returns}
use openapi_nestjs_auth_mong.Sample.{platform, world, settle, admin, api_key_field}
use openapi_nestjs_auth_mong.Sample.Store.{listed_cast, listed_cast-IsKeyed}
use openapi_nestjs_auth_mong.ApiKey.Service.{ApiKeyCreate, ApiKeySecrets, by_key, create}
use openapi_nestjs_auth_mong.ApiKey.Strategy.{api_key_guard}
use openapi_nestjs_auth_mong.ApiKey.Sealed.{
  client_hashed, client_header, TrimsApiKey, create-api_key_guard,
}
use openapi_nestjs_auth_mong.Payload.{AccessPayload}
use openapi_nestjs_auth_mong.Request.Headers.{Headers, Locale}
use openapi_nestjs_auth_mong.Request.Clock.{ClockConfig, timestamp_interceptor}
use openapi_nestjs_auth_mong.Helper.Split.{is_separator}
use openapi_nestjs_auth_mong.Tests.{first_settles}
use mathlib.Core.Option

abbrev asked : ApiKeyCreate
asked = record {
  name = "mine";
  description = none;
  key = some "mykey";
  secret = some "s";
  passphrase = some "p";
  encryption_key = some "e";
}

abbrev secrets : ApiKeySecrets
secrets = record { id = "new"; secret = "s"; passphrase = "p"; encryption_key = "e" }

abbrev trim_start : String → String
trim_start String.[] = ""
trim_start (String.◌∷◌ c s) = if is_separator b' ' c then trim_start s else String.◌∷◌ c s

abbrev trim_end : String → String
trim_end String.[] = ""
trim_end (String.◌∷◌ c s) =
    let rest = trim_end s in if is_separator b' ' c && rest == "" then "" else String.◌∷◌ c rest

-- a trim of spaces
abbrev trim : String → String
trim s = trim_end (trim_start s)

abbrev trimmed_key : ApiKey → ApiKey
trimmed_key k = record k {
  key = trim k.key;
  hash = trim k.hash;
  encryption_key = trim k.encryption_key;
  passphrase = trim k.passphrase;
}

trims_key : TrimsApiKey trim trimmed_key
trims_key = record {
  trims_key = λ k. refl;
  trims_hash = λ k. refl;
  trims_encryption_key = λ k. refl;
  trims_passphrase = λ k. refl;
  keeps_is_active = λ k. refl;
}

-- the platform on which the sealed text parses
abbrev sealing : Platform
sealing = record platform {
  json_parse = λ s. some (client_hashed platform "mykey" secrets 77);
  api_keys = listed_cast (λ (k : ApiKey). k.id) api_key_field trimmed_key;
}

-- the casts of the schema of the keys
abbrev after : World
unfolding create
after = record ((create sealing asked world).1) { moment = 100 }

by_its_text :
    (k : ApiKey)
    → sealing.api_keys.find_by_id "new" after.api_keys ≡ some k
    → sealing.api_keys.find_one (by_key sealing k.key) after.api_keys ≡ some k
unfolding after
by_its_text k found =
    subst (λ (q : ApiKey). sealing.api_keys.find_one (by_key sealing q.key) after.api_keys ≡ some q)
      (some-inj found) refl

create-api_key_guard_example :
    (k : ApiKey) × (sealing.api_keys.find_by_id "new" after.api_keys ≡ some k)
    × ((api_key_guard sealing settle false
          (some (client_header sealing "mykey" secrets 77))
          (some "77")
          after).0
        ≡ returns (some k))
unfolding create after Option.bind
create-api_key_guard_example =
    create-api_key_guard sealing
      (listed_cast-IsKeyed (λ (k : ApiKey). k.id) api_key_field trimmed_key (λ k. refl)) trims_key
      settle first_settles asked "mykey" world after secrets 77 "77"
      (record { opens = refl; base64 = refl }) refl refl refl
      (λ e. ground (arith, eq_iff "mykey" "", e))
      (record {
        unpadded_key = refl;
        unpadded_hash = refl;
        unpadded_encryption_key = refl;
        unpadded_passphrase = refl;
      })
      refl refl refl by_its_text refl (λ e. ground arith)

abbrev keyless : AccessPayload
keyless = record { login = admin; remember_me = false; login_date = 5 }

abbrev with_key : Headers
with_key = record {
  x_timestamp = some "77";
  x_timezone = none;
  user_agent = none;
  timestamp = none;
  timezone = none;
}

abbrev locale : Locale
locale = record { app_timezone = "UTC"; is_timezone = λ s. true; to_text = λ n. "now" }

abbrev clock_config : ClockConfig
clock_config = record { tolerance = 80; is_valid_time = λ n. true }

-- the worlds after the API key guard and after the interceptor
abbrev keyed : World
unfolding api_key_guard
keyed = (api_key_guard platform settle false (some "key:cipher") (some "77") world).1

abbrev timed : World
unfolding keyed timestamp_interceptor
timed =
    (timestamp_interceptor platform locale clock_config false with_key
      (record keyed { moment = suc (suc (suc keyed.moment)) })).1

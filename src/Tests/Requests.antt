-- ===== src/Tests/Requests.antt =====
-- The theorems on the log and the timestamps at concrete requests.
use openapi_nestjs_auth_mong.Prelude.{
  String, ◌+◌, ◌≤◌, [], ◌∷◌, ◌≡◌, ◌↔◌, Option, refl, true, false, none, some, arith, if◌then◌else◌,
  ◌==◌,
}
use openapi_nestjs_auth_mong.Handler.{returns}
use openapi_nestjs_auth_mong.Platform.{Platform}
use openapi_nestjs_auth_mong.Sample.{platform, world}
use openapi_nestjs_auth_mong.Logger.{Log, Model, Request, LoggerOptions, intercept}
use openapi_nestjs_auth_mong.Logger.Laws.{LogAfter, intercept-LogAfter}
use openapi_nestjs_auth_mong.Request.Headers.{Headers, Locale}
use openapi_nestjs_auth_mong.Request.Clock.{ClockConfig, timestamp_interceptor}
use openapi_nestjs_auth_mong.Request.Clock.Laws.{accepted_iff, zero_accepted}

abbrev model : Model String
model = record { save = λ e es. some (e ∷ es); new_object_id = λ m. "new" }

abbrev request : Request String
request = record {
  api_key = none;
  method = "POST";
  original_url = "/auth/login";
  user = none;
  id = some "1";
  body = "password";
  params = "";
}

abbrev options : Option LoggerOptions
options = some (record { description = none; tags = some ("login" ∷ []); level = none })

abbrev log : Log String
log = record { entries = []; moment = 0 }

intercept-LogAfter_example :
    ((intercept "LOGIN" options model request 200 (λ (r : String). none) (returns "tokens") log).0
      ≡ returns "tokens")
    × LogAfter model "LOGIN" options request 200
        (λ (r : String). none)
        (returns "tokens")
        log
        (intercept "LOGIN" options model request 200
          (λ (r : String). none)
          (returns "tokens")
          log).1
intercept-LogAfter_example =
    intercept-LogAfter model "LOGIN" options request 200 (λ (r : String). none) (returns "tokens")
      log

abbrev locale : Locale
locale = record { app_timezone = "UTC"; is_timezone = λ s. true; to_text = λ n. "now" }

abbrev clock_config : ClockConfig
clock_config = record { tolerance = 80; is_valid_time = λ n. true }

abbrev headers : Headers
headers = record {
  x_timestamp = some "77";
  x_timezone = none;
  user_agent = none;
  timestamp = some "77";
  timezone = none;
}

accepted_iff_example :
    ((timestamp_interceptor platform locale clock_config false headers world).0 ≡ returns headers)
    ↔ ((clock_config.is_valid_time 77 ≡ true) × (1 ≤ 77 + 80) × (77 ≤ 2 + 80))
accepted_iff_example =
    accepted_iff platform locale clock_config refl headers world "77" 76 refl refl

-- the platform that reads "0" as a number
abbrev reads_zero : Platform
reads_zero = record platform { to_number = λ s. if s == "0" then some 0 else none }

abbrev zero_headers : Headers
zero_headers = record headers { x_timestamp = some "0"; timestamp = some "0" }

zero_accepted_example :
    (timestamp_interceptor reads_zero locale clock_config false zero_headers world).0
    ≡ returns zero_headers
zero_accepted_example =
    zero_accepted reads_zero locale clock_config refl zero_headers world "0" refl refl refl
      (ground arith) (ground arith) (ground arith)

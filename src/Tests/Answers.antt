-- ===== src/Tests/Answers.antt =====
-- The theorems on the maintenance, the time limits and the repeated headers at concrete requests.
use openapi_nestjs_auth_mong.Prelude.{
  ltb, if◌then◌else◌, ℕ, String, ◌≡◌, refl, Bool, true, false, none, some, List, [], ◌∷◌, arith,
}
use openapi_nestjs_auth_mong.Http.{service_unavailable, http, service_unavailable_error}
use openapi_nestjs_auth_mong.Documents.{SettingValue}
use openapi_nestjs_auth_mong.Handler.{World, throws}
use openapi_nestjs_auth_mong.Sample.{platform, world, maintenance_setting}
use openapi_nestjs_auth_mong.Setting.Maintenance.Routes.{
  configured, begins, literal_of, MatchesText, maintenance_refuses_all,
}
use openapi_nestjs_auth_mong.Response.Timeout.{
  Stream, emits, errors, silent, Thrown, timeout_error, Rxjs, TimesOut, Ends, answered,
  answered_custom, requests_end,
}
use openapi_nestjs_auth_mong.Request.Headers.{Headers, Locale}
use openapi_nestjs_auth_mong.Request.Clock.{ClockConfig}
use openapi_nestjs_auth_mong.Response.Echo.{
  Repeated, Sources, repeated, custom_headers, headers_repeated,
}

-- a matching by the text of the pattern alone
abbrev matching : String → String → Bool
matching pattern path = begins (String.◌∷◌ "/" (literal_of pattern)) path

matching-MatchesText : MatchesText matching
matching-MatchesText pattern path hit = hit

abbrev closed : World
closed = record world {
  settings = record maintenance_setting { value = SettingValue.boolean true } ∷ [];
}

maintenance_refuses_all_example :
    (configured matching platform "POST" "/api/account/v1/auth/login" closed).0
    ≡ throws
        (http service_unavailable service_unavailable_error "http.serverError.serviceUnavailable")
maintenance_refuses_all_example =
    maintenance_refuses_all matching matching-MatchesText platform closed
      (record maintenance_setting { value = SettingValue.boolean true }) "POST"
      "/api/account/v1/auth/login" refl refl refl refl

-- rxjs
abbrev timeout : ℕ → Stream ℕ → Stream ℕ
timeout n (emits t a) = if ltb t n then emits t a else errors n timeout_error
timeout n (errors t e) = if ltb t n then errors t e else errors n timeout_error
timeout n silent = errors n timeout_error

abbrev catch_error : (Thrown → Thrown) → Stream ℕ → Stream ℕ
catch_error f (errors t e) = errors t (f e)
catch_error f (emits t a) = emits t a
catch_error f silent = silent

abbrev rxjs : Rxjs ℕ
rxjs = record { timeout = timeout; catch_error = catch_error }

rxjs-TimesOut : TimesOut rxjs
rxjs-TimesOut = record {
  value_in_time = λ n t a h. ground arith;
  error_in_time = λ n t e h. ground arith;
  value_late = λ n t a h. ground arith;
  error_late = λ n t e h. ground arith;
  never = λ n. refl;
  value_passes = λ f t a. refl;
  error_caught = λ f t e. refl;
}

-- an answer after 45 seconds
abbrev slow : Stream ℕ
slow = emits 45000 7

requests_end_example :
    Ends 30000 slow (answered rxjs 30000 true slow)
    × Ends 60000 slow (answered_custom rxjs 30000 60000 true slow)
    × (answered rxjs 30000 false slow ≡ slow)
    × (answered_custom rxjs 30000 60000 false slow ≡ slow)
requests_end_example =
    requests_end rxjs rxjs-TimesOut 30000 60000 slow (λ e. ground arith) (λ e. ground arith)

abbrev headers : Headers
headers = record {
  x_timestamp = some "77";
  x_timezone = none;
  user_agent = none;
  timestamp = none;
  timezone = none;
}

abbrev locale : Locale
locale = record { app_timezone = "Europe/Paris"; is_timezone = λ t. true; to_text = λ n. "0" }

abbrev config : ClockConfig
config = record { tolerance = 100; is_valid_time = λ n. true }

abbrev sources : Sources
sources = record { app_language = "en"; unique = λ ls. ls; v4 = λ m. "id" }

abbrev answer : Repeated
answer = record {
  x_custom_lang = some "en";
  x_timestamp = some "77";
  x_timezone = some "Europe/Paris";
  x_request_id = some "id";
}

headers_repeated_example : (set : List (String × String)) × (custom_headers answer ≡ some set)
unfolding repeated
headers_repeated_example =
    headers_repeated platform locale config sources false none headers world answer refl

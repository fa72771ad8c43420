-- ===== src/Request/Headers.antt =====
-- utils/middleware: what the timestamp, the timezone and the user-agent middleware make of the headers
-- of a request.
use openapi_nestjs_auth_mong.Prelude.{
  ℕ, if◌then◌else◌, String, Bool, not, ◌&&◌, Option, none, some, truthy, is_some,
}
use openapi_nestjs_auth_mong.Http.{forbidden, http, request_user_agent_invalid_error}
use openapi_nestjs_auth_mong.Platform.{Platform}
use openapi_nestjs_auth_mong.Handler.{Handler, ◌>>=◌, pure, throw_if, now}

-- IRequestApp, as far as the middleware reads or writes it
pub record Headers : Type 0 where
  pub x_timestamp : Option String
  pub x_timezone : Option String
  pub user_agent : Option String
  pub timestamp : Option String
  pub timezone : Option String

-- `app.timezone`, `!!moment.tz.zone(timezone)` and `${number}`, of moment-timezone and the language
pub record Locale : Type 0 where
  pub app_timezone : String
  pub is_timezone : String → Bool
  pub to_text : ℕ → String

module _ (p : Platform) (locale : Locale) where
  -- TimestampMiddleware
  unfoldable pub timestamp : Headers → Handler Headers
  timestamp headers = do
    current ← now p
    let given =
        if not p.secure_mode && not (is_some (truthy headers.x_timestamp))
        then some (locale.to_text current)
        else headers.x_timestamp
    pure (record headers { x_timestamp = given; timestamp = given })

-- TimezoneMiddleware
unfoldable pub timezone : Locale → Headers → Headers
timezone locale headers = elim (truthy headers.x_timezone) [
  | none ↦ record headers {
    x_timezone = some locale.app_timezone;
    timezone = some locale.app_timezone;
  }
  | some zone ↦
      if locale.is_timezone zone then record headers { timezone = some zone } else record headers {
        x_timezone = some locale.app_timezone;
        timezone = some locale.app_timezone;
      }
]

module _ (p : Platform) where
  -- UserAgentMiddleware, up to the parser
  unfoldable pub user_agent : Headers → Handler (Unit {0})
  user_agent headers =
      throw_if (p.secure_mode && not (is_some (truthy headers.user_agent)))
        (http forbidden request_user_agent_invalid_error "middleware.error.userAgentInvalid")

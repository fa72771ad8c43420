-- ===== src/Request/Clock.antt =====
-- utils/request/interceptor/request.timestamp.interceptor.ts, with what it calls of
-- utils/helper/service/helper.date.service.ts and helper.number.service.ts.
pub mod Laws
use openapi_nestjs_auth_mong.Prelude.{
  ℕ, zero, suc, ◌+◌, ◌-◌, ltb, if◌then◌else◌, String, Bool, true, false, not, ◌||◌, ◌&&◌, Option,
  none, some, truthy, is_some,
}
use openapi_nestjs_auth_mong.Http.{Exception, forbidden, http, request_timestamp_invalid_error}
use openapi_nestjs_auth_mong.Platform.{Platform}
use openapi_nestjs_auth_mong.Handler.{Handler, ◌>>=◌, ◌>>◌, pure, throw, throw_if, now}
use openapi_nestjs_auth_mong.Request.Headers.{Headers, Locale}

-- `middleware.timestamp.toleranceTimeInMs`, and whether moment has a time for a number
pub record ClockConfig : Type 0 where
  pub tolerance : ℕ
  pub is_valid_time : ℕ → Bool

abbrev invalid : Exception
invalid = http forbidden request_timestamp_invalid_error "middleware.error.timestampInvalid"

module _ (p : Platform) where
  -- HelperDateService.create({ date }): a date of 0 is falsy, and the time is that of the clock.
  unfoldable pub create_date : ℕ → Handler ℕ
  create_date zero = now p
  create_date (suc n) = pure (suc n)

  -- forwardInMilliseconds and backwardInMilliseconds with no `fromDate`. A time before 0 stands as 0.
  unfoldable pub forward_in_milliseconds : ℕ → Handler ℕ
  forward_in_milliseconds ms = do current ← now p; pure (current + ms)

  unfoldable pub backward_in_milliseconds : ℕ → Handler ℕ
  backward_in_milliseconds ms = do current ← now p; pure (current - ms)

module _ (p : Platform) (locale : Locale) (config : ClockConfig) where
  -- checkTimestamp(create(reqTs)); NaN is no time
  abbrev check_timestamp : Option ℕ → Bool
  check_timestamp none = false
  check_timestamp (some n) = config.is_valid_time n

  -- the two bounds
  unfoldable pub within_tolerance : ℕ → Handler (Unit {0})
  unfolding create_date forward_in_milliseconds backward_in_milliseconds
  within_tolerance n = do
    sent ← create_date p n
    least ← backward_in_milliseconds p config.tolerance
    most ← forward_in_milliseconds p config.tolerance
    throw_if (ltb sent least || ltb most sent) invalid

  abbrev secured : Option String → Handler (Unit {0})
  secured none = throw invalid
  secured (some text) = elim (p.to_number text) [
    | none ↦ throw invalid
    | some n ↦ if config.is_valid_time n then within_tolerance n else throw invalid
  ]

  -- RequestTimestampInterceptor, up to `next.handle()`; `excluded` is the metadata of the handler
  unfoldable pub timestamp_interceptor : Bool → Headers → Handler Headers
  unfolding within_tolerance
  timestamp_interceptor excluded headers = do current ← now p; stamped current
    where
      given : String → Headers
      given text = record headers { x_timestamp = some text; timestamp = some text }

      stamped : ℕ → Handler Headers
      stamped current =
          if not excluded && p.secure_mode
          then secured (truthy headers.x_timestamp) >> pure headers
          else pure (
              given (elim (truthy headers.x_timestamp) [
                | some text ↦ text
                | none ↦ locale.to_text current
              ]))

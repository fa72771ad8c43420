-- ===== src/Request/Clock/Laws.antt =====
-- Which timestamps a request may carry in the secure mode.
use openapi_nestjs_auth_mong.Prelude.{
  ℕ, suc, ◌+◌, ◌≤◌, String, ◌≡◌, ◌↔◌, true, false, some, truthy, arith,
}
use openapi_nestjs_auth_mong.Platform.{Platform}
use openapi_nestjs_auth_mong.Handler.{World, returns}
use openapi_nestjs_auth_mong.Request.Headers.{Headers, Locale}
use openapi_nestjs_auth_mong.Request.Clock.{
  ClockConfig, create_date, forward_in_milliseconds, backward_in_milliseconds, within_tolerance,
  timestamp_interceptor,
}

module _ (p : Platform) (locale : Locale) (config : ClockConfig)
    (secure : p.secure_mode ≡ true) where
  -- In the secure mode, a request to a handler that does not exclude it, with a timestamp that reads
  -- as the number `suc n`, is let through just when moment has a time for the number and it is within
  -- the tolerance of the clock, which is read once for each bound.
  pub accepted_iff :
      (headers : Headers) (w : World) (text : String) (n : ℕ)
      → truthy headers.x_timestamp ≡ some text
      → p.to_number text ≡ some (suc n)
      → ((timestamp_interceptor p locale config false headers w).0 ≡ returns headers) ↔ (
          (config.is_valid_time (suc n) ≡ true)
          × (p.clock (suc w.moment) ≤ suc n + config.tolerance)
          × (suc n ≤ p.clock (suc (suc w.moment)) + config.tolerance))
  unfolding timestamp_interceptor within_tolerance create_date forward_in_milliseconds
      backward_in_milliseconds
  accepted_iff headers w text n given number = ground (arith, secure)

  -- In the secure mode, a timestamp that reads as 0 is let through whatever the time, where 0 is a
  -- time and the three reads of the clock are in order and no further apart than the tolerance.
  pub zero_accepted :
      (headers : Headers) (w : World) (text : String)
      → truthy headers.x_timestamp ≡ some text
      → p.to_number text ≡ some 0
      → config.is_valid_time 0 ≡ true
      → p.clock (suc w.moment) ≤ p.clock (suc (suc w.moment))
      → p.clock (suc (suc w.moment)) ≤ p.clock (suc (suc (suc w.moment)))
      → p.clock (suc (suc w.moment)) ≤ p.clock (suc w.moment) + config.tolerance
      → (timestamp_interceptor p locale config false headers w).0 ≡ returns headers
  unfolding timestamp_interceptor within_tolerance create_date forward_in_milliseconds
      backward_in_milliseconds
  zero_accepted headers w text given number valid first second near = ground (arith, secure)

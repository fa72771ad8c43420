-- ===== src/Helper/Date/Laws.antt =====
-- Going forward and back again in time.
use openapi_nestjs_auth_mong.Prelude.{ℕ, ◌+◌, ◌*◌, ◌≤◌, String, ◌≡◌, Option, some, arith}
use openapi_nestjs_auth_mong.Helper.Date.{
  Moment, Span, ms, s, m, text_or, forward, backward, forward_in_milliseconds,
  backward_in_milliseconds, forward_in_seconds, backward_in_seconds, forward_in_minutes,
  backward_in_minutes,
}

-- What moment documents of a span of a fixed size, in milliseconds: adding and subtracting move a
-- date by exactly so much, in any timezone.
pub record IsExact {M N F : Type 0} (moment : Moment M N F) (span : Span) (size : ℕ) : Type 0 where
  pub kept : (date : ℕ) (zone : String) → moment.to_date (moment.tz date zone) ≡ date
  pub added : (t : M) (n : ℕ) → moment.to_date (moment.add t n span) ≡ moment.to_date t + n * size
  pub subtracted :
      (t : M) (n : ℕ)
      → n * size ≤ moment.to_date t
      → moment.to_date (moment.subtract t n span) + n * size ≡ moment.to_date t

module _ {M N F : Type 0} (moment : Moment M N F) (timezone : String) (current : ℕ) where
  back_again :
      (span : Span) (size : ℕ)
      → IsExact moment span size
      → (n date : ℕ) (zone there : Option String)
      → backward moment timezone current span n
          (some (forward moment timezone current span n (some date) zone))
          there
        ≡ date
  back_again span size exact n date zone there =
      let start = moment.tz date (text_or zone timezone) in
      let moved = moment.to_date (moment.add start n span) in
      let later = moment.tz moved (text_or there timezone) in
      let same = exact.kept moved (text_or there timezone) in
      let first = exact.kept date (text_or zone timezone) in
      let sum = exact.added start n in
      omega (arith, exact.subtracted later n (omega (arith, same, first, sum)), same, first, sum)

  -- Where milliseconds, seconds and minutes are spans of a fixed size: to go forward from a date by a
  -- number of them, and backward by the same number, in this timezone or another, gives the date.
  pub forward-backward :
      IsExact moment ms 1
      → IsExact moment s 1000
      → IsExact moment m 60000
      → (n date : ℕ) (zone there : Option String)
      → (backward_in_milliseconds moment timezone current n
            (some (forward_in_milliseconds moment timezone current n (some date) zone))
            there
          ≡ date)
        × (backward_in_seconds moment timezone current n
              (some (forward_in_seconds moment timezone current n (some date) zone))
              there
            ≡ date)
        × (backward_in_minutes moment timezone current n
              (some (forward_in_minutes moment timezone current n (some date) zone))
              there
            ≡ date)
  unfolding forward_in_milliseconds backward_in_milliseconds forward_in_seconds backward_in_seconds
      forward_in_minutes backward_in_minutes
  forward-backward millis secs mins n date zone there = (
    back_again ms 1 millis n date zone there,
    back_again s 1000 secs n date zone there,
    back_again m 60000 mins n date zone there,
  )

-- ===== src/Helper/Date.antt =====
-- utils/helper/service/helper.date.service.ts: HelperDateService over moment-timezone, which is a
-- parameter, and utils/request/pipe/request.add-date.pipe.ts. A date is its number of milliseconds,
-- and `current` the time of the call, which `moment.tz(undefined, ...)` reads: where a call
-- reads the clock twice, it reads the same.
pub mod Laws
use openapi_nestjs_auth_mong.Prelude.{
  if◌then◌else◌, ℤ, pos, pred_ℤ, ℕ, zero, suc, ◌+◌, ◌-◌, ◌*◌, String, ◌≡◌, refl, ap, ◌∙◌, Bool, not,
  Option, none, some, arith, is_some, truthy, ◌≤◌, ◌⊎◌, inl, inr,
}

-- the units of `add`, `subtract`, `startOf` and `endOf`
pub data Span : Type 0 where
  ms s m d month year : Span

-- ENUM_HELPER_DATE_DIFF
pub data DateDiff : Type 0 where
  milis seconds hours minutes days : DateDiff

-- moment-timezone: M is a moment in a timezone, N the numbers that a duration is read as, F a format.
pub record Moment (M N F : Type 0) : Type 0 where
  pub tz : ℕ → String → M
  pub to_date : M → ℕ
  pub value_of : M → ℕ
  pub add : M → ℕ → Span → M
  pub subtract : M → ℕ → Span → M
  pub start_of : M → Span → M
  pub end_of : M → Span → M
  pub year_of : M → ℕ
  pub with_year : M → ℕ → M
  -- the index of the month, from 0 for January; others are of the years before and after
  pub with_month : M → ℤ → M
  -- the whole years from a date
  pub years_from : M → ℕ → N
  -- moment.duration(two.diff(one)), as a unit
  pub duration : M → M → DateDiff → N
  -- moment(date, true).tz(timezone).isValid()
  pub is_valid : ℕ → String → Bool
  pub zone : String → Option String
  pub format : M → F → String
  -- ENUM_HELPER_DATE_FORMAT.DATE
  pub date_format : F

-- `options && options.x ? options.x : otherwise`, for a text, for a number and for a Date
abbrev pub text_or : Option String → String → String
text_or given otherwise = elim (truthy given) [ none ↦ otherwise | some t ↦ t ]

abbrev pub number_or : Option ℕ → ℕ → ℕ
number_or none otherwise = otherwise
number_or (some zero) otherwise = otherwise
number_or (some (suc n)) otherwise = suc n

abbrev pub value_or : {A : Type 0} → Option A → A → A
value_or none otherwise = otherwise
value_or (some a) otherwise = a

module _ {M N F : Type 0} (moment : Moment M N F) (timezone : String) (current : ℕ) where
  -- `moment.tz(options && options.timezone ? options.timezone : this.timezone)`
  abbrev here : Option String → M
  here zone = moment.tz current (text_or zone timezone)

  -- the same from a `fromDate`, a Date
  abbrev from : Option ℕ → Option String → M
  from from_date zone = moment.tz (value_or from_date current) (text_or zone timezone)

  unfoldable pub calculate_age : ℕ → Option String → N
  calculate_age date_of_birth zone = moment.years_from (here zone) date_of_birth

  -- no format, and the format of days, fall to the last branch
  unfoldable pub diff : ℕ → ℕ → Option DateDiff → Option String → N
  diff date_one date_two format zone =
      let one = moment.tz date_one (text_or zone timezone) in
      let two = moment.tz date_two (text_or zone timezone) in
      moment.duration one two (value_or format days)

  unfoldable pub check : ℕ → Option String → Bool
  check date zone = moment.is_valid date (text_or zone timezone)

  unfoldable pub check_timestamp : ℕ → Option String → Bool
  check_timestamp timestamp zone = moment.is_valid timestamp (text_or zone timezone)

  -- `!!zone`
  unfoldable pub check_timezone : String → Bool
  check_timezone zone = is_some (moment.zone zone)

  -- with a date that is a number: 0 is falsy
  unfoldable pub create : Option ℕ → Option String → ℕ
  create date zone = moment.to_date (moment.tz (number_or date current) (text_or zone timezone))

  unfoldable pub timestamp : Option ℕ → Option String → ℕ
  timestamp date zone = moment.value_of (moment.tz (number_or date current) (text_or zone timezone))

  unfoldable pub format : ℕ → Option F → Option String → String
  format date form zone =
      moment.format (moment.tz date (text_or zone timezone)) (value_or form moment.date_format)

  abbrev pub forward : Span → ℕ → Option ℕ → Option String → ℕ
  forward span n from_date zone = moment.to_date (moment.add (from from_date zone) n span)

  abbrev pub backward : Span → ℕ → Option ℕ → Option String → ℕ
  backward span n from_date zone = moment.to_date (moment.subtract (from from_date zone) n span)

  unfoldable pub forward_in_milliseconds : ℕ → Option ℕ → Option String → ℕ
  forward_in_milliseconds = forward ms

  unfoldable pub backward_in_milliseconds : ℕ → Option ℕ → Option String → ℕ
  backward_in_milliseconds = backward ms

  unfoldable pub forward_in_seconds : ℕ → Option ℕ → Option String → ℕ
  forward_in_seconds = forward s

  unfoldable pub backward_in_seconds : ℕ → Option ℕ → Option String → ℕ
  backward_in_seconds = backward s

  unfoldable pub forward_in_minutes : ℕ → Option ℕ → Option String → ℕ
  forward_in_minutes = forward m

  unfoldable pub backward_in_minutes : ℕ → Option ℕ → Option String → ℕ
  backward_in_minutes = backward m

  unfoldable pub forward_in_days : ℕ → Option ℕ → Option String → ℕ
  forward_in_days = forward d

  unfoldable pub backward_in_days : ℕ → Option ℕ → Option String → ℕ
  backward_in_days = backward d

  unfoldable pub forward_in_months : ℕ → Option ℕ → Option String → ℕ
  forward_in_months = forward month

  unfoldable pub backward_in_months : ℕ → Option ℕ → Option String → ℕ
  backward_in_months = backward month

  -- a year of 0 is falsy; `month - 1`, of a month from 1
  abbrev in_month : ℕ → Option ℕ → Option String → M
  in_month index given zone =
      let chosen = number_or given (moment.year_of (here zone)) in
      moment.with_month (moment.with_year (here zone) chosen) (pred_ℤ (pos index))

  unfoldable pub end_of_month : ℕ → Option ℕ → Option String → ℕ
  end_of_month index given zone = moment.to_date (moment.end_of (in_month index given zone) month)

  unfoldable pub start_of_month : ℕ → Option ℕ → Option String → ℕ
  start_of_month index given zone =
      moment.to_date (moment.start_of (in_month index given zone) month)

  unfoldable pub end_of_year : ℕ → Option String → ℕ
  end_of_year chosen zone =
      moment.to_date (moment.end_of (moment.with_year (here zone) chosen) year)

  unfoldable pub start_of_year : ℕ → Option String → ℕ
  start_of_year chosen zone =
      moment.to_date (moment.start_of (moment.with_year (here zone) chosen) year)

  -- RequestAddDatePipe(days), of a number
  unfoldable pub add_date_pipe : ℕ → ℕ → ℕ
  unfolding create forward_in_days
  add_date_pipe n value = forward_in_days n (some (create (some value) none)) none

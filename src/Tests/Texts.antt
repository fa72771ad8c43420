-- ===== src/Tests/Texts.antt =====
-- The theorems on the helpers, the constraints of the bodies and the probes at concrete inputs.
use openapi_nestjs_auth_mong.Prelude.{
  Bool-cases, any, keep, length, take, drop, eqb, ℕ, negsuc, ◌+◌, ◌-◌, ◌*◌, String, ◌≡◌, ◌↔◌, ◌⊎◌,
  inl, inr, refl, ap, Bool, true, false, not, none, some, List, [], ◌∷◌, ◌++◌, arith,
}
use Prim.Native.Char.{code}
use openapi_nestjs_auth_mong.Http.{Exception, failure}
use openapi_nestjs_auth_mong.Handler.{throws}
use openapi_nestjs_auth_mong.Aws.{Client}
use openapi_nestjs_auth_mong.Helper.Check.{
  Units, upper, lower, digit, special, check_email, censor, from_at, from_host, from_dot, space,
}
use openapi_nestjs_auth_mong.Helper.Check.Laws.{IsPassword}
use openapi_nestjs_auth_mong.Helper.Check.Email.{HasEmail, check_email_iff}
use openapi_nestjs_auth_mong.Request.Validation.{
  is_password_strong, is_password_medium, is_password_weak,
}
use openapi_nestjs_auth_mong.Request.Validation.Laws.{asked, strength_constraints}
use openapi_nestjs_auth_mong.Helper.Array.{Lodash, KeepsItems, In, contains_any, not_in}
use openapi_nestjs_auth_mong.Helper.Date.{Moment, Span}
use openapi_nestjs_auth_mong.Helper.Date.Laws.{IsExact}
use openapi_nestjs_auth_mong.Health.{
  Status, Indicated, result, health_check_error, fails, Call, promise, Terminus,
}
use openapi_nestjs_auth_mong.Health.Laws.{Reports, report}

-- the code units of an ASCII text
abbrev units : String → Units
units String.[] = []
units (String.◌∷◌ c t) = code c ∷ units t

check_email_iff_example :
    (check_email (units "to ann@mail.com!") ≡ true) ↔ HasEmail (units "to ann@mail.com!")
check_email_iff_example = check_email_iff (units "to ann@mail.com!")

email_found : check_email (units "to ann@mail.com!") ≡ true
unfolding check_email from_at from_host from_dot space
email_found = refl

no_email : check_email (units "ann @mail.com") ≡ false
unfolding check_email from_at from_host from_dot space
no_email = refl

censored : censor (units "08111111111") ≡ units "*******1111"
unfolding censor
censored = refl

-- a password of letters alone is not weak enough for IsPasswordWeak
weak_refused : is_password_weak none (some (units "abcdEFGH")) ≡ false
unfolding is_password_weak
weak_refused = refl

strength_constraints_example :
    ((is_password_strong none (some (units "aaAA@@123444")) ≡ true)
      ↔ IsPassword (upper ∷ lower ∷ digit ∷ special ∷ []) (asked none) (units "aaAA@@123444"))
    × ((is_password_medium none (some (units "aaAA@@123444")) ≡ true)
        ↔ IsPassword (upper ∷ lower ∷ digit ∷ []) (asked none) (units "aaAA@@123444"))
    × ((is_password_weak none (some (units "aaAA@@123444")) ≡ true)
        ↔ IsPassword (upper ∷ lower ∷ digit ∷ []) (asked none) (units "aaAA@@123444"))
strength_constraints_example = strength_constraints none (units "aaAA@@123444")

-- lodash on numbers
abbrev has : List ℕ → ℕ → Bool
has xs x = any (λ y. eqb y x) xs

abbrev lodash : Lodash ℕ
lodash = record {
  nth = λ xs i. none;
  take = λ xs n. take n xs;
  take_right = λ xs n. drop (length xs - n) xs;
  last = λ xs. none;
  head = λ xs. none;
  index_of = λ xs x. negsuc 0;
  last_index_of = λ xs x. negsuc 0;
  remove = λ xs test. (keep test xs, keep (λ x. not (test x)) xs);
  drop = λ xs n. drop n xs;
  drop_right = λ xs n. take (length xs - n) xs;
  join = λ xs t. t;
  reverse = λ xs. xs;
  uniq = λ xs. xs;
  shuffle = λ xs. xs;
  concat = λ xs ys. xs ++ ys;
  union = λ xs ys. xs ++ keep (λ y. not (has xs y)) ys;
  without = λ xs x. keep (λ y. not (eqb y x)) xs;
  xor = λ xs ys. keep (λ x. not (has ys x)) xs ++ keep (λ y. not (has xs y)) ys;
  intersection = λ xs ys. keep (λ x. has ys x) xs;
  is_equal = λ xs ys. false;
  includes = has;
  strictly_equal = eqb;
}

has_iff : (xs : List ℕ) (x : ℕ) → (has xs x ≡ true) ↔ In x xs
has_iff [] x = ground arith
has_iff (y ∷ xs) x = ground (arith, has_iff xs x)

kept_iff :
    (test : ℕ → Bool) (xs : List ℕ) (x : ℕ) → In x (keep test xs) ↔ (In x xs × (test x ≡ true))
kept_iff test [] x = ground arith
kept_iff test (y ∷ xs) x = elim (Bool-cases (test y)) [
  | inl kept ↦ ground (arith, kept_iff test xs x, λ (is : y ≡ x). ap test is)
  | inr left_out ↦ ground (arith, kept_iff test xs x, λ (is : y ≡ x). ap test is)
]

append_iff : (xs ys : List ℕ) (x : ℕ) → In x (xs ++ ys) ↔ (In x xs ⊎ In x ys)
append_iff [] ys x = ground arith
append_iff (y ∷ xs) ys x = ground (arith, append_iff xs ys x)

lodash-KeepsItems : KeepsItems lodash
lodash-KeepsItems = record {
  of_both = λ a b x. ground (arith, kept_iff (λ y. has b y) a x, has_iff b x);
  of_one = λ a b x. ground (
    arith,
    append_iff (keep (λ y. not (has b y)) a) (keep (λ y. not (has a y)) b) x,
    kept_iff (λ y. not (has b y)) a x,
    kept_iff (λ y. not (has a y)) b x,
    has_iff b x,
    has_iff a x,
  );
}

-- `in` and `notIn` at once
both_hold :
    (contains_any lodash (1 ∷ 2 ∷ []) (2 ∷ 3 ∷ []) ≡ true)
    × (not_in lodash (1 ∷ 2 ∷ []) (2 ∷ 3 ∷ []) ≡ true)
unfolding contains_any not_in
both_hold = (refl, refl)

-- moment in the timezone of Greenwich, with spans that have all a size
abbrev span_size : Span → ℕ
span_size Span.ms = 1
span_size Span.s = 1000
span_size Span.m = 60000
span_size Span.d = 86400000
span_size Span.month = 2592000000
span_size Span.year = 31536000000

abbrev moment : Moment ℕ ℕ ℕ
moment = record {
  tz = λ date zone. date;
  to_date = λ t. t;
  value_of = λ t. t;
  add = λ t n span. t + n * span_size span;
  subtract = λ t n span. t - n * span_size span;
  start_of = λ t span. t;
  end_of = λ t span. t;
  year_of = λ t. 2022;
  with_year = λ t y. t;
  with_month = λ t i. t;
  years_from = λ t date. 0;
  duration = λ one two unit. two - one;
  is_valid = λ date zone. true;
  zone = λ name. some name;
  format = λ t form. "";
  date_format = 0;
}

exactly : (span : Span) → IsExact moment span (span_size span)
exactly span = record {
  kept = λ date zone. refl;
  added = λ t n. refl;
  subtracted = λ t n h. omega arith;
}

-- S3 that does not answer, and a terminus over it
abbrev silent : Client ℕ ℕ
silent = record {
  list_buckets = λ s. none;
  list_objects = λ prefix s. none;
  get_object = λ key s. none;
  put_object = λ key content acl s. none;
  delete_object = λ key s. none;
  delete_objects = λ keys s. none;
  base_url = "";
  to_upper_case = λ t. t;
  to_locale_upper_case = λ t. t;
}

abbrev down : Status → Exception
down s = failure

abbrev check_one : List Indicated → Call Status
check_one [] = promise (throws failure)
check_one (i ∷ is) = promise (report (λ s. s) down i)

abbrev terminus : Terminus Status
terminus = record {
  check = check_one;
  ping_check = λ key. result (record { key = key; up = true });
  check_heap = λ key n. result (record { key = key; up = true });
  check_rss = λ key n. fails failure;
  check_storage = λ key n path. health_check_error "full" (record { key = key; up = false });
}

terminus-Reports : Reports terminus (λ s. s) down
terminus-Reports = record {
  when_up = λ s. refl;
  when_down = λ message s. refl;
  when_failing = λ e. refl;
}

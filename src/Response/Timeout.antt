-- ===== src/Response/Timeout.antt =====
-- utils/response/interceptor/response.timeout.interceptor.ts. What `timeout` and `catchError` of rxjs
-- do is a parameter, and so is `ms`.
use openapi_nestjs_auth_mong.Prelude.{
  Bool-cases, ltb, if◌then◌else◌, ℕ, ◌<◌, ◌≡◌, ◌≢◌, sym, subst, refl, ap, ◌∙◌, Bool, true, false,
  arith, inl, inr,
}
use openapi_nestjs_auth_mong.Http.{Exception, http, request_timeout, request_timeout_error}

-- what a stream fails with: the TimeoutError of rxjs or another error
pub data Thrown : Type 0 where
  timeout_error : Thrown
  exception : Exception → Thrown

-- The answer of a handler: a value or an error after so many milliseconds, or never.
pub data Stream (A : Type 0) : Type 0 where
  emits : ℕ → A → Stream A
  errors : ℕ → Thrown → Stream A
  silent : Stream A

pub record Rxjs (A : Type 0) : Type 0 where
  pub timeout : ℕ → Stream A → Stream A
  -- the error that the selector throws, or gives to `throwError`
  pub catch_error : (Thrown → Thrown) → Stream A → Stream A

-- the selector of `catchError`
abbrev pub on_timeout : Thrown → Thrown
on_timeout timeout_error =
    exception (http request_timeout request_timeout_error "http.clientError.requestTimeOut")
on_timeout (exception e) = exception e

module _ {A : Type 0} (rxjs : Rxjs A) where
  abbrev limited : ℕ → Stream A → Stream A
  limited n handled = rxjs.catch_error on_timeout (rxjs.timeout n handled)

  -- ResponseTimeoutInterceptor(seconds), where `ms(seconds)` is given
  unfoldable pub timeout_interceptor : ℕ → Bool → Stream A → Stream A
  timeout_interceptor n is_http handled = if is_http then limited n handled else handled

  -- ResponseTimeoutDefaultInterceptor: the metadata of ResponseTimeout, and the configured time
  unfoldable pub timeout_default_interceptor : ℕ → Bool → Bool → Stream A → Stream A
  timeout_default_interceptor n is_http custom_timeout handled =
      if is_http then if custom_timeout then handled else limited n handled else handled

  -- A handler under the global interceptor, with or without the decorator ResponseTimeout, which sets
  -- the metadata and adds its own.
  abbrev pub answered : ℕ → Bool → Stream A → Stream A
  answered n is_http handled = timeout_default_interceptor n is_http false handled

  abbrev pub answered_custom : ℕ → ℕ → Bool → Stream A → Stream A
  answered_custom n custom is_http handled =
      timeout_default_interceptor n is_http true (timeout_interceptor custom is_http handled)

-- What rxjs documents, which leaves open what wins at the very moment of the limit.
pub record TimesOut {A : Type 0} (rxjs : Rxjs A) : Type 0 where
  pub value_in_time : (n t : ℕ) (a : A) → t < n → rxjs.timeout n (emits t a) ≡ emits t a
  pub error_in_time : (n t : ℕ) (e : Thrown) → t < n → rxjs.timeout n (errors t e) ≡ errors t e
  pub value_late : (n t : ℕ) (a : A) → n < t → rxjs.timeout n (emits t a) ≡ errors n timeout_error
  pub error_late :
      (n t : ℕ) (e : Thrown) → n < t → rxjs.timeout n (errors t e) ≡ errors n timeout_error
  pub never : (n : ℕ) → rxjs.timeout n silent ≡ errors n timeout_error
  pub value_passes :
      (f : Thrown → Thrown) (t : ℕ) (a : A) → rxjs.catch_error f (emits t a) ≡ emits t a
  pub error_caught :
      (f : Thrown → Thrown) (t : ℕ) (e : Thrown) → rxjs.catch_error f (errors t e) ≡ errors t (f e)

-- the stream that ends at a moment in the refusal 408
abbrev pub refused_at : {A : Type 0} → ℕ → Stream A
refused_at t =
    errors t
      (exception (http request_timeout request_timeout_error "http.clientError.requestTimeOut"))

-- How a request with a limit of so many milliseconds may end, by its handler.
pub data Ends {A : Type 0} (n : ℕ) : Stream A → Stream A → Type 0 where
  value : (t : ℕ) (a : A) → t < n → Ends n (emits t a) (emits t a)
  error : (t : ℕ) (e : Exception) → t < n → Ends n (errors t (exception e)) (errors t (exception e))
  own_timeout : (t : ℕ) → t < n → Ends n (errors t timeout_error) (refused_at t)
  late_value : (t : ℕ) (a : A) → n < t → Ends n (emits t a) (refused_at n)
  late_error : (t : ℕ) (e : Thrown) → n < t → Ends n (errors t e) (refused_at n)
  no_answer : Ends n silent (refused_at n)

-- The handler does not answer at the very moment of the limit.
abbrev pub Misses : {A : Type 0} → ℕ → Stream A → Type 0
Misses n (emits t a) = n ≢ t
Misses n (errors t e) = n ≢ t
Misses n silent = Unit

module _ {A : Type 0} (rxjs : Rxjs A) (times : TimesOut rxjs) where
  limited_value : (n t : ℕ) (a : A) → n ≢ t → Ends n (emits t a) (limited rxjs n (emits t a))
  limited_value n t a miss = elim (Bool-cases (ltb t n)) [
    | inl early ↦
        let before : t < n = ground arith in
        subst (Ends n (emits t a))
          (sym (
            ap (rxjs.catch_error on_timeout) (times.value_in_time n t a before)
            ∙ times.value_passes on_timeout t a))
          (value t a before)
    | inr late ↦
        let after : n < t = ground (arith, miss) in
        subst (Ends n (emits t a))
          (sym (
            ap (rxjs.catch_error on_timeout) (times.value_late n t a after)
            ∙ times.error_caught on_timeout n timeout_error))
          (late_value t a after)
  ]

  caught_in_time :
      (n t : ℕ) (e : Thrown) → t < n → limited rxjs n (errors t e) ≡ errors t (on_timeout e)
  caught_in_time n t e before =
      ap (rxjs.catch_error on_timeout) (times.error_in_time n t e before)
      ∙ times.error_caught on_timeout t e

  ended_in_time :
      (n t : ℕ) (e : Thrown) → t < n → Ends {A = A} n (errors t e) (errors t (on_timeout e))
  ended_in_time n t timeout_error before = own_timeout t before
  ended_in_time n t (exception e) before = error t e before

  limited_error : (n t : ℕ) (e : Thrown) → n ≢ t → Ends n (errors t e) (limited rxjs n (errors t e))
  limited_error n t e miss = elim (Bool-cases (ltb t n)) [
    | inl early ↦
        let before : t < n = ground arith in
        subst (Ends n (errors t e)) (sym (caught_in_time n t e before)) (ended_in_time n t e before)
    | inr late ↦
        let after : n < t = ground (arith, miss) in
        subst (Ends n (errors t e))
          (sym (
            ap (rxjs.catch_error on_timeout) (times.error_late n t e after)
            ∙ times.error_caught on_timeout n timeout_error))
          (late_error t e after)
  ]

  limited-Ends :
      (n : ℕ) (handled : Stream A) → Misses n handled → Ends n handled (limited rxjs n handled)
  limited-Ends n (emits t a) miss = limited_value n t a miss
  limited-Ends n (errors t e) miss = limited_error n t e miss
  limited-Ends n silent miss =
      subst (Ends n silent)
        (sym (
          ap (rxjs.catch_error on_timeout) (times.never n)
          ∙ times.error_caught on_timeout n timeout_error))
        no_answer

  -- Where `timeout` and `catchError` do what rxjs documents, and the handler does not answer at
  -- the very moment of a limit: a request over HTTP gets its handler's value or exception at the
  -- handler's moment, if that is before the configured time; it is refused with 408 at the
  -- configured time, if the handler is later or never answers, and earlier, if the handler itself
  -- fails with a TimeoutError of rxjs. With the decorator ResponseTimeout its own time takes the
  -- place of the configured one, be it shorter or longer. Other kinds of requests have no limit.
  pub requests_end :
      (n custom : ℕ) (handled : Stream A)
      → Misses n handled
      → Misses custom handled
      → Ends n handled (answered rxjs n true handled)
        × Ends custom handled (answered_custom rxjs n custom true handled)
        × (answered rxjs n false handled ≡ handled)
        × (answered_custom rxjs n custom false handled ≡ handled)
  unfolding timeout_interceptor timeout_default_interceptor
  requests_end n custom handled miss miss_custom =
      (limited-Ends n handled miss, limited-Ends custom handled miss_custom, refl, refl)

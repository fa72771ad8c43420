-- ===== src/Response/Echo.antt =====
-- The headers that an answer repeats: utils/response/interceptor/response.custom-headers.interceptor.ts
-- behind utils/middleware and the interceptor of the timestamp.
use openapi_nestjs_auth_mong.Prelude.{
  Option-cases, ℕ, String, ◌≡◌, ◌≢◌, inl, inr, Bool, Option, none, some, List, [], ◌∷◌, arith,
}
use openapi_nestjs_auth_mong.Platform.{Platform}
use openapi_nestjs_auth_mong.Handler.{World, Handler, ◌>>=◌, pure, at_moment, returns}
use openapi_nestjs_auth_mong.Message.Languages.{custom_language}
use openapi_nestjs_auth_mong.Request.Headers.{Headers, Locale, timestamp, timezone}
use openapi_nestjs_auth_mong.Request.Clock.{ClockConfig, timestamp_interceptor}

-- The headers of the request as they are when the answer is made.
pub record Repeated : Type 0 where
  pub x_custom_lang : Option String
  pub x_timestamp : Option String
  pub x_timezone : Option String
  pub x_request_id : Option String

-- `setHeader(name, value)`: node throws for a value that is undefined.
abbrev set_header :
    String → Option String → Option (List (String × String)) → Option (List (String × String))
set_header name none set = none
set_header name (some value) none = none
set_header name (some value) (some set) = some ((name, value) ∷ set)

-- ResponseCustomHeadersInterceptor: the headers of the answer, or none where it throws
unfoldable pub custom_headers : Repeated → Option (List (String × String))
custom_headers r = set_header "x-custom-lang" r.x_custom_lang (
    set_header "x-timestamp" r.x_timestamp
      (set_header "x-timezone" r.x_timezone (set_header "x-request-id" r.x_request_id (some []))))

-- `app.language`, `_.uniq` and the generator of uuid
pub record Sources : Type 0 where
  pub app_language : String
  pub unique : List String → List String
  pub v4 : ℕ → String

module _ (p : Platform) (locale : Locale) (config : ClockConfig) (sources : Sources) where
  -- RequestIdMiddleware
  unfoldable pub request_id : Handler String
  request_id = at_moment p sources.v4

  -- The request's way to the answer, as far as these headers go: the middleware in the order of
  -- middleware.module.ts, and the interceptor of the timestamp.
  unfoldable pub repeated : Bool → Option String → Headers → Handler Repeated
  unfolding request_id timezone timestamp timestamp_interceptor custom_language
  repeated excluded languages headers = do
    id ← request_id
    let zoned = timezone locale headers
    let language = custom_language sources.unique sources.app_language languages
    stamped ← timestamp p locale zoned
    answered ← timestamp_interceptor p locale config excluded stamped
    pure (record {
      x_custom_lang = some language;
      x_timestamp = answered.x_timestamp;
      x_timezone = answered.x_timezone;
      x_request_id = some id;
    })

  -- the four headers of a request that is let through
  has_headers :
      (excluded : Bool) (languages : Option String) (headers : Headers) (w : World) (r : Repeated)
      → (repeated excluded languages headers w).0 ≡ returns r
      → (r.x_custom_lang ≢ none)
        × (r.x_timestamp ≢ none)
        × (r.x_timezone ≢ none)
        × (r.x_request_id ≢ none)
  unfolding repeated
  has_headers excluded languages headers w r h =
      (λ e. ground arith, λ e. ground arith, λ e. ground arith, λ e. ground arith)

  -- When the answer is made to a request that the interceptor of the timestamp let through, excluded
  -- from it or not, whatever headers it came with, the interceptor that repeats the four headers in
  -- the answer does not throw.
  pub headers_repeated :
      (excluded : Bool) (languages : Option String) (headers : Headers) (w : World) (r : Repeated)
      → (repeated excluded languages headers w).0 ≡ returns r
      → (set : List (String × String)) × (custom_headers r ≡ some set)
  unfolding custom_headers
  headers_repeated excluded languages headers w r h =
      let there = has_headers excluded languages headers w r h in
      elim (Option-cases r.x_custom_lang) [
        | inl no_lang ↦ absurd (there.0 no_lang)
        | inr (lang, a) ↦ elim (Option-cases r.x_timestamp) [
          | inl no_time ↦ absurd (there.1 no_time)
          | inr (time, b) ↦ elim (Option-cases r.x_timezone) [
            | inl no_zone ↦ absurd (there.2 no_zone)
            | inr (zone, c) ↦ elim (Option-cases r.x_request_id) [
              | inl no_id ↦ absurd (there.3 no_id)
              | inr (id, d) ↦ (
                ("x-custom-lang", lang)
                    ∷ ("x-timestamp", time)
                    ∷ ("x-timezone", zone)
                    ∷ ("x-request-id", id)
                    ∷ [],
                ground arith,
              )
            ]
          ]
        ]
      ]

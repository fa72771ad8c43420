-- ===== src/ApiKey/Strategy.antt =====
-- auth/guard/api-key: ApiKeyStrategy.validate and ApiKeyGuard.
pub mod Laws
use openapi_nestjs_auth_mong.Prelude.{
  eqb, if◌then◌else◌, is_some, ℕ, String, Bool, true, false, not, ◌&&◌, ◌||◌, Option, none, some,
  List, [], ◌∷◌, ◌==◌,
}
use openapi_nestjs_auth_mong.Http.{
  unauthorized, http, auth_guard_api_key_needed_error, auth_guard_api_key_prefix_invalid_error,
  auth_guard_api_key_schema_invalid_error,
  auth_guard_api_key_timestamp_not_match_with_request_error, auth_guard_api_key_not_found_error,
  auth_guard_api_key_inactive_error, auth_guard_api_key_invalid_error,
}
use openapi_nestjs_auth_mong.Documents.{ApiKey}
use openapi_nestjs_auth_mong.Platform.{JsonValue, HashedData, Platform}
use openapi_nestjs_auth_mong.Handler.{
  Outcome, returns, throws, Handler, ◌>>=◌, ◌>>◌, pure, not_null,
}
use mathlib.Core.Option
use openapi_nestjs_auth_mong.Helper.Split.{split_first, split_second}
use openapi_nestjs_auth_mong.ApiKey.Service.{
  find_one_by_key, decrypt_api_key, validate_hash_api_key,
}

-- The `info` that passport hands to `handleRequest`: an error of passport-headerapikey, or what the
-- strategy gave to `verified`, a status code as a text or nothing.
pub data Info : Type 0 where
  missing_api_key invalid_prefix : Info
  status : ℕ → Info
  nothing : Info

-- One call of `verified(error, user, info)`.
pub record Verified : Type 0 where
  pub error : Bool
  pub user : Option ApiKey
  pub info : Info

-- `request.apiKey`
pub record RequestApiKey : Type 0 where
  pub id : String
  pub key : String
  pub name : String
  pub description : Option String

-- What `validate` has done when it ends: its calls of `verified` in order, and `request.apiKey`,
-- which ApiKeyGuard has set to {}.
pub record Validation : Type 0 where
  pub calls : List Verified
  pub request_api_key : Option RequestApiKey

-- `verified(null, null, code)`, `verified(new Error(code))` and `verified(null, authApi)`
abbrev pub fails : ℕ → Verified
fails code = record { error = false; user = none; info = status code }

abbrev pub errs : Verified
errs = record { error = true; user = none; info = nothing }

abbrev pub succeeds : ApiKey → Verified
succeeds k = record { error = false; user = some k; info = nothing }

abbrev pub only : Verified → Validation
only v = record { calls = v ∷ []; request_api_key = none }

-- `Object.keys(decrypted).includes(...)` for the three keys
abbrev pub has_keys : HashedData → Bool
has_keys d = is_some d.key && is_some d.timestamp && is_some d.hash

-- `key === decrypted.key`, and `timestamp && timestamp === decrypted.timestamp` for a number that
-- may be NaN
abbrev pub same_text : String → Option JsonValue → Bool
same_text s (some (JsonValue.text t)) = s == t
same_text s _ = false

abbrev pub same_timestamp : Option ℕ → Option JsonValue → Bool
same_timestamp (some n) (some (JsonValue.number m)) = not (eqb n 0) && eqb n m
same_timestamp _ _ = false

module _ (p : Platform) where
  -- the last branch of `validate`
  abbrev pub accept : HashedData → ApiKey → Validation
  accept decrypted auth_api =
      let known : RequestApiKey = record {
        id = auth_api.id;
        key = auth_api.key;
        name = auth_api.name;
        description = auth_api.description;
      } in
      if validate_hash_api_key p decrypted.hash auth_api.hash
      then record { calls = succeeds auth_api ∷ []; request_api_key = some known }
      else record {
        calls = fails auth_guard_api_key_invalid_error ∷ succeeds auth_api ∷ [];
        request_api_key = some known;
      }

  unfoldable pub check_decrypted : String → Option String → HashedData → ApiKey → Validation
  unfolding validate_hash_api_key
  check_decrypted key x_timestamp decrypted auth_api =
      if not (has_keys decrypted)
      then only (fails auth_guard_api_key_schema_invalid_error)
      else if not (same_text key decrypted.key)
      then only (fails auth_guard_api_key_invalid_error)
      else if not (same_timestamp (Option.bind x_timestamp p.to_number) decrypted.timestamp)
      then only errs
      else accept decrypted auth_api

  -- the X-API-KEY header and the x-timestamp header
  unfoldable pub validate : String → Option String → Handler Validation
  unfolding find_one_by_key decrypt_api_key check_decrypted
  validate api_key x_timestamp = do
    let key = split_first b':' api_key
    found ← find_one_by_key p key
    elim found [
      | none ↦ pure (only (fails auth_guard_api_key_not_found_error))
      | some auth_api ↦
          if not auth_api.is_active
          then pure (only (fails auth_guard_api_key_inactive_error))
          else not_null (
              decrypt_api_key p (split_second b':' api_key) auth_api.encryption_key
                auth_api.passphrase)
            >>= λ decrypted. pure (check_decrypted key x_timestamp decrypted auth_api)
    ]

  -- `handleRequest` on a code that is not one of passport's errors
  abbrev pub denied : ℕ → Outcome ApiKey
  denied code =
      if eqb code auth_guard_api_key_schema_invalid_error
      then throws (
          http unauthorized auth_guard_api_key_schema_invalid_error
            "auth.apiKey.error.schemaInvalid")
      else if eqb code auth_guard_api_key_timestamp_not_match_with_request_error
      then throws (
          http unauthorized auth_guard_api_key_timestamp_not_match_with_request_error
            "auth.apiKey.error.timestampNotMatchWithRequest")
      else if eqb code auth_guard_api_key_not_found_error
      then throws
          (http unauthorized auth_guard_api_key_not_found_error "auth.apiKey.error.notFound")
      else if eqb code auth_guard_api_key_inactive_error
      then throws (http unauthorized auth_guard_api_key_inactive_error "auth.apiKey.error.inactive")
      else throws (http unauthorized auth_guard_api_key_invalid_error "auth.apiKey.error.invalid")

  abbrev refused : Info → Outcome ApiKey
  refused missing_api_key =
      throws (http unauthorized auth_guard_api_key_needed_error "auth.apiKey.error.keyNeeded")
  refused invalid_prefix =
      throws (
        http unauthorized auth_guard_api_key_prefix_invalid_error "auth.apiKey.error.prefixInvalid")
  refused (status code) = denied code
  -- Number(undefined) is NaN, which is none of the codes
  refused nothing =
      throws (http unauthorized auth_guard_api_key_invalid_error "auth.apiKey.error.invalid")

  -- ApiKeyGuard.handleRequest
  unfoldable pub handle_request : Verified → Outcome ApiKey
  handle_request v = elim v.user [
    | none ↦ refused v.info
    | some user ↦ if v.error then refused v.info else returns user
  ]

  -- ApiKeyGuard: `settle` is passport, which settles the request by the calls of `verified`. A request
  -- that needs no key passes with none.
  unfoldable pub api_key_guard :
      (List Verified → Verified) → Bool → Option String → Option String → Handler (Option ApiKey)
  unfolding validate handle_request
  api_key_guard settle excluded header x_timestamp =
      if excluded || not p.secure_mode then pure none else elim header [
        | none ↦
            finish (handle_request (record { error = false; user = none; info = missing_api_key }))
        | some api_key ↦
            validate api_key x_timestamp >>= λ done. finish (handle_request (settle done.calls))
      ]
    where
      finish : Outcome ApiKey → Handler (Option ApiKey)
      finish (returns k) w = (returns (some k), w)
      finish (throws e) w = (throws e, w)

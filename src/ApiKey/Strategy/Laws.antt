-- ===== src/ApiKey/Strategy/Laws.antt =====
-- Which API keys the guard accepts, and what the client is told of the others.
use openapi_nestjs_auth_mong.Prelude.{
  Option-cases, is_some, ℕ, String, ◌≡◌, refl, subst, ◌≢◌, ◌↔◌, inl, inr, true, false, Option, none,
  some, List, [], ◌∷◌, arith, eq_iff, eq_refl,
}
use openapi_nestjs_auth_mong.Http.{
  unauthorized, http, auth_guard_api_key_schema_invalid_error, auth_guard_api_key_not_found_error,
  auth_guard_api_key_inactive_error, auth_guard_api_key_invalid_error,
}
use openapi_nestjs_auth_mong.Documents.{ApiKey}
use openapi_nestjs_auth_mong.Platform.{JsonValue, HashedData, Platform}
use openapi_nestjs_auth_mong.Handler.{World, Outcome, returns, throws}
use mathlib.Core.Option
use openapi_nestjs_auth_mong.Helper.Split.{split_first, split_second}
use openapi_nestjs_auth_mong.ApiKey.Service.{by_key, decrypt_api_key, validate_hash_api_key}
use openapi_nestjs_auth_mong.ApiKey.Strategy.{
  Verified, Validation, succeeds, errs, fails, same_text, same_timestamp, has_keys, check_decrypted,
  handle_request, api_key_guard,
}

-- passport settles a request by the first call of `verified`, later calls change nothing.
abbrev pub SettlesFirst : (List Verified → Verified) → Type 0
SettlesFirst settle = (v : Verified) (vs : List Verified) → settle (v ∷ vs) ≡ v

-- The decrypted part of the header fits the key that it names and the request's timestamp.
pub record Fits (p : Platform) (key : String) (x_timestamp : Option String) (d : HashedData)
    (k : ApiKey) : Type 0 where
  pub timestamp : ℕ
  pub same_key : d.key ≡ some (JsonValue.text key)
  pub timestamp_is : Option.bind x_timestamp p.to_number ≡ some timestamp
  pub timestamp_ne_zero : timestamp ≢ 0
  pub same_timestamp_as : d.timestamp ≡ some (JsonValue.number timestamp)
  pub same_hash : d.hash ≡ some (JsonValue.text k.hash)

module _ (p : Platform) (settle : List Verified → Verified) (first : SettlesFirst settle) where
  abbrev settled : Validation → Outcome ApiKey
  settled done = handle_request p (settle done.calls)

  accepts_fitting :
      (key : String) (x_timestamp : Option String) (d : HashedData) (k : ApiKey)
      → Fits p key x_timestamp d k
      → settled (check_decrypted p key x_timestamp d k) ≡ returns k
  unfolding check_decrypted handle_request
  accepts_fitting key x_timestamp d k f =
      ground (arith, eq_refl key, eq_refl k.hash, first (succeeds k) [])

text_is_key :
    (s : String) (o : Option JsonValue) → same_text s o ≡ true → o ≡ some (JsonValue.text s)
text_is_key s none h = cc
text_is_key s (some (JsonValue.text t)) h = ground (arith, eq_iff s t)
text_is_key s (some (JsonValue.number n)) h = cc
text_is_key s (some JsonValue.other) h = cc

timestamp_is_given :
    (t : Option ℕ) (o : Option JsonValue)
    → same_timestamp t o ≡ true
    → (n : ℕ) × (t ≡ some n) × (n ≢ 0) × (o ≡ some (JsonValue.number n))
timestamp_is_given none o h = cc
timestamp_is_given (some n) (some (JsonValue.number m)) h = (n, refl, ground arith, ground arith)
timestamp_is_given (some n) _ h = cc

module _ (p : Platform) where
  same_hash_true :
      (o : Option JsonValue) (hash : String)
      → validate_hash_api_key p o hash ≡ true
      → o ≡ some (JsonValue.text hash)
  unfolding validate_hash_api_key
  same_hash_true none hash h = cc
  same_hash_true (some (JsonValue.text t)) hash h = ground (arith, eq_iff t hash)
  same_hash_true (some (JsonValue.number n)) hash h = cc
  same_hash_true (some JsonValue.other) hash h = cc

  module _ (settle : List Verified → Verified) (first : SettlesFirst settle) where
    accepted_tests :
        (key : String) (x_timestamp : Option String) (d : HashedData) (k k' : ApiKey)
        → settled p settle first (check_decrypted p key x_timestamp d k) ≡ returns k'
        → (k ≡ k')
          × (same_text key d.key ≡ true)
          × (same_timestamp (Option.bind x_timestamp p.to_number) d.timestamp ≡ true)
          × (validate_hash_api_key p d.hash k.hash ≡ true)
    unfolding check_decrypted handle_request
    accepted_tests key x_timestamp d k k' h = ground (
      arith,
      first (succeeds k) [],
      first errs [],
      first (fails auth_guard_api_key_invalid_error) [],
      first (fails auth_guard_api_key_invalid_error) (succeeds k ∷ []),
      first (fails auth_guard_api_key_schema_invalid_error) [],
    )

    accepted_is_fitting :
        (key : String) (x_timestamp : Option String) (d : HashedData) (k k' : ApiKey)
        → settled p settle first (check_decrypted p key x_timestamp d k) ≡ returns k'
        → (k ≡ k') × Fits p key x_timestamp d k
    accepted_is_fitting key x_timestamp d k k' h =
        let (same, text_is, time_is, hash_is) = accepted_tests key x_timestamp d k k' h in
        let (n, t, ne, o) =
          timestamp_is_given (Option.bind x_timestamp p.to_number) d.timestamp time_is in
        (
          same,
          record {
            timestamp = n;
            same_key = text_is_key key d.key text_is;
            timestamp_is = t;
            timestamp_ne_zero = ne;
            same_timestamp_as = o;
            same_hash = same_hash_true d.hash k.hash hash_is;
          },
        )

-- A header that the guard accepts for the key `k`.
pub record IsAccepted (p : Platform) (header : String) (x_timestamp : Option String) (w : World)
    (k : ApiKey) : Type 0 where
  pub decrypted : HashedData
  pub found : p.api_keys.find_one (by_key p (split_first b':' header)) w.api_keys ≡ some k
  pub key_active : k.is_active ≡ true
  pub decrypts :
      decrypt_api_key p (split_second b':' header) k.encryption_key k.passphrase ≡ some decrypted
  pub fits : Fits p (split_first b':' header) x_timestamp decrypted k

module _ (p : Platform) (settle : List Verified → Verified) (first : SettlesFirst settle)
    (secure : p.secure_mode ≡ true) (header : String) (x_timestamp : Option String) (w : World)
    (up : p.reachable w.moment ≡ true) where
  guard_complete :
      (k : ApiKey)
      → IsAccepted p header x_timestamp w k
      → (api_key_guard p settle false (some header) x_timestamp w).0 ≡ returns (some k)
  unfolding api_key_guard
  guard_complete k a = ground (
    arith,
    accepts_fitting p settle first (split_first b':' header) x_timestamp a.decrypted k a.fits,
  )

  guard_decrypted :
      (k k' : ApiKey) (d : HashedData)
      → p.api_keys.find_one (by_key p (split_first b':' header)) w.api_keys ≡ some k
      → decrypt_api_key p (split_second b':' header) k.encryption_key k.passphrase ≡ some d
      → (api_key_guard p settle false (some header) x_timestamp w).0 ≡ returns (some k')
      → (k.is_active ≡ true)
        × (handle_request p
              (settle (check_decrypted p (split_first b':' header) x_timestamp d k).calls)
            ≡ returns k')
  unfolding api_key_guard
  guard_decrypted k k' d found decrypts h =
      ground (arith, first (fails auth_guard_api_key_inactive_error) [])

  guard_not_decrypted :
      (k k' : ApiKey)
      → p.api_keys.find_one (by_key p (split_first b':' header)) w.api_keys ≡ some k
      → decrypt_api_key p (split_second b':' header) k.encryption_key k.passphrase ≡ none
      → (api_key_guard p settle false (some header) x_timestamp w).0 ≢ returns (some k')
  unfolding api_key_guard
  guard_not_decrypted k k' found fails_to h =
      ground (arith, first (fails auth_guard_api_key_inactive_error) [])

  guard_not_found :
      (k' : ApiKey)
      → p.api_keys.find_one (by_key p (split_first b':' header)) w.api_keys ≡ none
      → (api_key_guard p settle false (some header) x_timestamp w).0 ≢ returns (some k')
  unfolding api_key_guard
  guard_not_found k' missing h = ground (arith, first (fails auth_guard_api_key_not_found_error) [])

  guard_sound :
      (k' : ApiKey)
      → (api_key_guard p settle false (some header) x_timestamp w).0 ≡ returns (some k')
      → IsAccepted p header x_timestamp w k'
  guard_sound k' h =
      elim (Option-cases (p.api_keys.find_one (by_key p (split_first b':' header)) w.api_keys)) [
        | inl missing ↦ absurd (guard_not_found k' missing h)
        | inr (k, found) ↦
            elim (Option-cases
              (decrypt_api_key p (split_second b':' header) k.encryption_key k.passphrase)) [
                | inl fails_to ↦ absurd (guard_not_decrypted k k' found fails_to h)
                | inr (d, decrypts) ↦
                    let (on, settled_as) = guard_decrypted k k' d found decrypts h in
                    let (same, fits) =
                      accepted_is_fitting p settle first (split_first b':' header) x_timestamp d k
                        k' settled_as in
                    subst (IsAccepted p header x_timestamp w) same (record {
                      decrypted = d;
                      found = found;
                      key_active = on;
                      decrypts = decrypts;
                      fits = fits;
                    })
              ]
      ]

  -- In secure mode, and where the database answers, ApiKeyGuard lets a request with the header pass
  -- as the key `k` exactly when `k` is the active key that the header names and the header's
  -- encrypted part, decrypted with its secrets, holds that name, the request's timestamp, not zero,
  -- and the key's hash.
  pub api_key_guard_iff :
      (k : ApiKey)
      → ((api_key_guard p settle false (some header) x_timestamp w).0 ≡ returns (some k))
        ↔ IsAccepted p header x_timestamp w k
  api_key_guard_iff k = (guard_sound k, guard_complete k)

-- A key whose one fault is the timestamp is refused with the code of an invalid key, not with the
-- code that the guard has for timestamps.
pub timestamp_mismatch_reported :
    (p : Platform) (settle : List Verified → Verified)
    → SettlesFirst settle
    → (key : String) (x_timestamp : Option String) (d : HashedData) (k : ApiKey) → has_keys d ≡ true
    → same_text key d.key ≡ true
    → same_timestamp (Option.bind x_timestamp p.to_number) d.timestamp ≡ false
    → handle_request p (settle (check_decrypted p key x_timestamp d k).calls)
      ≡ throws (http unauthorized auth_guard_api_key_invalid_error "auth.apiKey.error.invalid")
unfolding check_decrypted handle_request
timestamp_mismatch_reported p settle first key x_timestamp d k whole named late =
    ground (arith, first errs [])

-- A key whose one fault is the hash is refused too, but `request.apiKey` is set to it, and `verified`
-- is called a second time, with the key as the user.
pub wrong_hash_goes_on :
    (p : Platform) (settle : List Verified → Verified)
    → SettlesFirst settle
    → (key : String) (x_timestamp : Option String) (d : HashedData) (k : ApiKey) → has_keys d ≡ true
    → same_text key d.key ≡ true
    → same_timestamp (Option.bind x_timestamp p.to_number) d.timestamp ≡ true
    → validate_hash_api_key p d.hash k.hash ≡ false
    → (handle_request p (settle (check_decrypted p key x_timestamp d k).calls)
        ≡ throws (http unauthorized auth_guard_api_key_invalid_error "auth.apiKey.error.invalid"))
      × (is_some (check_decrypted p key x_timestamp d k).request_api_key ≡ true)
      × ((check_decrypted p key x_timestamp d k).calls
          ≡ fails auth_guard_api_key_invalid_error ∷ succeeds k ∷ [])
unfolding check_decrypted handle_request
wrong_hash_goes_on p settle first key x_timestamp d k whole named timely wrong =
    ground (arith, first (fails auth_guard_api_key_invalid_error) (succeeds k ∷ []))

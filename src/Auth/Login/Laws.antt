-- ===== src/Auth/Login/Laws.antt =====
-- When login and refresh answer with tokens, and what the tokens carry.
use openapi_nestjs_auth_mong.Prelude.{
  if◌then◌else◌, Option-cases, ℕ, suc, ◌≡◌, ◌≢◌, none, ltb, ◌↔◌, ◌⊎◌, inl, inr, Bool, true, false,
  some, arith,
}
use openapi_nestjs_auth_mong.Http.{
  Tokens, http, success, failure, bad_request, auth_password_not_match_error,
  auth_password_expired_error,
}
use openapi_nestjs_auth_mong.Documents.{User, FullRole, FullUser}
use openapi_nestjs_auth_mong.Payload.{access, refresh}
use openapi_nestjs_auth_mong.Platform.{Platform}
use openapi_nestjs_auth_mong.Handler.{World, Outcome, returns, throws}
use openapi_nestjs_auth_mong.Auth.Service.{login_role, login_data, AuthLogin}
use openapi_nestjs_auth_mong.Auth.Login.{by_email, login}

-- The user may use the API: it is active, it has a role, and the role is active.
pub record IsAllowed (full : FullUser) (role : FullRole) : Type 0 where
  pub user_active : full.user.is_active ≡ true
  pub has_role : full.role ≡ some role
  pub role_active : role.role.is_active ≡ true

-- The tokens are signed for this user, each with its own secret and times, and share a login date.
pub record AreTokens (p : Platform) (remember_me : Bool) (full : FullUser) (role : FullRole) (m : ℕ)
    (tokens : Tokens) : Type 0 where
  pub access_signed :
      tokens.access_token
      ≡ p.sign
          (access (record {
            login = login_data full.user (login_role role);
            remember_me = remember_me;
            login_date = p.clock (suc m);
          }))
          (record {
            secret_key = p.config.access_secret_key;
            expired_in = p.config.access_expiration_time;
            not_before = p.config.access_not_before_expiration_time;
          })
          (suc (suc m))
  pub refresh_signed :
      tokens.refresh_token
      ≡ p.sign
          (refresh (record {
            id = full.user.id;
            remember_me = remember_me;
            login_date = some (p.clock (suc m));
          }))
          (record {
            secret_key = p.config.refresh_secret_key;
            expired_in =
                if remember_me
                then p.config.refresh_expiration_time_remember_me
                else p.config.refresh_expiration_time;
            not_before = p.config.refresh_not_before_expiration_time;
          })
          (suc (suc (suc m)))

-- What a login that hands out tokens has checked, by whether the password has expired.
pub record Grants (p : Platform) (body : AuthLogin) (w : World) (tokens : Tokens) (expired : Bool)
    : Type 0 where
  pub user : User
  pub role : FullRole
  pub found : p.users.find_one (by_email p body.email) w.users ≡ some user
  pub password :
      p.compare_sync body.password (p.populate_user user w.roles w.permissions).user.password ≡ true
  pub allowed : IsAllowed (p.populate_user user w.roles w.permissions) role
  pub expiry :
      ltb
        (p.populate_user user w.roles w.permissions).user.password_expiration
        (p.clock (suc (suc (suc (suc w.moment)))))
      ≡ expired
  pub signed :
      AreTokens p body.remember_me (p.populate_user user w.roles w.permissions) role w.moment tokens

-- The answer with tokens: with an expired password they are in the SuccessException that is thrown.
abbrev pub handed_out : Tokens → Bool → Outcome Tokens
handed_out tokens false = returns tokens
handed_out tokens true =
    throws (success auth_password_expired_error "auth.error.passwordExpiration" tokens)

module _ (p : Platform) (body : AuthLogin) (w : World) (tokens : Tokens) where
  login_complete :
      (expired : Bool)
      → p.reachable w.moment ≡ true
      → Grants p body w tokens expired
      → (login p body w).0 ≡ handed_out tokens expired
  unfolding login
  login_complete false up g = ground arith
  login_complete true up g = ground arith

  login_missing :
      (expired : Bool)
      → p.users.find_one (by_email p body.email) w.users ≡ none
      → (login p body w).0 ≢ handed_out tokens expired
  unfolding login
  login_missing false missing h = ground arith
  login_missing true missing h = ground arith

  login_roleless :
      (expired : Bool) (user : User)
      → p.users.find_one (by_email p body.email) w.users ≡ some user
      → (p.populate_user user w.roles w.permissions).role ≡ none
      → (login p body w).0 ≢ handed_out tokens expired
  unfolding login
  login_roleless false user found gone h = ground arith
  login_roleless true user found gone h = ground arith

  login_found :
      (expired : Bool) (user : User) (role : FullRole)
      → p.users.find_one (by_email p body.email) w.users ≡ some user
      → (p.populate_user user w.roles w.permissions).role ≡ some role
      → (login p body w).0 ≡ handed_out tokens expired
      → Grants p body w tokens expired
  unfolding login
  login_found false user role found has_role h = record {
    user = user;
    role = role;
    found = found;
    password = ground arith;
    allowed = ground arith;
    expiry = ground arith;
    signed = ground arith;
  }
  login_found true user role found has_role h = record {
    user = user;
    role = role;
    found = found;
    password = ground arith;
    allowed = ground arith;
    expiry = ground arith;
    signed = ground arith;
  }

  login_sound :
      (expired : Bool)
      → (login p body w).0 ≡ handed_out tokens expired
      → Grants p body w tokens expired
  unfolding login
  login_sound expired h = elim (Option-cases (p.users.find_one (by_email p body.email) w.users)) [
    | inl missing ↦ absurd (login_missing expired missing h)
    | inr (user, found) ↦ elim (Option-cases ((p.populate_user user w.roles w.permissions).role)) [
      | inl gone ↦ absurd (login_roleless expired user found gone h)
      | inr (role, has_role) ↦ login_found expired user role found has_role h
    ]
  ]

  -- While the database answers, a login hands out tokens exactly when the account of that email
  -- has this password and is active with an active role; they are signed for this account, and
  -- share a login date. They are the answer while the password has not expired, and are thrown in
  -- a SuccessException once it has.
  pub login_iff :
      (expired : Bool)
      → p.reachable w.moment ≡ true
      → ((login p body w).0 ≡ handed_out tokens expired) ↔ Grants p body w tokens expired
  login_iff expired up = (login_sound expired, login_complete expired up)

module _ (p : Platform) (body : AuthLogin) (w : World) where
  -- Without the password of the account that the email finds, a login throws: either that the
  -- password does not match, whatever the state of the account, its role and its expiry, or an error
  -- of the database.
  pub refusal_needs_password :
      (user : User)
      → p.users.find_one (by_email p body.email) w.users ≡ some user
      → p.compare_sync body.password (p.populate_user user w.roles w.permissions).user.password
        ≡ false
      → ((login p body w).0
          ≡ throws (http bad_request auth_password_not_match_error "auth.error.passwordNotMatch"))
        ⊎ ((login p body w).0 ≡ throws failure)
  unfolding login
  refusal_needs_password user found wrong = ground arith

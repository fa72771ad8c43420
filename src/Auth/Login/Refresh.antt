-- ===== src/Auth/Login/Refresh.antt =====
-- When a refresh answers with tokens, and what these carry.
use openapi_nestjs_auth_mong.Prelude.{
  Option-cases, String, ℕ, suc, ◌≤◌, ◌≡◌, ◌↔◌, inl, inr, true, some, arith,
}
use openapi_nestjs_auth_mong.Http.{Tokens}
use openapi_nestjs_auth_mong.Documents.{User, FullRole}
use openapi_nestjs_auth_mong.Payload.{access, refresh, RefreshPayload}
use openapi_nestjs_auth_mong.Platform.{Platform}
use openapi_nestjs_auth_mong.Handler.{World, returns}
use openapi_nestjs_auth_mong.Auth.Service.{login_role, login_data}
use openapi_nestjs_auth_mong.Auth.Login.{refresh_tokens}
use openapi_nestjs_auth_mong.Auth.Login.Laws.{IsAllowed}

-- What a refresh that answers with tokens has checked, and its tokens: the access token is signed
-- for the account as it is stored now, with the login date and the rememberMe of the first login.
pub record Renews (p : Platform) (payload : RefreshPayload) (login_date : ℕ)
    (refresh_token : String) (w : World) (tokens : Tokens) : Type 0 where
  pub user : User
  pub role : FullRole
  pub found : p.users.find_by_id payload.id w.users ≡ some user
  pub allowed : IsAllowed (p.populate_user user w.roles w.permissions) role
  pub unexpired :
      p.clock (suc w.moment) ≤ (p.populate_user user w.roles w.permissions).user.password_expiration
  pub same_refresh_token : tokens.refresh_token ≡ refresh_token
  pub access_signed :
      tokens.access_token
      ≡ p.sign
          (access (record {
            login = login_data (p.populate_user user w.roles w.permissions).user (login_role role);
            remember_me = payload.remember_me;
            login_date = login_date;
          }))
          (record {
            secret_key = p.config.access_secret_key;
            expired_in = p.config.access_expiration_time;
            not_before = p.config.access_not_before_expiration_time;
          })
          (suc (suc w.moment))

module _ (p : Platform) (payload : RefreshPayload) (login_date : ℕ)
    (dated : payload.login_date ≡ some login_date) (refresh_token : String) (w : World)
    (tokens : Tokens) where
  refresh_complete :
      p.reachable w.moment ≡ true
      → Renews p payload login_date refresh_token w tokens
      → (refresh_tokens p (refresh payload) refresh_token w).0 ≡ returns tokens
  unfolding refresh_tokens
  refresh_complete up g = ground arith

  refresh_sound :
      (refresh_tokens p (refresh payload) refresh_token w).0 ≡ returns tokens
      → Renews p payload login_date refresh_token w tokens
  unfolding refresh_tokens
  refresh_sound h = elim (Option-cases (p.users.find_by_id payload.id w.users)) [
    | inl missing ↦ ground arith
    | inr (user, found) ↦ elim (Option-cases ((p.populate_user user w.roles w.permissions).role)) [
      | inl gone ↦ ground arith
      | inr (role, has_role) ↦ record {
        user = user;
        role = role;
        found = found;
        allowed = ground arith;
        unexpired = ground arith;
        same_refresh_token = ground arith;
        access_signed = ground arith;
      }
    ]
  ]

  -- While the database answers, a refresh with a payload that has a login date answers with tokens
  -- exactly when the account of the payload is still there, active, with an active role and an
  -- unexpired password. The refresh token stays, and the access token is signed for the account as
  -- it is stored now, with the login date and the rememberMe of the payload.
  pub refresh_iff :
      p.reachable w.moment ≡ true
      → ((refresh_tokens p (refresh payload) refresh_token w).0 ≡ returns tokens)
        ↔ Renews p payload login_date refresh_token w tokens
  refresh_iff up = (refresh_sound, refresh_complete up)

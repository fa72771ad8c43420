-- ===== src/Auth/Login/Admitted.antt =====
-- The tokens of a login at the guards: the access token at AuthAdminJwtGuard, and the refresh token
-- at JwtRefreshGuard.
use openapi_nestjs_auth_mong.Prelude.{
  false, if◌then◌else◌, All, ℕ, suc, ◌+◌, ◌/◌, ◌≤◌, ◌<◌, String, ◌≡◌, refl, ap, ◌∙◌, ◌↔◌, Bool,
  true, some, none, List, arith,
}
use openapi_nestjs_auth_mong.Http.{Tokens}
use openapi_nestjs_auth_mong.Documents.{User, FullRole}
use openapi_nestjs_auth_mong.Payload.{
  AccessPayload, RefreshPayload, Payload, JwtOptions, access, refresh,
}
use openapi_nestjs_auth_mong.Platform.{Platform}
use openapi_nestjs_auth_mong.Handler.{World, returns}
use openapi_nestjs_auth_mong.Auth.Service.{AuthLogin, login_data, login_role}
use openapi_nestjs_auth_mong.Auth.Guards.{auth_admin_jwt_guard, jwt_refresh_guard}
use openapi_nestjs_auth_mong.Auth.Guards.Laws as GuardsLaws
use openapi_nestjs_auth_mong.Auth.Guards.Laws.{IsAdmitted, auth_admin_jwt_guard_iff}
use openapi_nestjs_auth_mong.Auth.Login.{by_email, login}
use openapi_nestjs_auth_mong.Auth.Login.Laws.{login_iff}

-- What jsonwebtoken and passport-jwt document of a token: it is issued at the second of its signing;
-- a number in `notBefore` or `expiresIn` is a number of seconds from there, and outside of these the
-- token is refused.
pub record IsTimed (p : Platform) (payload : Payload) (options : JwtOptions) (m : ℕ) : Type 0 where
  pub accepted :
      (time : ℕ)
      → p.clock m / 1000 + options.not_before ≤ time / 1000
      → time / 1000 < p.clock m / 1000 + options.expired_in
      → p.verify options.secret_key (p.sign payload options m) time ≡ some payload
  pub early :
      (time : ℕ)
      → time / 1000 < p.clock m / 1000 + options.not_before
      → p.verify options.secret_key (p.sign payload options m) time ≡ none
  pub late :
      (time : ℕ)
      → p.clock m / 1000 + options.expired_in ≤ time / 1000
      → p.verify options.secret_key (p.sign payload options m) time ≡ none

module _ (p : Platform) where
  abbrev pub access_options : JwtOptions
  access_options = record {
    secret_key = p.config.access_secret_key;
    expired_in = p.config.access_expiration_time;
    not_before = p.config.access_not_before_expiration_time;
  }

  abbrev pub refresh_options : Bool → JwtOptions
  refresh_options remember_me = record {
    secret_key = p.config.refresh_secret_key;
    expired_in =
        if remember_me
        then p.config.refresh_expiration_time_remember_me
        else p.config.refresh_expiration_time;
    not_before = p.config.refresh_not_before_expiration_time;
  }

  -- the payloads of a login at moment `m`
  abbrev pub access_payload : AuthLogin → User → FullRole → ℕ → AccessPayload
  access_payload body user role m = record {
    login = login_data user (login_role role);
    remember_me = body.remember_me;
    login_date = p.clock (suc m);
  }

  abbrev pub refresh_payload : AuthLogin → User → ℕ → RefreshPayload
  refresh_payload body user m = record {
    id = user.id;
    remember_me = body.remember_me;
    login_date = some (p.clock (suc m));
  }

module _ (p : Platform)
    (populate : (u : User) (w : World) → (p.populate_user u w.roles w.permissions).user ≡ u)
    (body : AuthLogin) (w v : World) (tokens : Tokens) (user : User) (role : FullRole)
    (up : p.reachable w.moment ≡ true)
    (found : p.users.find_one (by_email p body.email) w.users ≡ some user)
    (has_role : (p.populate_user user w.roles w.permissions).role ≡ some role)
    (logged_in : (login p body w).0 ≡ returns tokens) where
  access_signed :
      tokens.access_token
      ≡ p.sign
          (access (access_payload p body user role w.moment))
          (access_options p)
          (suc (suc w.moment))
  access_signed =
      let g = (login_iff p body w tokens false up).0 logged_in in
      ground (arith, found, has_role, populate user w)

  refresh_signed :
      tokens.refresh_token
      ≡ p.sign
          (refresh (refresh_payload p body user w.moment))
          (refresh_options p body.remember_me)
          (suc (suc (suc w.moment)))
  refresh_signed =
      let g = (login_iff p body w tokens false up).0 logged_in in
      ground (arith, found, populate user w)

  -- While the access token of a login is in its time, it passes AuthAdminJwtGuard exactly when the
  -- role that the account had at the login is an administrator's, had an active permission for every
  -- required code, and the expiry that its password had then is not reached. The guard hands on the
  -- account and the role as they were at the login, whatever has become of them.
  pub login-auth_admin_jwt_guard :
      (codes : List String)
      → IsTimed p
          (access (access_payload p body user role w.moment))
          (access_options p)
          (suc (suc w.moment))
      → p.clock (suc (suc w.moment)) / 1000 + p.config.access_not_before_expiration_time
        ≤ p.clock v.moment / 1000
      → p.clock v.moment / 1000
        < p.clock (suc (suc w.moment)) / 1000 + p.config.access_expiration_time
      → ((auth_admin_jwt_guard p codes tokens.access_token v).0
          ≡ returns (login_data user (login_role role)))
        ↔ ((role.role.is_admin ≡ true)
            × (p.clock (suc v.moment) ≤ user.password_expiration)
            × All (GuardsLaws.Grants (login_role role).permissions) codes)
  login-auth_admin_jwt_guard codes timed begun running =
      let g = (login_iff p body w tokens false up).0 logged_in in
      let iff =
        auth_admin_jwt_guard_iff p codes tokens.access_token v
          (login_data user (login_role role)) in
      (
        λ passed. let a = iff.0 passed in (a.role_kind, a.unexpired, a.permitted),
        λ met. iff.1 (record {
          payload = access_payload p body user role w.moment;
          verified =
              ap (λ t. p.verify p.config.access_secret_key t (p.clock v.moment)) access_signed
              ∙ timed.accepted (p.clock v.moment) begun running;
          of_payload = refl;
          user_active = ground (arith, found, populate user w);
          role_active = ground (arith, found, has_role);
          unexpired = met.1;
          role_kind = met.0;
          permitted = met.2;
        }),
      )

  -- JwtRefreshGuard accepts the refresh token of a login exactly from the configured number of
  -- seconds before which it is not valid, to the number after which it is expired, and hands on its
  -- payload.
  pub login-jwt_refresh_guard :
      IsTimed p
        (refresh (refresh_payload p body user w.moment))
        (refresh_options p body.remember_me)
        (suc (suc (suc w.moment)))
      → ((jwt_refresh_guard p tokens.refresh_token v).0
          ≡ returns (refresh (refresh_payload p body user w.moment)))
        ↔ ((p.clock (suc (suc (suc w.moment))) / 1000 + p.config.refresh_not_before_expiration_time
              ≤ p.clock v.moment / 1000)
            × (p.clock v.moment / 1000
                < p.clock (suc (suc (suc w.moment))) / 1000
                  + (refresh_options p body.remember_me).expired_in))
  unfolding jwt_refresh_guard
  login-jwt_refresh_guard timed = ground (
    arith,
    refresh_signed,
    timed.accepted (p.clock v.moment),
    timed.early (p.clock v.moment),
    timed.late (p.clock v.moment),
  )

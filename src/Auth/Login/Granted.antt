-- ===== src/Auth/Login/Granted.antt =====
-- When a login is bound to answer with tokens.
use openapi_nestjs_auth_mong.Prelude.{
  false, if◌then◌else◌, ℕ, suc, ◌≤◌, String, ◌≡◌, refl, ap, ◌∙◌, true, some, List, arith,
}
use openapi_nestjs_auth_mong.Http.{Tokens}
use openapi_nestjs_auth_mong.Documents.{User, Role, Permission, FullUser, FullRole}
use openapi_nestjs_auth_mong.Payload.{access, refresh}
use openapi_nestjs_auth_mong.Platform.{Platform}
use openapi_nestjs_auth_mong.Handler.{World, returns}
use openapi_nestjs_auth_mong.Auth.Service.{AuthLogin, login_data, login_role}
use openapi_nestjs_auth_mong.Auth.Login.{by_email, login}
use openapi_nestjs_auth_mong.Auth.Login.Laws.{login_iff}

-- What a login needs of the account `i` besides its password: its email
-- finds it, and its role is there and active.
pub record CanLogin (p : Platform) (i email : String) (role : FullRole) (w : World) : Type 0 where
  pub by_its_email :
      (u : User)
      → p.users.find_by_id i w.users ≡ some u
      → p.users.find_one (by_email p email) w.users ≡ some u
  pub has_role :
      (u : User)
      → p.users.find_by_id i w.users ≡ some u
      → (p.populate_user u w.roles w.permissions).role ≡ some role
  pub role_active : role.role.is_active ≡ true

module _ (p : Platform) where
  -- the tokens that a login of the user answers with
  abbrev granted : AuthLogin → FullUser → FullRole → ℕ → Tokens
  granted body full role m = record {
    access_token =
        p.sign
          (access (record {
            login = login_data full.user (login_role role);
            remember_me = body.remember_me;
            login_date = p.clock (suc m);
          }))
          (record {
            secret_key = p.config.access_secret_key;
            expired_in = p.config.access_expiration_time;
            not_before = p.config.access_not_before_expiration_time;
          })
          (suc (suc m));
    refresh_token =
        p.sign
          (refresh (record {
            id = full.user.id;
            remember_me = body.remember_me;
            login_date = some (p.clock (suc m));
          }))
          (record {
            secret_key = p.config.refresh_secret_key;
            expired_in =
                if body.remember_me
                then p.config.refresh_expiration_time_remember_me
                else p.config.refresh_expiration_time;
            not_before = p.config.refresh_not_before_expiration_time;
          })
          (suc (suc (suc m)));
  }

module _ (p : Platform)
    (populate : (u : User) (rs : List Role) (ps : List Permission)
      → (p.populate_user u rs ps).user ≡ u) where
  pub login-granted :
      (i : String) (v : World) (body : AuthLogin) (role : FullRole) (u : User)
      → CanLogin p i body.email role v
      → p.reachable v.moment ≡ true
      → p.users.find_by_id i v.users ≡ some u
      → u.is_active ≡ true
      → p.compare_sync body.password u.password ≡ true
      → p.clock (suc (suc (suc (suc v.moment)))) ≤ u.password_expiration
      → (tokens : Tokens) × ((login p body v).0 ≡ returns tokens)
  login-granted i v body role u can up stored active accepts in_time =
      let full = p.populate_user u v.roles v.permissions in
      let is = populate u v.roles v.permissions in
      let tokens = granted p body full role v.moment in
      (
        tokens,
        (login_iff p body v tokens false up).1 (record {
          user = u;
          role = role;
          found = can.by_its_email u stored;
          password = ap (λ (t : User). p.compare_sync body.password t.password) is ∙ accepts;
          allowed = record {
            user_active = ap (λ (t : User). t.is_active) is ∙ active;
            has_role = can.has_role u stored;
            role_active = can.role_active;
          };
          expiry = ground (arith, is);
          signed = record { access_signed = refl; refresh_signed = refl };
        }),
      )

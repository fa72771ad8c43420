-- ===== src/Auth/Password/Renewed.antt =====
-- A changed password is one to log in with.
use openapi_nestjs_auth_mong.Prelude.{suc, ◌+◌, ◌≤◌, String, ◌≡◌, ap, ◌∙◌, true, some, List, arith}
use openapi_nestjs_auth_mong.Http.{Tokens}
use openapi_nestjs_auth_mong.Documents.{User, Role, Permission, FullRole}
use openapi_nestjs_auth_mong.Database.{IsKeyed}
use openapi_nestjs_auth_mong.Platform.{Platform}
use openapi_nestjs_auth_mong.Handler.{World, returns}
use openapi_nestjs_auth_mong.Auth.Service.{AuthLogin}
use openapi_nestjs_auth_mong.Auth.Login.{login}
use openapi_nestjs_auth_mong.Auth.Login.Granted.{CanLogin, login-granted}
use openapi_nestjs_auth_mong.Auth.Password.{change_password}
use openapi_nestjs_auth_mong.Auth.Password.Laws.{KeepsUser, change_password-PasswordChanged}

module _ (p : Platform) {cast : User → User} (users : IsKeyed (λ (u : User). u.id) cast p.users)
    (keeps : KeepsUser cast)
    (bcrypt : (pw salt : String) → p.compare_sync pw (p.hash_sync pw salt) ≡ true)
    (populate : (u : User) (rs : List Role) (ps : List Permission)
      → (p.populate_user u rs ps).user ≡ u) where
  -- On a keyed collection whose casts keep what guards read, where bcrypt accepts a text against its
  -- own hash and populating a user hands back that user: after a change of the password that returned,
  -- and while no user is written, a login with the new password answers with tokens, as soon as the
  -- database answers, if the account was active, its email finds it, its role is there and active,
  -- and the configured time has not passed.
  pub change_password-login :
      (old_password i : String) (w v : World) (body : AuthLogin) (role : FullRole)
      → (change_password p old_password body.password i w).0 ≡ returns tt
      → v.users ≡ (change_password p old_password body.password i w).1.users
      → CanLogin p i body.email role v
      → p.reachable v.moment ≡ true
      → ((u : User) → p.users.find_by_id i w.users ≡ some u → u.is_active ≡ true)
      → p.clock (suc (suc (suc (suc v.moment))))
        ≤ p.clock (suc (suc w.moment)) + p.config.expired_in_ms
      → (tokens : Tokens) × ((login p body v).0 ≡ returns tokens)
  change_password-login old_password i w v body role changed same can up was_active in_time =
      let done =
        change_password-PasswordChanged p users keeps bcrypt old_password body.password i w
          changed in
      login-granted p populate i v body role done.after can up
        (ap (p.users.find_by_id i) same ∙ done.now_is)
        (done.same_state ∙ was_active done.before done.was) done.accepts_new
        (ground (arith, done.expires))

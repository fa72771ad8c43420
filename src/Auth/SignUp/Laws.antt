-- ===== src/Auth/SignUp/Laws.antt =====
-- What a sign-up that answers with tokens has stored.
use openapi_nestjs_auth_mong.Prelude.{
  ℕ, ◌+◌, ◌≤◌, String, ◌≡◌, true, some, List, arith, Option-cases, inl, inr, ap, ◌∙◌, Bool,
  if◌then◌else◌, eq_refl,
}
use openapi_nestjs_auth_mong.Http.{Tokens}
use openapi_nestjs_auth_mong.Documents.{User, Role, Permission, FullRole}
use openapi_nestjs_auth_mong.Database.{IsKeyed}
use openapi_nestjs_auth_mong.Platform.{Platform}
use openapi_nestjs_auth_mong.Handler.{World, returns}
use openapi_nestjs_auth_mong.Auth.SignUp.{
  AuthSignUp, new_account, register, sign_up, issue, user_role, reject_existing,
}
use openapi_nestjs_auth_mong.Auth.Service.{AuthLogin, create_password}
use openapi_nestjs_auth_mong.Auth.Login.{login}
use openapi_nestjs_auth_mong.Auth.Login.Granted.{CanLogin, login-granted}
use openapi_nestjs_auth_mong.User.Schema.{user_pre_save}
use openapi_nestjs_auth_mong.User.Service.{new_user, check_exist}
use openapi_nestjs_auth_mong.User.Service as UserService
use openapi_nestjs_auth_mong.Role.Service as RoleService
use openapi_nestjs_auth_mong.Auth.Password.Laws.{KeepsUser}

-- The account `i` is there: active, with the role, a hash that accepts the password, and an expiry.
pub record SignedUp (p : Platform) (body : AuthSignUp) (i : String) (w w' : World) : Type 0 where
  pub account : User
  pub role : Role
  pub the_role : p.roles.find_one (user_role p) w.roles ≡ some role
  pub now_is : p.users.find_by_id i w'.users ≡ some account
  pub has_role : account.role ≡ role.id
  pub active : account.is_active ≡ true
  pub expires : account.password_expiration ≡ p.clock (6 + w.moment) + p.config.expired_in_ms
  pub accepts : p.compare_sync body.password account.password ≡ true

-- the document that the sign-up saves
abbrev pub new_document : Platform → AuthSignUp → Role → ℕ → User
new_document p body role m =
    let salt = p.gen_salt p.config.salt_length (5 + m) in
    user_pre_save p (
      new_user (p.new_object_id (7 + m)) (
        new_account body role (record {
          salt = salt;
          password_hash = p.hash_sync body.password salt;
          password_expiration = p.clock (6 + m) + p.config.expired_in_ms;
        })))

signed_up-users :
    (p : Platform) (body : AuthSignUp) (w : World) (tokens : Tokens) (role : Role) {us : List User}
    → (sign_up p body w).0 ≡ returns tokens
    → p.roles.find_one (user_role p) w.roles ≡ some role
    → p.users.save (new_document p body role w.moment) w.users ≡ some us
    → (sign_up p body w).1.users ≡ us
unfolding sign_up RoleService.find_one check_exist reject_existing register create_password
    UserService.create issue user_pre_save
signed_up-users p body w tokens role h found saved = ground arith

module _ (p : Platform) {cast : User → User} (users : IsKeyed (λ (u : User). u.id) cast p.users)
    (keeps : KeepsUser cast)
    (bcrypt : (pw salt : String) → p.compare_sync pw (p.hash_sync pw salt) ≡ true) where
  pub sign_up-SignedUp :
      (body : AuthSignUp) (w : World) (tokens : Tokens)
      → (sign_up p body w).0 ≡ returns tokens
      → SignedUp p body (p.new_object_id (7 + w.moment)) w (sign_up p body w).1
  unfolding sign_up RoleService.find_one check_exist reject_existing register create_password
      UserService.create issue user_pre_save
  sign_up-SignedUp body w tokens h = elim (Option-cases (p.roles.find_one (user_role p) w.roles)) [
    | inl missing ↦ ground arith
    | inr (role, found) ↦
        let d = new_document p body role w.moment in
        elim (Option-cases (p.users.save d w.users)) [
          | inl refused ↦ ground arith
          | inr (us, saved) ↦
              let stored = users.saved d w.users saved in
              let i = p.new_object_id (7 + w.moment) in
              record {
                account = cast d;
                role = role;
                the_role = found;
                now_is =
                    ap (p.users.find_by_id i) (signed_up-users p body w tokens role h found saved)
                    ∙ stored i
                    ∙ ap (λ (b : Bool). if b then some (cast d) else p.users.find_by_id i w.users)
                        (eq_refl i);
                has_role = keeps.keeps_role d;
                expires = keeps.keeps_password_expiration d;
                active = keeps.keeps_is_active d;
                accepts =
                    rw (keeps.keeps_password d)
                      (bcrypt body.password (p.gen_salt p.config.salt_length (5 + w.moment)));
              }
        ]
  ]

  -- On a keyed collection whose casts keep what guards read, where bcrypt accepts a text against its
  -- own hash and populating a user hands back that user: after a sign-up that answered with tokens, and
  -- while no user is written, a login with the same password answers with tokens, as soon as the
  -- database answers, if the email finds the new account, its role is there and active, and the
  -- configured time has not passed.
  pub sign_up-login :
      ((u : User) (rs : List Role) (ps : List Permission) → (p.populate_user u rs ps).user ≡ u)
      → (signing : AuthSignUp) (w v : World) (tokens : Tokens) (body : AuthLogin) (role : FullRole)
      → (sign_up p signing w).0 ≡ returns tokens
      → body.password ≡ signing.password
      → v.users ≡ (sign_up p signing w).1.users
      → CanLogin p (p.new_object_id (7 + w.moment)) body.email role v
      → p.reachable v.moment ≡ true
      → p.clock (4 + v.moment) ≤ p.clock (6 + w.moment) + p.config.expired_in_ms
      → (granted : Tokens) × ((login p body v).0 ≡ returns granted)
  sign_up-login populate signing w v tokens body role signed same_password same can up in_time =
      let done = sign_up-SignedUp signing w tokens signed in
      let i = p.new_object_id (7 + w.moment) in
      login-granted p populate i v body role done.account can up
        (ap (p.users.find_by_id i) same ∙ done.now_is) done.active
        (ap (λ t. p.compare_sync t done.account.password) same_password ∙ done.accepts)
        (ground (arith, done.expires))

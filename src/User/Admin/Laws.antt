-- ===== src/User/Admin/Laws.antt =====
-- What the deactivation of an account means for its sessions.
use openapi_nestjs_auth_mong.Prelude.{
  sym, ap, subst, ◌∙◌, some-inj, [], ◌∷◌, Option-cases, ℕ, String, Bool, ◌≡◌, ◌≢◌, inl, inr, true,
  false, none, some, List, arith, eq_iff, eq_refl,
}
use openapi_nestjs_auth_mong.Http.{Tokens, success}
use openapi_nestjs_auth_mong.Documents.{User, Role, Permission}
use openapi_nestjs_auth_mong.Database.{IsKeyed}
use openapi_nestjs_auth_mong.Payload.{RefreshPayload, refresh}
use openapi_nestjs_auth_mong.Platform.{Platform}
use openapi_nestjs_auth_mong.Handler.{
  Handler, ◌>>=◌, ◌>>◌, or_throw, unknown, World, Outcome, returns, throws, SameDocuments,
}
use openapi_nestjs_auth_mong.Handler.Rules.{past_guard}
use openapi_nestjs_auth_mong.Auth.Guards.{auth_admin_jwt_guard}
use openapi_nestjs_auth_mong.Integrity.Quiet.{admin-IsQuiet}
use openapi_nestjs_auth_mong.User.Schema.{user_pre_save}
use openapi_nestjs_auth_mong.User.Service as Service
use openapi_nestjs_auth_mong.Request.Param.{param_guard}
use openapi_nestjs_auth_mong.User.Guards.{user_update_inactive_guard}
use openapi_nestjs_auth_mong.User.Admin.{inactive}
use openapi_nestjs_auth_mong.Auth.Service.{AuthLogin}
use openapi_nestjs_auth_mong.Auth.Login.{login, refresh_tokens, by_email}
use openapi_nestjs_auth_mong.Auth.Password.Laws.{KeepsUser}

-- No tokens are handed out: neither as the answer nor in a SuccessException that is thrown.
abbrev pub HandsOutNone : Outcome Tokens → Type 0
HandsOutNone outcome =
    ((tokens : Tokens) → outcome ≢ returns tokens)
    × ((code : ℕ) (message : String) (tokens : Tokens)
        → outcome ≢ throws (success code message tokens))

-- The account `i` had the one state and has the other; the other accounts and the other collections
-- are as they were.
pub record Switched (p : Platform) (i : String) (from to : Bool) (w w' : World) : Type 0 where
  pub before : User
  pub after : User
  pub was : p.users.find_by_id i w.users ≡ some before
  pub now_is : p.users.find_by_id i w'.users ≡ some after
  pub old_state : before.is_active ≡ from
  pub new_state : after.is_active ≡ to
  pub same_password : after.password ≡ before.password
  pub same_password_expiration : after.password_expiration ≡ before.password_expiration
  pub same_salt : after.salt ≡ before.salt
  pub same_api_key : after.api_key ≡ before.api_key
  pub same_role : after.role ≡ before.role
  pub others : (j : String) → i ≢ j → p.users.find_by_id j w'.users ≡ p.users.find_by_id j w.users
  pub same_roles : w'.roles ≡ w.roles
  pub same_permissions : w'.permissions ≡ w.permissions

module _ (p : Platform) {cast : User → User} (users : IsKeyed (λ (u : User). u.id) cast p.users)
    (keeps : KeepsUser cast)
    (populate : (u : User) (rs : List Role) (ps : List Permission)
      → (p.populate_user u rs ps).user ≡ u) where
  refused_refresh :
      (v : World) (u : User) (payload : RefreshPayload) (refresh_token : String) (tokens : Tokens)
      → p.users.find_by_id payload.id v.users ≡ some u
      → u.is_active ≡ false
      → (refresh_tokens p (refresh payload) refresh_token v).0 ≢ returns tokens
  unfolding refresh_tokens
  refused_refresh v u payload refresh_token tokens found off h =
      ground (arith, populate u v.roles v.permissions)

  refused_login :
      (v : World) (u : User) (body : AuthLogin)
      → p.users.find_one (by_email p body.email) v.users ≡ some u
      → u.is_active ≡ false
      → HandsOutNone (login p body v).0
  unfolding login
  refused_login v u body found off = (
    λ tokens h. ground (arith, populate u v.roles v.permissions),
    λ code message tokens h. ground (arith, populate u v.roles v.permissions),
  )

  -- the request behind its token
  abbrev set_inactive : String → Handler (Unit {0})
  set_inactive i = do
    param_guard p i
    full ← user_update_inactive_guard p i
    or_throw (Service.inactive p full.user.id) unknown

  inactive_saved :
      (i : String) (w : World) (u : User) (us : List User)
      → p.users.find_by_id i w.users ≡ some u
      → p.users.save (user_pre_save p (record u { is_active = false })) w.users ≡ some us
      → (set_inactive i w).0 ≡ returns tt
      → Switched p i true false w (set_inactive i w).1
  unfolding param_guard user_update_inactive_guard Service.inactive user_pre_save
  inactive_saved i w u us found saved h =
      let changed = user_pre_save p (record u { is_active = false }) in
      let same = users.id_found i w.users found in
      let put = users.saved changed w.users saved in
      record {
        before = u;
        after = cast changed;
        was = found;
        now_is = ground (arith, put i, same, eq_refl i, populate u w.roles w.permissions);
        old_state = ground (arith, populate u w.roles w.permissions);
        new_state = keeps.keeps_is_active changed;
        same_password = keeps.keeps_password changed;
        same_password_expiration = keeps.keeps_password_expiration changed;
        same_salt = keeps.keeps_salt changed;
        same_api_key = keeps.keeps_api_key changed;
        same_role = keeps.keeps_role changed;
        others =
            λ j ne. ground (arith, same, put j, eq_iff u.id j, populate u w.roles w.permissions);
        same_roles = ground arith;
        same_permissions = ground arith;
      }

  inactive_missing :
      (i : String) (w : World)
      → p.users.find_by_id i w.users ≡ none
      → (set_inactive i w).0 ≢ returns tt
  unfolding param_guard user_update_inactive_guard
  inactive_missing i w missing h = ground arith

  inactive_refused :
      (i : String) (w : World) (u : User)
      → p.users.find_by_id i w.users ≡ some u
      → p.users.save (user_pre_save p (record u { is_active = false })) w.users ≡ none
      → (set_inactive i w).0 ≢ returns tt
  unfolding param_guard user_update_inactive_guard Service.inactive user_pre_save
  inactive_refused i w u found refused h =
      ground (arith, users.id_found i w.users found, populate u w.roles w.permissions)

  set_inactive-Switched :
      (i : String) (w : World)
      → (set_inactive i w).0 ≡ returns tt
      → Switched p i true false w (set_inactive i w).1
  set_inactive-Switched i w h = elim (Option-cases (p.users.find_by_id i w.users)) [
    | inl missing ↦ absurd (inactive_missing i w missing h)
    | inr (u, found) ↦
        elim (Option-cases
          (p.users.save (user_pre_save p (record u { is_active = false })) w.users)) [
            | inl refused ↦ absurd (inactive_refused i w u found refused h)
            | inr (us, saved) ↦ inactive_saved i w u us found saved h
          ]
  ]

  since_same_start :
      (i : String) (from to : Bool) (w v v' : World)
      → SameDocuments w v
      → Switched p i from to v v'
      → Switched p i from to w v'
  since_same_start i from to w v v' same s = record {
    before = s.before;
    after = s.after;
    was = rw same.0 at s.was;
    now_is = s.now_is;
    old_state = s.old_state;
    new_state = s.new_state;
    same_password = s.same_password;
    same_password_expiration = s.same_password_expiration;
    same_salt = s.same_salt;
    same_api_key = s.same_api_key;
    same_role = s.same_role;
    others = λ j ne. s.others j ne ∙ ap (p.users.find_by_id j) same.0;
    same_roles = s.same_roles ∙ same.1;
    same_permissions = s.same_permissions ∙ same.2;
  }

  -- On a keyed collection, a deactivation that returns has found an active account, and leaves it
  -- inactive, with its password, the expiry and the salt of it, its API keys and its role; the
  -- other accounts, the roles and the permissions stay as they were.
  pub admin_inactive-Switched :
      (token i : String) (w : World)
      → (inactive p token i w).0 ≡ returns tt
      → Switched p i true false w (inactive p token i w).1
  unfolding inactive
  admin_inactive-Switched token i w h =
      let guard = auth_admin_jwt_guard p ("USER_READ" ∷ "USER_UPDATE" ∷ []) token in
      let past = past_guard (set_inactive i) tt guard w h in
      let admitted = (admin-IsQuiet p ("USER_READ" ∷ "USER_UPDATE" ∷ []) token).quiet w in
      since_same_start i true false w (guard w).1 (inactive p token i w).1 admitted (
        subst (λ v. Switched p i true false (guard w).1 v) past.1
          (set_inactive-Switched i (guard w).1 past.0))

  deactivated :
      (token i : String) (w v : World)
      → (inactive p token i w).0 ≡ returns tt
      → v.users ≡ (inactive p token i w).1.users
      → (u : User) × (p.users.find_by_id i v.users ≡ some u) × (u.is_active ≡ false)
  deactivated token i w v h same =
      let s = admin_inactive-Switched token i w h in
      (s.after, ap (p.users.find_by_id i) same ∙ s.now_is, s.new_state)

  -- On a keyed collection, once a deactivation of an account has returned, and while no user is
  -- written, no refresh with a payload of that account answers with tokens.
  pub inactive_ends_refresh :
      (token : String) (payload : RefreshPayload) (w v : World) (refresh_token : String)
      (tokens : Tokens)
      → (inactive p token payload.id w).0 ≡ returns tt
      → v.users ≡ (inactive p token payload.id w).1.users
      → (refresh_tokens p (refresh payload) refresh_token v).0 ≢ returns tokens
  inactive_ends_refresh token payload w v refresh_token tokens h same =
      let (u, found, off) = deactivated token payload.id w v h same in
      refused_refresh v u payload refresh_token tokens found off

  -- On a keyed collection, once a deactivation of an account has returned, and while no user is
  -- written, no login whose email finds that account hands out tokens, neither as its answer nor
  -- in a SuccessException.
  pub inactive_ends_login :
      (token : String) (w v : World) (user : User) (body : AuthLogin)
      → (inactive p token user.id w).0 ≡ returns tt
      → v.users ≡ (inactive p token user.id w).1.users
      → p.users.find_one (by_email p body.email) v.users ≡ some user
      → HandsOutNone (login p body v).0
  inactive_ends_login token w v user body h same found =
      let (u, now_is, off) = deactivated token user.id w v h same in
      let is = some-inj (sym (users.one_stored (by_email p body.email) v.users found) ∙ now_is) in
      refused_login v user body found (ap (λ t. t.is_active) is ∙ off)

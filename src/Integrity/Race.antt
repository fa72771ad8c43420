-- ===== src/Integrity/Race.antt =====
-- Requests that interleave: the deletion of a role between the two parts of a sign-up, which read the
-- role and save the account.
use openapi_nestjs_auth_mong.Prelude.{
  Option-cases, [], ◌∷◌, ℕ, ◌+◌, ◌-◌, ◌≤◌, String, ◌≡◌, ◌≢◌, sym, ap, ◌∙◌, inl, inr, Bool, none,
  some, List, if◌then◌else◌, arith, eq_refl,
}
use openapi_nestjs_auth_mong.Http.{Tokens, http, not_found, role_not_found_error}
use openapi_nestjs_auth_mong.Documents.{Role, User, Permission, FullRole}
use openapi_nestjs_auth_mong.Platform.{Platform}
use openapi_nestjs_auth_mong.Handler.{
  World, Handler, ◌>>=◌, ◌>>◌, pure, or_fail, or_throw, unknown, returns,
}
use openapi_nestjs_auth_mong.Handler.Rules.{past_guard, past_bind}
use openapi_nestjs_auth_mong.User.Schema.{user_pre_save}
use openapi_nestjs_auth_mong.User.Service
use openapi_nestjs_auth_mong.Role.Service as RoleService
use openapi_nestjs_auth_mong.Role.Admin as RoleAdmin
use openapi_nestjs_auth_mong.Role.Guards.{role_delete_guard}
use openapi_nestjs_auth_mong.Auth.Guards.{auth_admin_jwt_guard}
use openapi_nestjs_auth_mong.Request.Param.{param_guard}
use openapi_nestjs_auth_mong.Auth.SignUp.{AuthSignUp, sign_up, register, user_role, reject_existing}
use openapi_nestjs_auth_mong.Auth.SignUp.Laws.{new_document}
use openapi_nestjs_auth_mong.Auth.SignUp.Failures.{Registered, register-Registered}
use openapi_nestjs_auth_mong.Integrity.{IsMongo, HasRoles}

module _ (p : Platform) where
  -- the part of a sign-up that reads
  unfoldable pub sign_up_start : AuthSignUp → Handler Role
  unfolding RoleService.find_one Service.check_exist reject_existing
  sign_up_start body = do
    found ← RoleService.find_one p (user_role p)
    role ← or_fail (http not_found role_not_found_error "role.error.notFound") found
    check ← Service.check_exist p body.email body.mobile_number none
    reject_existing check
    pure role

  -- the part that writes
  unfoldable pub sign_up_finish : AuthSignUp → Role → Handler Tokens
  unfolding register
  sign_up_finish body role = or_throw (register p body role) unknown

  -- with nothing between them, the parts are the sign-up
  pub parts-sign_up :
      (body : AuthSignUp) (w : World)
      → (sign_up_start body >>= sign_up_finish body) w ≡ sign_up p body w
  unfolding sign_up sign_up_start sign_up_finish
  parts-sign_up body w = ground arith

  same_role :
      ((r : Role) (ps : List Permission) → (p.populate_role r ps).role ≡ r)
      → ((i : String) (rs : List Role) (r : Role) → p.roles.find_by_id i rs ≡ some r → r.id ≡ i)
      → (i : String) (v : World) (full : FullRole) → (role_delete_guard p i v).0 ≡ returns full
      → full.role.id ≡ i
  unfolding role_delete_guard
  same_role populate ids i v full h = elim (Option-cases (p.roles.find_by_id i v.roles)) [
    | inl missing ↦ ground arith
    | inr (r, found) ↦ ground (arith, populate r v.permissions, ids i v.roles r)
  ]

  -- The role that a deletion leaves behind.
  removed :
      (i : String) (v : World)
      → (or_throw (RoleService.delete_one_by_id p i) unknown v).0 ≡ returns tt
      → (or_throw (RoleService.delete_one_by_id p i) unknown v).1.roles
        ≡ p.roles.find_by_id_and_delete i v.roles
  unfolding RoleService.delete_one_by_id
  removed i v h = ground arith

module _ (p : Platform) {user_cast : User → User} {role_cast : Role → Role}
    (mongo : IsMongo p user_cast role_cast)
    (populate : (r : Role) (ps : List Permission) → (p.populate_role r ps).role ≡ r) where
  role_gone :
      (token i : String) (w : World)
      → (RoleAdmin.delete p token i w).0 ≡ returns tt
      → p.roles.find_by_id i (RoleAdmin.delete p token i w).1.roles ≡ none
  unfolding RoleAdmin.delete
  role_gone token i w h =
      let act =
        λ (full : FullRole). or_throw (RoleService.delete_one_by_id p full.role.id) unknown in
      let (first, at_first) =
        past_guard (param_guard p i >> (role_delete_guard p i >>= act)) tt
          (auth_admin_jwt_guard p ("ROLE_READ" ∷ "ROLE_DELETE" ∷ []) token) w h in
      let v = (auth_admin_jwt_guard p ("ROLE_READ" ∷ "ROLE_DELETE" ∷ []) token w).1 in
      let (second, at_second) =
        past_guard (role_delete_guard p i >>= act) tt (param_guard p i) v first in
      let (full, guarded, done, at_third) =
        past_bind act tt (role_delete_guard p i) (param_guard p i v).1 second in
      let u = (role_delete_guard p i (param_guard p i v).1).1 in
      let same =
        same_role p populate (λ j rs r found. mongo.roles.id_found j rs found) i
          (param_guard p i v).1 full guarded in
      ap (λ (z : World). p.roles.find_by_id i z.roles) (sym (at_third ∙ at_second ∙ at_first))
      ∙ ap (p.roles.find_by_id i) (removed p full.role.id u done)
      ∙ mongo.roles.deleted full.role.id u.roles i
      ∙ ground (arith, same, eq_refl i)

module _ (p : Platform) where
  started-moment :
      (body : AuthSignUp) (w : World) (role : Role)
      → (sign_up_start p body w).0 ≡ returns role
      → (sign_up_start p body w).1.moment ≡ 5 + w.moment
  unfolding sign_up_start
  started-moment body w role h = ground arith

  guarded-moment :
      (codes : List String) (token : String) (w : World)
      → w.moment ≤ (auth_admin_jwt_guard p codes token w).1.moment
  unfolding auth_admin_jwt_guard
  guarded-moment codes token w = ground arith

  role_guarded-moment : (i : String) (w : World) → w.moment ≤ (role_delete_guard p i w).1.moment
  unfolding role_delete_guard
  role_guarded-moment i w = ground arith

  param-moment : (i : String) (w : World) → (param_guard p i w).1.moment ≡ w.moment
  unfolding param_guard
  param-moment i w = ground arith

  removed-moment :
      (i : String) (w : World)
      → w.moment ≤ (or_throw (RoleService.delete_one_by_id p i) unknown w).1.moment
  unfolding RoleService.delete_one_by_id
  removed-moment i w = ground arith

module _ (p : Platform) {user_cast : User → User} {role_cast : Role → Role}
    (mongo : IsMongo p user_cast role_cast)
    (populate : (r : Role) (ps : List Permission) → (p.populate_role r ps).role ≡ r) where
  deleted-moment :
      (token i : String) (w : World)
      → (RoleAdmin.delete p token i w).0 ≡ returns tt
      → w.moment ≤ (RoleAdmin.delete p token i w).1.moment
  unfolding RoleAdmin.delete
  deleted-moment token i w h =
      let act =
        λ (full : FullRole). or_throw (RoleService.delete_one_by_id p full.role.id) unknown in
      let codes = "ROLE_READ" ∷ "ROLE_DELETE" ∷ [] in
      let (first, at_first) =
        past_guard (param_guard p i >> (role_delete_guard p i >>= act)) tt
          (auth_admin_jwt_guard p codes token) w h in
      let v = (auth_admin_jwt_guard p codes token w).1 in
      let (second, at_second) =
        past_guard (role_delete_guard p i >>= act) tt (param_guard p i) v first in
      let (full, guarded, done, at_third) =
        past_bind act tt (role_delete_guard p i) (param_guard p i v).1 second in
      let u = (role_delete_guard p i (param_guard p i v).1).1 in
      omega (
        arith,
        ap (λ (z : World). z.moment) (at_third ∙ at_second ∙ at_first),
        guarded-moment p codes token w,
        param-moment p i v,
        role_guarded-moment p i (param_guard p i v).1,
        removed-moment p full.role.id u,
      )

  -- an account of a role that is not there
  orphaned :
      (body : AuthSignUp) (role : Role) (v v' : World) (m : ℕ)
      → p.roles.find_by_id role.id v.roles ≡ none
      → Registered p body role m v v'
      → ¬ HasRoles p v'
  unfolding user_pre_save
  orphaned body role v v' m gone r has =
      let d = new_document p body role m in
      let stored =
        mongo.users.saved d v.users r.stored d.id
        ∙ ap (λ (b : Bool). if b then some (user_cast d) else p.users.find_by_id d.id v.users)
            (eq_refl d.id) in
      let (found, is) = has.of_user d.id (user_cast d) stored in
      let its = mongo.keeps.keeps_role d in
      let there : p.roles.find_by_id role.id v.roles ≡ some found =
        ap (λ rs. p.roles.find_by_id role.id rs) (sym r.others.0)
        ∙ ap (λ i. p.roles.find_by_id i v'.roles) (sym its)
        ∙ is in
      cc

  -- On collections that keep the laws IsMongo, where populating a role hands back that role: a sign-up
  -- has read the role and made its checks, then a deletion of that role by an administrator returns,
  -- and then the sign-up goes on. If it still writes, an account is left whose role does not exist,
  -- although the two requests, served one after the other, never leave one.
  pub interleaved_sign_up :
      (body : AuthSignUp) (token : String) (role : Role) (w : World)
      → (sign_up_start p body w).0 ≡ returns role
      → (RoleAdmin.delete p token role.id (sign_up_start p body w).1).0 ≡ returns tt
      → (sign_up_finish p body role
          (RoleAdmin.delete p token role.id (sign_up_start p body w).1).1).1.users
        ≢ (RoleAdmin.delete p token role.id (sign_up_start p body w).1).1.users
      → ¬ HasRoles p
          (sign_up_finish p body role
            (RoleAdmin.delete p token role.id (sign_up_start p body w).1).1).1
  unfolding sign_up_finish
  interleaved_sign_up body token role w started deleted writes =
      let w1 = (sign_up_start p body w).1 in
      let v = (RoleAdmin.delete p token role.id w1).1 in
      let m = v.moment - 5 in
      let at : v.moment ≡ 5 + m =
        omega
          (arith, started-moment p body w role started, deleted-moment token role.id w1 deleted) in
      elim (register-Registered p body role v m at) [
        | inl same ↦ absurd (writes same.0)
        | inr r ↦
            orphaned body role v (register p body role v).1 m
              (role_gone p mongo populate token role.id w1 deleted) r
      ]

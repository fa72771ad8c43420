-- ===== src/Integrity/Users.antt =====
-- The requests of UserAdminController, by what their one write does: a rule for the write that goes
-- from P to I is a rule for the request.
use openapi_nestjs_auth_mong.Prelude.{String, ◌≡◌, refl, Option, none, some, List, [], ◌∷◌, arith}
use openapi_nestjs_auth_mong.Http.{not_found, http, role_not_found_error}
use openapi_nestjs_auth_mong.Documents.{Role, FullUser}
use openapi_nestjs_auth_mong.Platform.{Platform}
use openapi_nestjs_auth_mong.Handler.{
  World, Handler, ◌>>=◌, ◌>>◌, pure, or_fail, or_throw, unknown, at_moment,
}
use openapi_nestjs_auth_mong.Handler.Rules.{
  After, Ensures, IsQuiet, bind-Ensures, then-Ensures, or_throw-Ensures, pure-Ensures,
}
use openapi_nestjs_auth_mong.Auth.Guards.{auth_admin_jwt_guard}
use openapi_nestjs_auth_mong.Request.Param.{param_guard}
use openapi_nestjs_auth_mong.User.Guards.{
  user_get_guard, user_update_inactive_guard, user_update_active_guard,
}
use openapi_nestjs_auth_mong.User.Schema.{save_user}
use openapi_nestjs_auth_mong.User.Service
use openapi_nestjs_auth_mong.User.Service.{UserCreate, new_user, or_undefined}
use openapi_nestjs_auth_mong.User.Admin
use openapi_nestjs_auth_mong.User.Admin.{UserBody}
use openapi_nestjs_auth_mong.Role.Service as RoleService
use openapi_nestjs_auth_mong.Integrity.{HasRole}
use openapi_nestjs_auth_mong.Integrity.Frame
use openapi_nestjs_auth_mong.Integrity.Frame.{Frame, Finds, Ready, Ready-Frame}
use openapi_nestjs_auth_mong.Integrity.Quiet

module _ (p : Platform) {I P : World → Type 0} (frame : Frame I P) where
  abbrev Leaves : {A : Type 0} → Handler A → Type 0
  Leaves m = Ensures I P m (λ _. I)

  -- A new document with the role is saved.
  abbrev pub Saves : String → Type 0
  Saves role =
      (i : String) (c : UserCreate)
      → c.role ≡ role
      → Ensures I (Ready P p c.role) (save_user p (new_user i c)) (λ _. I)

  pub create_user-Ensures :
      (c : UserCreate) → Saves c.role → Ensures I (Ready P p c.role) (Service.create p c) (λ _. I)
  unfolding Service.create
  create_user-Ensures c saves =
      Frame.skip (Ready-Frame frame p c.role) {m = at_moment p p.new_object_id}
        (record { quiet = λ w. ground arith })
        λ i.
          then-Ensures I {m = save_user p (new_user i c)} {n = pure (new_user i c)} (λ _. I)
            (saves i c refl) (λ _. pure-Ensures (new_user i c))

  insert-Ensures :
      (body : UserBody)
      → Saves body.role
      → Ensures I (Ready P p body.role) (Admin.insert p body) (λ _. I)
  insert-Ensures body saves =
      Frame.skip (Ready-Frame frame p body.role) (Quiet.create_password-IsQuiet p body.password)
        λ password.
          bind-Ensures I (λ _. I) (create_user-Ensures _ saves) (λ created. pure-Ensures _)

  find_role-Ensures :
      (i : String)
      → Ensures I P
          (RoleService.find_one_by_id p i)
          (λ o w. P w × ((r : Role) → o ≡ some r → HasRole p i w))
  unfolding RoleService.find_one_by_id
  find_role-Ensures i =
      Frame.ask frame p (λ w. p.roles.find_by_id i w.roles) _ λ w h. (h, λ r e. (r, e))

  pub admin_create-Ensures :
      (token : String) (body : UserBody) → Saves body.role → Leaves (Admin.create p token body)
  unfolding Admin.create
  admin_create-Ensures token body saves =
      Frame.skip_then frame (Quiet.admin-IsQuiet p ("USER_READ" ∷ "USER_CREATE" ∷ []) token) (
        Frame.skip frame (Quiet.check_exist-IsQuiet p body.email body.mobile_number none) λ check.
          Frame.skip_then frame (Quiet.reject_existing-IsQuiet check) (
            bind-Ensures I _ (find_role-Ensures body.role) λ found.
              bind-Ensures I (λ _. Ready P p body.role) (record { at = found_role found })
                λ r. or_throw-Ensures unknown (insert-Ensures body saves)))
    where
      found_role :
          (o : Option Role) (w : World)
          → P w × ((r : Role) → o ≡ some r → HasRole p body.role w)
          → After
              (λ (_ : Role) (w : World). Ready P p body.role w)
              I
              (or_fail (http not_found role_not_found_error "role.error.notFound") o w).0
              (or_fail (http not_found role_not_found_error "role.error.notFound") o w).1
      found_role none w h = frame.weaken w h.0
      found_role (some r) w h = (h.0, h.1 r refl)

  -- A method of UserService on the user that the guards found, behind the admin's guards.
  admin_edit-Ensures :
      {A : Type 0} (Q : String → Type 0) (codes : List String) (token i : String)
      (guard : Handler FullUser) (act : FullUser → Handler A)
      → IsQuiet guard
      → Finds (λ full. Q full.user.id) guard
      → ((full : FullUser) → Q full.user.id → Leaves (act full))
      → Leaves (auth_admin_jwt_guard p codes token >> (param_guard p i >> (guard >>= act)))
  admin_edit-Ensures Q codes token i guard act quiet found acts =
      Frame.skip_then frame {m = auth_admin_jwt_guard p codes token}
        (Quiet.admin-IsQuiet p codes token)
        (Frame.skip_then frame {m = param_guard p i} (Quiet.param-IsQuiet p i)
          (Frame.skip_found frame {m = guard} quiet found acts))

  module _ (Q : String → Type 0) where
    -- Q holds of the id of the user that the guard finds.
    abbrev pub OfFound : Handler FullUser → Type 0
    OfFound guard = Finds (λ full. Q full.user.id) guard

    pub admin_delete-Ensures :
        (token i : String)
        → OfFound (user_get_guard p i)
        → ((j : String) → Q j → Leaves (Service.delete_one_by_id p j))
        → Leaves (Admin.delete p token i)
    unfolding Admin.delete
    admin_delete-Ensures token i found deletes =
        admin_edit-Ensures Q ("USER_READ" ∷ "USER_DELETE" ∷ []) token i (user_get_guard p i)
          (λ full. or_throw (Service.delete_one_by_id p full.user.id) unknown)
          (Quiet.user_get-IsQuiet p i) found
          (λ full q. or_throw-Ensures unknown (deletes full.user.id q))

    pub admin_update-Ensures :
        (token i first_name : String) (last_name : Option String)
        → OfFound (user_get_guard p i)
        → ((j : String) → Q j → Leaves (Service.update_one_by_id p j first_name last_name))
        → Leaves (Admin.update p token i first_name last_name)
    unfolding Admin.update
    admin_update-Ensures token i first_name last_name found updates =
        admin_edit-Ensures Q ("USER_READ" ∷ "USER_UPDATE" ∷ []) token i (user_get_guard p i)
          (λ full.
            or_throw (Service.update_one_by_id p full.user.id first_name last_name) unknown
            >> pure full.user.id)
          (Quiet.user_get-IsQuiet p i) found
          (λ full q.
            then-Ensures I (λ _. I) (or_throw-Ensures unknown (updates full.user.id q))
              (λ _. pure-Ensures full.user.id))

    pub admin_inactive-Ensures :
        (token i : String)
        → OfFound (user_update_inactive_guard p i)
        → ((j : String) → Q j → Leaves (Service.inactive p j))
        → Leaves (Admin.inactive p token i)
    unfolding Admin.inactive
    admin_inactive-Ensures token i found switches =
        admin_edit-Ensures Q ("USER_READ" ∷ "USER_UPDATE" ∷ []) token i
          (user_update_inactive_guard p i)
          (λ full. or_throw (Service.inactive p full.user.id) unknown)
          (Quiet.user_inactive-IsQuiet p i) found
          (λ full q. or_throw-Ensures unknown (switches full.user.id q))

    pub admin_active-Ensures :
        (token i : String)
        → OfFound (user_update_active_guard p i)
        → ((j : String) → Q j → Leaves (Service.active p j))
        → Leaves (Admin.active p token i)
    unfolding Admin.active
    admin_active-Ensures token i found switches =
        admin_edit-Ensures Q ("USER_READ" ∷ "USER_UPDATE" ∷ []) token i
          (user_update_active_guard p i) (λ full. or_throw (Service.active p full.user.id) unknown)
          (Quiet.user_active-IsQuiet p i) found
          (λ full q. or_throw-Ensures unknown (switches full.user.id q))

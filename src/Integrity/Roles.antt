-- ===== src/Integrity/Roles.antt =====
-- The requests of RoleAdminController, by what their one write does: a rule for the write that goes
-- from P to I is a rule for the request. A role is deleted only where RoleUsedGuard found no user of
-- it.
use openapi_nestjs_auth_mong.Prelude.{String, ◌≡◌, refl, Option, none, some, List, [], ◌∷◌, arith}
use openapi_nestjs_auth_mong.Http.{bad_request, http, role_exist_error, role_used_error}
use openapi_nestjs_auth_mong.Documents.{Role, User, FullRole}
use openapi_nestjs_auth_mong.Platform.{Platform}
use openapi_nestjs_auth_mong.Handler.{
  World, Handler, ◌>>=◌, ◌>>◌, pure, or_throw, throw_if, unknown, at_moment,
}
use openapi_nestjs_auth_mong.Handler.Rules.{
  After, Ensures, IsQuiet, bind-Ensures, then-Ensures, quiet-Ensures, or_throw-Ensures,
  pure-Ensures,
}
use openapi_nestjs_auth_mong.Auth.Guards.{auth_admin_jwt_guard}
use openapi_nestjs_auth_mong.Request.Param.{param_guard}
use openapi_nestjs_auth_mong.Role.Guards.{
  with_role, is_found, role_used_guard, role_update_guard, role_update_active_guard,
  role_delete_guard,
}
use openapi_nestjs_auth_mong.Role.Service
use openapi_nestjs_auth_mong.Role.Service.{RoleBody, new_role, save_role}
use openapi_nestjs_auth_mong.Role.Admin
use openapi_nestjs_auth_mong.Role.Admin.{check_permissions}
use openapi_nestjs_auth_mong.Integrity.Frame
use openapi_nestjs_auth_mong.Integrity.Frame.{Frame}
use openapi_nestjs_auth_mong.Integrity.Quiet

-- No user has the role.
abbrev pub Unused : (World → Type 0) → Platform → String → World → Type 0
Unused P p i w = P w × (p.users.find_one (with_role p i) w.users ≡ none)

module _ (p : Platform) {I P : World → Type 0} (frame : Frame I P) where
  abbrev Leaves : {A : Type 0} → Handler A → Type 0
  Leaves m = Ensures I P m (λ _. I)

  guarded-Ensures :
      {A : Type 0} (codes : List String) (token i : String) (guard : Handler FullRole)
      (act : FullRole → Handler A)
      → IsQuiet guard
      → ((full : FullRole) → Leaves (act full))
      → Leaves (auth_admin_jwt_guard p codes token >> (param_guard p i >> (guard >>= act)))
  guarded-Ensures codes token i guard act quiet acts =
      Frame.skip_then frame {m = auth_admin_jwt_guard p codes token}
        (Quiet.admin-IsQuiet p codes token)
        (Frame.skip_then frame {m = param_guard p i} (Quiet.param-IsQuiet p i)
          (Frame.skip frame {m = guard} quiet acts))

  pub role_inactive-Ensures :
      (token i : String)
      → ((j : String) → Leaves (Service.inactive p j))
      → Leaves (Admin.inactive p token i)
  unfolding Admin.inactive
  role_inactive-Ensures token i switches =
      guarded-Ensures ("ROLE_READ" ∷ "ROLE_UPDATE" ∷ []) token i (role_update_guard p i)
        (λ full. or_throw (Service.inactive p full.role.id) unknown) (Quiet.role_update-IsQuiet p i)
        (λ full. or_throw-Ensures unknown (switches full.role.id))

  pub role_active-Ensures :
      (token i : String)
      → ((j : String) → Leaves (Service.active p j))
      → Leaves (Admin.active p token i)
  unfolding Admin.active
  role_active-Ensures token i switches =
      guarded-Ensures ("ROLE_READ" ∷ "ROLE_UPDATE" ∷ []) token i (role_update_active_guard p i)
        (λ full. or_throw (Service.active p full.role.id) unknown) (Quiet.role_active-IsQuiet p i)
        (λ full. or_throw-Ensures unknown (switches full.role.id))

  -- The checks of a body, before the `try`.
  checked-Ensures :
      {A : Type 0} (name : String) (i : Option String) (is : List String) (m : Handler A)
      → Leaves m
      → Leaves (
          Service.exists p name i >>= λ exist.
          throw_if exist (http bad_request role_exist_error "role.error.exist")
          >> (check_permissions p is >> m))
  checked-Ensures name i is m keeps =
      Frame.skip frame {m = Service.exists p name i} (Quiet.role_exists-IsQuiet p name i) λ exist.
        Frame.skip_then frame
          {m = throw_if exist (http bad_request role_exist_error "role.error.exist")}
          (Quiet.throw_if-IsQuiet exist _)
          (Frame.skip_then frame {m = check_permissions p is} (Quiet.check_permissions-IsQuiet p is)
            keeps)

  -- The new document is saved.
  abbrev pub Saves : Type 0
  Saves = (r : Role) → Leaves (save_role p r)

  create_role-Ensures : (body : RoleBody) → Saves → Leaves (Service.create p body)
  unfolding Service.create
  create_role-Ensures body saves =
      Frame.skip frame {m = at_moment p p.new_object_id} (record { quiet = λ w. ground arith })
        λ i.
          then-Ensures I {m = save_role p (new_role i body)} {n = pure (new_role i body)} (λ _. I)
            (saves (new_role i body)) (λ _. pure-Ensures (new_role i body))

  insert_role-Ensures : (body : RoleBody) → Saves → Leaves (Admin.insert p body)
  insert_role-Ensures body saves =
      bind-Ensures I {f = λ created. pure created.id} (λ _. I) (create_role-Ensures body saves)
        (λ created. pure-Ensures created.id)

  pub role_create-Ensures :
      (token : String) (body : RoleBody) → Saves → Leaves (Admin.create p token body)
  unfolding Admin.create
  role_create-Ensures token body saves =
      Frame.skip_then frame {m = auth_admin_jwt_guard p ("ROLE_READ" ∷ "ROLE_CREATE" ∷ []) token}
        (Quiet.admin-IsQuiet p ("ROLE_READ" ∷ "ROLE_CREATE" ∷ []) token)
        (checked-Ensures body.name none body.permissions (or_throw (Admin.insert p body) unknown)
          (or_throw-Ensures unknown (insert_role-Ensures body saves)))

  pub role_update-Ensures :
      (token i : String) (body : RoleBody)
      → ((j : String) → Leaves (Service.update p j body))
      → Leaves (Admin.update p token i body)
  unfolding Admin.update
  role_update-Ensures token i body updates =
      guarded-Ensures ("ROLE_READ" ∷ "ROLE_UPDATE" ∷ []) token i (role_update_guard p i) _
        (Quiet.role_update-IsQuiet p i)
        (λ full.
          checked-Ensures body.name (some full.role.id) body.permissions
            (or_throw (Service.update p full.role.id body) unknown >> pure full.role.id)
            (then-Ensures I (λ _. I) (or_throw-Ensures unknown (updates full.role.id))
              (λ _. pure-Ensures full.role.id)))

  role_used-Unused :
      (full : FullRole) → Ensures I P (role_used_guard p full) (λ _. Unused P p full.role.id)
  unfolding role_used_guard
  role_used-Unused full =
      bind-Ensures I _
        (Frame.ask frame p (λ w. p.users.find_one (with_role p full.role.id) w.users)
          (λ o w. P w × (p.users.find_one (with_role p full.role.id) w.users ≡ o)) λ w h. (h, refl))
        λ check. record { at = used check }
    where
      used :
          (o : Option User) (w : World)
          → P w × (p.users.find_one (with_role p full.role.id) w.users ≡ o)
          → After
              (λ (_ : Unit {0}) (w : World). Unused P p full.role.id w)
              I
              (throw_if (is_found o) (http bad_request role_used_error "role.error.used") w).0
              (throw_if (is_found o) (http bad_request role_used_error "role.error.used") w).1
      used none w h = h
      used (some u) w h = frame.weaken w h.0

  role_delete_guard-Unused :
      (i : String) → Ensures I P (role_delete_guard p i) (λ full. Unused P p full.role.id)
  unfolding role_delete_guard
  role_delete_guard-Unused i =
      bind-Ensures I {m = role_update_guard p i} (λ _. P)
        (quiet-Ensures frame.before frame.weaken (Quiet.role_update-IsQuiet p i))
        λ full.
          then-Ensures I {m = role_used_guard p full} {n = pure full} (λ _. Unused P p full.role.id)
            (role_used-Unused full) (λ _. record { at = λ w h. h })

  pub role_delete-Ensures :
      (token i : String)
      → ((j : String) → Ensures I (Unused P p j) (Service.delete_one_by_id p j) (λ _. I))
      → Leaves (Admin.delete p token i)
  unfolding Admin.delete
  role_delete-Ensures token i deletes =
      Frame.skip_then frame {m = auth_admin_jwt_guard p ("ROLE_READ" ∷ "ROLE_DELETE" ∷ []) token}
        (Quiet.admin-IsQuiet p ("ROLE_READ" ∷ "ROLE_DELETE" ∷ []) token)
        (Frame.skip_then frame {m = param_guard p i} (Quiet.param-IsQuiet p i) (
          bind-Ensures I {m = role_delete_guard p i} (λ full. Unused P p full.role.id)
            (role_delete_guard-Unused i) λ full. or_throw-Ensures unknown (deletes full.role.id)))

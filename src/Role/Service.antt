-- ===== src/Role/Service.antt =====
-- role/schema/role.schema.ts (the save hook) and role/service/role.service.ts
use openapi_nestjs_auth_mong.Prelude.{ℕ, String, Bool, true, false, Option, some, List, [], ◌∷◌}
use openapi_nestjs_auth_mong.Documents.{Role, FullRole}
use openapi_nestjs_auth_mong.Database.{like, outside, Filter, where_all, FindAllOptions, paged}
use openapi_nestjs_auth_mong.Platform.{Platform}
use openapi_nestjs_auth_mong.Handler.{
  World, Handler, ◌>>=◌, ◌>>◌, pure, not_null, query, at_moment, write, object_id,
}
use mathlib.Core.Option

-- RoleCreateDto and RoleUpdateDto: `isAdmin || false` is a flag.
pub record RoleBody : Type 0 where
  pub name : String
  pub permissions : List String
  pub is_admin : Bool

abbrev pub with_roles : World → List Role → World
with_roles w rs = record w { roles = rs }

-- `new this.roleModel({ ... })`
abbrev pub new_role : String → RoleBody → Role
new_role i body = record {
  id = i;
  name = body.name;
  permissions = body.permissions;
  is_active = true;
  is_admin = body.is_admin;
}

module _ (p : Platform) where
  -- RoleSchema.pre('save')
  unfoldable pub role_pre_save : Role → Role
  role_pre_save r = record r { name = p.to_lower_case r.name }

  abbrev pub save_role : Role → Handler (Unit {0})
  save_role r = write p λ w. Option.map (with_roles w) (p.roles.save (role_pre_save r) w.roles)

  abbrev pub role_by_id : String → Handler (Option Role)
  role_by_id i = query p λ w. p.roles.find_by_id i w.roles

  unfoldable pub find_all : Filter → FindAllOptions → Handler (List Role)
  find_all f o = query p λ w. p.roles.find f (paged o) w.roles

  unfoldable pub get_total : Filter → Handler ℕ
  get_total f = query p λ w. p.roles.count_documents f w.roles

  unfoldable pub find_one_by_id : String → Handler (Option Role)
  find_one_by_id i = role_by_id i

  unfoldable pub find_one_by_id_populated : String → Handler (Option FullRole)
  find_one_by_id_populated i =
      query p λ w. Option.map (λ r. p.populate_role r w.permissions) (p.roles.find_by_id i w.roles)

  unfoldable pub find_one : Filter → Handler (Option Role)
  find_one f = query p λ w. p.roles.find_one f w.roles

  -- `new Types.ObjectId(_id)`: a fresh id where there is none
  unfoldable pub exists : String → Option String → Handler Bool
  exists name i = do
    other ← object_id p i
    query p λ w.
        p.roles.exists (where_all (("name", like name) ∷ ("_id", outside (other ∷ [])) ∷ []))
          w.roles

  unfoldable pub create : RoleBody → Handler Role
  unfolding role_pre_save
  create body = do
    i ← at_moment p p.new_object_id
    let role = new_role i body
    save_role role
    pure role

  unfoldable pub update : String → RoleBody → Handler (Unit {0})
  unfolding role_pre_save
  update i body = do
    found ← role_by_id i
    role ← not_null found
    save_role
        (record role { name = body.name; permissions = body.permissions; is_admin = body.is_admin })

  unfoldable pub inactive : String → Handler (Unit {0})
  unfolding role_pre_save
  inactive i = do
    found ← role_by_id i
    role ← not_null found
    save_role (record role { is_active = false })

  unfoldable pub active : String → Handler (Unit {0})
  unfolding role_pre_save
  active i = do
    found ← role_by_id i
    role ← not_null found
    save_role (record role { is_active = true })

  unfoldable pub delete_one_by_id : String → Handler (Unit {0})
  delete_one_by_id i =
      write p λ w. some (record w { roles = p.roles.find_by_id_and_delete i w.roles })

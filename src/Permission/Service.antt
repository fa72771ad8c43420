-- ===== src/Permission/Service.antt =====
-- permission/schema/permission.schema.ts (the save hook) and permission/service/permission.service.ts
pub mod Laws
use openapi_nestjs_auth_mong.Prelude.{ℕ, String, Bool, true, false, ◌||◌, Option, some, List}
use openapi_nestjs_auth_mong.Documents.{Permission}
use openapi_nestjs_auth_mong.Database.{Filter, FindAllOptions, paged}
use openapi_nestjs_auth_mong.Platform.{Platform}
use openapi_nestjs_auth_mong.Handler.{
  World, Handler, ◌>>=◌, ◌>>◌, pure, not_null, query, at_moment, write,
}
use mathlib.Core.Option

-- IPermission, as the seeds give it to `create`
pub record PermissionCreate : Type 0 where
  pub code : String
  pub name : String
  pub description : Option String
  pub is_active : Bool

abbrev pub with_permissions : World → List Permission → World
with_permissions w qs = record w { permissions = qs }

module _ (p : Platform) where
  -- PermissionSchema.pre('save')
  unfoldable pub permission_pre_save : Permission → Permission
  permission_pre_save q = record q { code = p.to_upper_case q.code; name = p.to_lower_case q.name }

  abbrev pub save_permission : Permission → Handler (Unit {0})
  save_permission q = write p λ w.
      Option.map (with_permissions w) (p.permissions.save (permission_pre_save q) w.permissions)

  abbrev pub permission_by_id : String → Handler (Option Permission)
  permission_by_id i = query p λ w. p.permissions.find_by_id i w.permissions

  unfoldable pub find_all : Filter → FindAllOptions → Handler (List Permission)
  find_all f o = query p λ w. p.permissions.find f (paged o) w.permissions

  unfoldable pub find_one_by_id : String → Handler (Option Permission)
  find_one_by_id i = permission_by_id i

  unfoldable pub find_one : Filter → Handler (Option Permission)
  find_one f = query p λ w. p.permissions.find_one f w.permissions

  unfoldable pub get_total : Filter → Handler ℕ
  get_total f = query p λ w. p.permissions.count_documents f w.permissions

  unfoldable pub delete_one : Filter → Handler (Unit {0})
  delete_one f =
      write p
        λ w. some (record w { permissions = p.permissions.find_one_and_delete f w.permissions })

  -- `data.isActive || true`
  unfoldable pub create : PermissionCreate → Handler Permission
  unfolding permission_pre_save
  create body = do
    i ← at_moment p p.new_object_id
    let permission : Permission = record {
      id = i;
      code = body.code;
      name = body.name;
      description = body.description;
      is_active = body.is_active || true;
    }
    save_permission permission
    pure permission

  unfoldable pub update : String → String → Option String → Handler (Unit {0})
  unfolding permission_pre_save
  update i name description = do
    found ← permission_by_id i
    permission ← not_null found
    save_permission (record permission { name = name; description = description })

  unfoldable pub inactive : String → Handler (Unit {0})
  unfolding permission_pre_save
  inactive i = do
    found ← permission_by_id i
    permission ← not_null found
    save_permission (record permission { is_active = false })

  unfoldable pub active : String → Handler (Unit {0})
  unfolding permission_pre_save
  active i = do
    found ← permission_by_id i
    permission ← not_null found
    save_permission (record permission { is_active = true })

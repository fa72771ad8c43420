-- ===== src/Registry/Roles.antt =====
-- The writes of roles leave every account as it is.
use openapi_nestjs_auth_mong.Prelude.{String}
use openapi_nestjs_auth_mong.Documents.{Role}
use openapi_nestjs_auth_mong.Platform.{Platform}
use openapi_nestjs_auth_mong.Handler.{◌>>=◌, not_null, tick}
use openapi_nestjs_auth_mong.Handler.Rules.{Ensures, store-Ensures, remove-Ensures}
use openapi_nestjs_auth_mong.Integrity.Frame
use openapi_nestjs_auth_mong.Integrity.Requests.{Request}
use openapi_nestjs_auth_mong.Integrity.Roles.{Unused}
use openapi_nestjs_auth_mong.Role.Service.{
  with_roles, role_pre_save, save_role, role_by_id, delete_one_by_id,
}
use openapi_nestjs_auth_mong.Registry.{Accounts, view}
use openapi_nestjs_auth_mong.Registry.Saves.{Before, Stepped, stay, frame}
use openapi_nestjs_auth_mong.Integrity.Quiet

module _ (p : Platform) (r : Request) (v : Accounts) where
  pub save_role-Stepped :
      (role : Role) → Ensures (Stepped p r v) (Before p r v) (save_role p role) (λ _. Stepped p r v)
  unfolding view
  save_role-Stepped role =
      store-Ensures p (frame p r v).after (stay p r v) with_roles
        (λ w. p.roles.save (role_pre_save p role) w.roles)
        λ w rs h saved. stay p r v (with_roles (tick w) rs) h

  pub edit_role-Stepped :
      (g : Role → Role) (i : String)
      → Ensures
          (Stepped p r v)
          (Before p r v)
          (role_by_id p i >>= λ found. not_null found >>= λ role. save_role p (g role))
          (λ _. Stepped p r v)
  edit_role-Stepped g i = Frame.skip (frame p r v) (Quiet.find_role-IsQuiet p i) λ found.
      Frame.skip (frame p r v) (Quiet.not_null-IsQuiet found) λ role. save_role-Stepped (g role)

  pub delete_role-Stepped :
      (i : String)
      → Ensures
          (Stepped p r v)
          (Unused (Before p r v) p i)
          (delete_one_by_id p i)
          (λ _. Stepped p r v)
  unfolding delete_one_by_id view
  delete_role-Stepped i =
      remove-Ensures p (frame p r v).after (λ w h. stay p r v w h.0)
        (λ w. with_roles w (p.roles.find_by_id_and_delete i w.roles))
        λ w h. stay p r v (with_roles (tick w) (p.roles.find_by_id_and_delete i w.roles)) h.0

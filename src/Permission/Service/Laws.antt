-- ===== src/Permission/Service/Laws.antt =====
-- The state of a permission that is created.
use openapi_nestjs_auth_mong.Prelude.{Bool-cases, ◌≡◌, inl, inr, true, arith}
use openapi_nestjs_auth_mong.Documents.{Permission}
use openapi_nestjs_auth_mong.Platform.{Platform}
use openapi_nestjs_auth_mong.Handler.{World, returns}
use openapi_nestjs_auth_mong.Permission.Service.{PermissionCreate, create}

-- A permission that `create` returns is active, whatever the state that was asked for.
pub create_ignores_state :
    (p : Platform) (body : PermissionCreate) (w : World) (q : Permission)
    → (create p body w).0 ≡ returns q
    → q.is_active ≡ true
unfolding create
create_ignores_state p body w q h = elim (Bool-cases body.is_active) [
  | inl on ↦ ground arith
  | inr off ↦ ground arith
]

-- ===== src/Integrity.antt =====
-- Referential integrity between the collections: the role of every user exists.
pub mod Frame
pub mod Saves
pub mod Users
pub mod Accounts
pub mod Roles
pub mod Requests
pub mod Quiet
pub mod Race
use openapi_nestjs_auth_mong.Prelude.{String, ◌≡◌, ◌≢◌, none, some, List}
use openapi_nestjs_auth_mong.Documents.{Role, User}
use openapi_nestjs_auth_mong.Database.{IsKeyed}
use openapi_nestjs_auth_mong.Platform.{Platform}
use openapi_nestjs_auth_mong.Handler.{World}
use openapi_nestjs_auth_mong.Handler.Rules.{OnDocuments}
use openapi_nestjs_auth_mong.Auth.Password.Laws.{KeepsUser}
use openapi_nestjs_auth_mong.Role.Guards.{with_role}
use openapi_nestjs_auth_mong.User.Schema.{user_pre_save, save_user, user_by_id}
use openapi_nestjs_auth_mong.Role.Service.{role_pre_save, save_role, role_by_id}

-- What is relied on of the user and the role collection. `unused` reads the filter of RoleUsedGuard:
-- where it finds nothing, no stored user has the role.
pub record IsMongo (p : Platform) (user_cast : User → User) (role_cast : Role → Role) : Type 0 where
  pub users : IsKeyed (λ (u : User). u.id) user_cast p.users
  pub roles : IsKeyed (λ (r : Role). r.id) role_cast p.roles
  pub keeps : KeepsUser user_cast
  pub unused :
      (i : String) (us : List User)
      → p.users.find_one (with_role p i) us ≡ none
      → (j : String) (u : User) → p.users.find_by_id j us ≡ some u
      → u.role ≢ i

abbrev pub HasRole : Platform → String → World → Type 0
HasRole p i w = (r : Role) × (p.roles.find_by_id i w.roles ≡ some r)

pub record HasRoles (p : Platform) (w : World) : Type 0 where
  pub of_user : (i : String) (u : User) → p.users.find_by_id i w.users ≡ some u → HasRole p u.role w

module _ (p : Platform) where
  pub HasRoles-SameDocuments : OnDocuments (HasRoles p)
  HasRoles-SameDocuments w v same h = record {
    of_user = λ i u e. rw same.1 (h.of_user i u (rw same.0 at e));
  }

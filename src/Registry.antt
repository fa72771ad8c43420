-- ===== src/Registry.antt =====
-- An abstract view of the users collection: which accounts there are, with the role of each and
-- whether it is active, and what each request may do to them. UserAdminController, RoleAdminController,
-- signUp and changePassword are the requests of Integrity.Requests.
pub mod Saves
pub mod Roles
pub mod Found
pub mod Laws
pub mod Kept
use openapi_nestjs_auth_mong.Prelude.{
  if◌then◌else◌, String, ◌≡◌, Bool, true, false, Option, none, some, List, [], ◌∷◌, ◌==◌,
}
use openapi_nestjs_auth_mong.Documents.{User}
use openapi_nestjs_auth_mong.Platform.{Platform}
use openapi_nestjs_auth_mong.Handler.{World}
use openapi_nestjs_auth_mong.Auth.SignUp.{AuthSignUp}
use openapi_nestjs_auth_mong.User.Admin.{UserBody}
use openapi_nestjs_auth_mong.Integrity.Requests.{
  Request, signing_up, creating_user, deleting_user, inactivating_user, activating_user,
}
use mathlib.Core.Option

pub record Account : Type 0 where
  pub role : String
  pub is_active : Bool

abbrev pub Accounts : Type 0
Accounts = String → Option Account

abbrev pub account_of : User → Account
account_of u = record { role = u.role; is_active = u.is_active }

unfoldable pub view : Platform → World → Accounts
view p w i = Option.map account_of (p.users.find_by_id i w.users)

pub data Change : Type 0 where
  stays : Change
  -- the id and the role
  registers : String → String → Change
  switches : String → Bool → Change
  removes : String → Change

abbrev switched : Bool → Option Account → Option Account
switched b o = Option.map (λ (a : Account). record a { is_active = b }) o

unfoldable pub apply : Change → Accounts → Accounts
apply stays v j = v j
apply (registers i role) v j =
    if i == j then some (record { role = role; is_active = true }) else v j
apply (switches i b) v j = if i == j then switched b (v j) else v j
apply (removes i) v j = if i == j then none else v j

-- What a request may do. One that is refused or fails changes nothing, nor do those that edit names,
-- passwords or roles.
pub data Permitted : Request → Change → Type 0 where
  waits : (r : Request) → Permitted r stays
  signs_up : (body : AuthSignUp) (i role : String) → Permitted (signing_up body) (registers i role)
  creates :
      (token : String) (body : UserBody) (i : String)
      → Permitted (creating_user token body) (registers i body.role)
  deletes : (token i : String) → Permitted (deleting_user token i) (removes i)
  inactivates : (token i : String) → Permitted (inactivating_user token i) (switches i false)
  activates : (token i : String) → Permitted (activating_user token i) (switches i true)

-- One step of the abstract machine.
pub record Step (r : Request) (v v' : Accounts) : Type 0 where
  pub change : Change
  pub permitted : Permitted r change
  pub result : (j : String) → v' j ≡ apply change v j

-- A run of the abstract machine on a sequence of requests.
pub data Runs : List Request → Accounts → Accounts → Type 0 where
  done : (v : Accounts) → Runs [] v v
  steps :
      (r : Request) (rs : List Request) (v v' v'' : Accounts)
      → Step r v v'
      → Runs rs v' v''
      → Runs (r ∷ rs) v v''

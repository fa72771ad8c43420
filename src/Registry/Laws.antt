-- ===== src/Registry/Laws.antt =====
-- The requests of Integrity.Requests run the abstract machine of the accounts.
use openapi_nestjs_auth_mong.Prelude.{
  String, ◌≡◌, refl, Bool, true, false, List, [], ◌∷◌, arith, eq_iff,
}
use openapi_nestjs_auth_mong.Documents.{User, Role, Permission}
use openapi_nestjs_auth_mong.Platform.{Platform}
use openapi_nestjs_auth_mong.Handler.{World, Handler, not_null, ◌>>=◌}
use openapi_nestjs_auth_mong.Handler.Rules.{Ensures, kept}
use openapi_nestjs_auth_mong.User.Schema.{user_by_id, save_user}
use openapi_nestjs_auth_mong.User.Service as UserService
use openapi_nestjs_auth_mong.User.Service.{or_undefined}
use openapi_nestjs_auth_mong.Role.Service as RoleService
use openapi_nestjs_auth_mong.Integrity.{IsMongo}
use openapi_nestjs_auth_mong.Integrity.Requests.{
  Request, signing_up, changing_password, creating_user, updating_user, deleting_user,
  inactivating_user, activating_user, creating_role, updating_role, deleting_role,
  inactivating_role, activating_role, serve, serve_all,
}
use openapi_nestjs_auth_mong.Integrity.Users
use openapi_nestjs_auth_mong.Integrity.Accounts
use openapi_nestjs_auth_mong.Integrity.Roles
use openapi_nestjs_auth_mong.Registry.{
  Accounts, Permitted, Step, Runs, view, done, steps, stays, registers, switches, apply, waits,
  signs_up, creates, deletes, inactivates, activates,
}
use openapi_nestjs_auth_mong.Registry.Saves.{
  Before, Stepped, frame, create_user-Stepped, edit_user-Stepped, delete_user-Stepped,
}
use openapi_nestjs_auth_mong.Registry.Roles.{
  save_role-Stepped, edit_role-Stepped, delete_role-Stepped,
}
use openapi_nestjs_auth_mong.Registry.Found

module _ (p : Platform) {user_cast : User → User} {role_cast : Role → Role}
    (mongo : IsMongo p user_cast role_cast)
    (populate : (u : User) (rs : List Role) (ps : List Permission)
      → (p.populate_user u rs ps).user ≡ u) where
  abbrev Steps : {A : Type 0} → Request → Handler A → Type 0
  Steps r m = (v : Accounts) → Ensures (Stepped p r v) (Before p r v) m (λ _. Stepped p r v)

  from_view :
      {A : Type 0} (r : Request) (m : Handler A)
      → Steps r m
      → (w : World) → Step r (view p w) (view p (m w).1)
  from_view r m h w = kept (h (view p w)) w (λ j. refl)

  -- An edit that keeps the role and the activity of the account.
  edits-Stepped :
      (r : Request) (v : Accounts) (g : User → User)
      → ((u : User) → (g u).id ≡ u.id)
      → ((u : User) → (g u).role ≡ u.role)
      → ((u : User) → (g u).is_active ≡ u.is_active)
      → (i : String)
      → Ensures
          (Stepped p r v)
          (Before p r v)
          (user_by_id p i >>= λ found. not_null found >>= λ user. save_user p (g user))
          (λ _. Stepped p r v)
  unfolding apply
  edits-Stepped r v g same_id same_role same_state i =
      edit_user-Stepped p mongo.users mongo.keeps r v g i stays (waits r) same_id
        λ u j e. ground (arith, same_role u, same_state u, eq_iff i j)

  saves :
      (r : Request) (v : Accounts) (role : String)
      → ((i : String) → Permitted r (registers i role))
      → Users.Saves p (frame p r v) role
  saves r v role permitted i c e =
      create_user-Stepped p mongo.users mongo.keeps r v i c (rw e (permitted i))

  -- The guards and the permissions of a switch.
  switches-Stepped :
      (r : Request) (v : Accounts) (i : String) (b : Bool)
      → Permitted r (switches i b)
      → Ensures
          (Stepped p r v)
          (Before p r v)
          (user_by_id p i >>= λ found.
            not_null found >>= λ user. save_user p (record user { is_active = b }))
          (λ _. Stepped p r v)
  unfolding apply
  switches-Stepped r v i b permitted =
      edit_user-Stepped p mongo.users mongo.keeps r v (λ u. record u { is_active = b }) i
        (switches i b) permitted (λ u. refl) λ u j e. ground (arith, eq_iff i j)

  pub serve-Step : (r : Request) (w : World) → Step r (view p w) (view p (serve p r w))
  unfolding serve UserService.update_one_by_id UserService.inactive UserService.active
      UserService.update_password RoleService.update RoleService.inactive RoleService.active
  serve-Step (signing_up body) = from_view (signing_up body) _ λ v.
      Accounts.sign_up-Ensures p (frame p (signing_up body) v) body mongo.roles
        λ role. saves (signing_up body) v role λ i. signs_up body i role
  serve-Step (changing_password old new i) =
      let r = changing_password old new i in
      from_view r _ λ v. Accounts.change_password-Ensures p (frame p r v) old new i λ j a.
        edits-Stepped r v
          (λ u. record u {
            password = a.password_hash;
            password_expiration = a.password_expiration;
            salt = a.salt;
          })
          (λ u. refl) (λ u. refl) (λ u. refl) j
  serve-Step (creating_user token body) =
      let r = creating_user token body in
      from_view r _ λ v.
        Users.admin_create-Ensures p (frame p r v) token body
          (saves r v body.role λ i. creates token body i)
  serve-Step (updating_user token i first last) =
      let r = updating_user token i first last in
      from_view r _ λ v.
        Users.admin_update-Ensures p (frame p r v) (λ _. Unit {0}) token i first last
          (record { finds = λ w full e. tt })
          λ j _.
            edits-Stepped r v (λ u. record u { first_name = first; last_name = or_undefined last })
              (λ u. refl) (λ u. refl) (λ u. refl) j
  serve-Step (deleting_user token i) =
      let r = deleting_user token i in
      from_view r _ λ v.
        Users.admin_delete-Ensures p (frame p r v) (λ j. j ≡ i) token i
          (Found.user_get-Finds p mongo.users populate i)
          λ j same. delete_user-Stepped p mongo.users mongo.keeps r v j (rw same (deletes token i))
  serve-Step (inactivating_user token i) =
      let r = inactivating_user token i in
      from_view r _ λ v.
        Users.admin_inactive-Ensures p (frame p r v) (λ j. j ≡ i) token i
          (Found.user_inactive-Finds p mongo.users populate i)
          λ j same. switches-Stepped r v j false (rw same (inactivates token i))
  serve-Step (activating_user token i) =
      let r = activating_user token i in
      from_view r _ λ v.
        Users.admin_active-Ensures p (frame p r v) (λ j. j ≡ i) token i
          (Found.user_active-Finds p mongo.users populate i)
          λ j same. switches-Stepped r v j true (rw same (activates token i))
  serve-Step (creating_role token body) =
      let r = creating_role token body in
      from_view r _
        λ v. Roles.role_create-Ensures p (frame p r v) token body (save_role-Stepped p r v)
  serve-Step (updating_role token i body) =
      let r = updating_role token i body in
      from_view r _ λ v. Roles.role_update-Ensures p (frame p r v) token i body (
        edit_role-Stepped p r v λ role. record role {
          name = body.name;
          permissions = body.permissions;
          is_admin = body.is_admin;
        })
  serve-Step (deleting_role token i) =
      let r = deleting_role token i in
      from_view r _
        λ v. Roles.role_delete-Ensures p (frame p r v) token i (delete_role-Stepped p r v)
  serve-Step (inactivating_role token i) =
      let r = inactivating_role token i in
      from_view r _ λ v.
        Roles.role_inactive-Ensures p (frame p r v) token i
          (edit_role-Stepped p r v λ role. record role { is_active = false })
  serve-Step (activating_role token i) =
      let r = activating_role token i in
      from_view r _ λ v.
        Roles.role_active-Ensures p (frame p r v) token i
          (edit_role-Stepped p r v λ role. record role { is_active = true })

  -- Where the collections keep the laws IsMongo and populating a user hands back that user: serving
  -- any sequence of requests, failing ones included, is a run of the abstract machine of the accounts
  -- from the accounts before to the accounts after, one permitted change or none for each request.
  pub serve_all-Runs :
      (rs : List Request) (w : World) → Runs rs (view p w) (view p (serve_all p rs w))
  unfolding serve_all
  serve_all-Runs [] w = done (view p w)
  serve_all-Runs (r ∷ rs) w =
      steps r rs (view p w) (view p (serve p r w)) (view p (serve_all p rs (serve p r w)))
        (serve-Step r w) (serve_all-Runs rs (serve p r w))

-- ===== src/Integrity/Saves.antt =====
-- What a single write does to the roles of the users.
use openapi_nestjs_auth_mong.Prelude.{
  Bool-cases, String, ◌≡◌, refl, inl, inr, Option, none, some, List, arith, ◌==◌, eq_iff,
}
use openapi_nestjs_auth_mong.Documents.{Role, User}
use openapi_nestjs_auth_mong.Platform.{Platform}
use openapi_nestjs_auth_mong.Handler.{World, ◌>>=◌, not_null, tick}
use openapi_nestjs_auth_mong.Handler.Rules.{
  After, Ensures, bind-Ensures, not_null-Ensures, store-Ensures, remove-Ensures, ask-Ensures,
}
use openapi_nestjs_auth_mong.User.Service.{delete_one_by_id}
use openapi_nestjs_auth_mong.Role.Service as RoleService
use openapi_nestjs_auth_mong.User.Schema.{with_users, user_pre_save, save_user, user_by_id}
use openapi_nestjs_auth_mong.Role.Service.{with_roles, role_pre_save, save_role, role_by_id}
use openapi_nestjs_auth_mong.Role.Guards.{with_role}
use openapi_nestjs_auth_mong.Integrity.{IsMongo, HasRole, HasRoles, HasRoles-SameDocuments}

module _ (p : Platform) {user_cast : User → User} {role_cast : Role → Role}
    (mongo : IsMongo p user_cast role_cast) where
  saved_user-HasRoles :
      (w : World) (v : User) (us : List User)
      → HasRoles p w
      → HasRole p v.role w
      → p.users.save v w.users ≡ some us
      → HasRoles p (record w { users = us })
  saved_user-HasRoles w v us h r saved = record {
    of_user = λ i u e.
        let stored = mongo.users.saved v w.users saved i in
        elim (Bool-cases (v.id == i)) [
          | inl hit ↦ (r.0, ground (arith, stored, mongo.keeps.keeps_role v))
          | inr miss ↦ h.of_user i u (ground (arith, stored))
        ];
  }

  saved_role-HasRoles :
      (w : World) (r : Role) (rs : List Role)
      → HasRoles p w
      → p.roles.save r w.roles ≡ some rs
      → HasRoles p (record w { roles = rs })
  saved_role-HasRoles w r rs h saved = record {
    of_user = λ i u e.
        let (q, found) = h.of_user i u e in
        let stored = mongo.roles.saved r w.roles saved u.role in
        elim (Bool-cases (r.id == u.role)) [
          | inl hit ↦ (role_cast r, ground (arith, stored))
          | inr miss ↦ (q, ground (arith, stored))
        ];
  }

  deleted_role-HasRoles :
      (w : World) (i : String)
      → HasRoles p w
      → p.users.find_one (with_role p i) w.users ≡ none
      → HasRoles p (record w { roles = p.roles.find_by_id_and_delete i w.roles })
  deleted_role-HasRoles w i h none_has = record {
    of_user = λ j u e.
        let (q, found) = h.of_user j u e in
        (
          q,
          ground (
            arith,
            mongo.roles.deleted i w.roles u.role,
            mongo.unused i w.users none_has j u,
            eq_iff i u.role,
          ),
        );
  }

  deleted_user-HasRoles :
      (w : World) (i : String)
      → HasRoles p w
      → HasRoles p (record w { users = p.users.find_by_id_and_delete i w.users })
  deleted_user-HasRoles w i h = record {
    of_user = λ j u e. h.of_user j u (ground (arith, mongo.users.deleted i w.users j));
  }

  pub save_user-HasRoles :
      (u : User)
      → Ensures
          (HasRoles p)
          (λ w. HasRoles p w × HasRole p u.role w)
          (save_user p u)
          (λ _. HasRoles p)
  unfolding user_pre_save
  save_user-HasRoles u =
      store-Ensures p (HasRoles-SameDocuments p) (λ w h. h.0) with_users
        (λ w. p.users.save (user_pre_save p u) w.users)
        (λ w us h saved.
          saved_user-HasRoles (tick w) (user_pre_save p u) us
            (HasRoles-SameDocuments p w (tick w) (ground arith) h.0) h.1 saved)

  pub save_role-HasRoles :
      (r : Role) → Ensures (HasRoles p) (HasRoles p) (save_role p r) (λ _. HasRoles p)
  save_role-HasRoles r =
      store-Ensures p (HasRoles-SameDocuments p) (λ w h. h) with_roles
        (λ w. p.roles.save (role_pre_save p r) w.roles)
        (λ w rs h saved.
          saved_role-HasRoles (tick w) (role_pre_save p r) rs
            (HasRoles-SameDocuments p w (tick w) (ground arith) h) saved)

  -- Every method of UserService that edits a user: it is read, changed and saved.
  pub edit_user-HasRoles :
      (g : User → User)
      → ((u : User) → (g u).role ≡ u.role)
      → (i : String)
      → Ensures
          (HasRoles p)
          (HasRoles p)
          (user_by_id p i >>= λ found. not_null found >>= λ user. save_user p (g user))
          (λ _. HasRoles p)
  edit_user-HasRoles g same i =
      bind-Ensures (HasRoles p)
        (λ o w. HasRoles p w × ((u : User) → o ≡ some u → HasRole p u.role w))
        (ask-Ensures p (HasRoles-SameDocuments p) (λ w h. h) (λ w. p.users.find_by_id i w.users) _
          λ w h. (HasRoles-SameDocuments p w (tick w) (ground arith) h, h.of_user i))
        λ found.
          bind-Ensures (HasRoles p) (λ u w. HasRoles p w × HasRole p (g u).role w)
            (record { at = read found }) λ u. save_user-HasRoles (g u)
    where
      read :
          (o : Option User) (w : World)
          → HasRoles p w × ((u : User) → o ≡ some u → HasRole p u.role w)
          → After
              (λ (u : User) (w : World). HasRoles p w × HasRole p (g u).role w)
              (HasRoles p)
              (not_null o w).0
              (not_null o w).1
      read none w h = h.0
      read (some u) w h = (h.0, rw (same u) (h.1 u refl))

  pub edit_role-HasRoles :
      (g : Role → Role) (i : String)
      → Ensures
          (HasRoles p)
          (HasRoles p)
          (role_by_id p i >>= λ found. not_null found >>= λ role. save_role p (g role))
          (λ _. HasRoles p)
  edit_role-HasRoles g i =
      bind-Ensures (HasRoles p) (λ _. HasRoles p)
        (ask-Ensures p (HasRoles-SameDocuments p) (λ w h. h) (λ w. p.roles.find_by_id i w.roles) _
          λ w h. HasRoles-SameDocuments p w (tick w) (ground arith) h)
        λ found.
          bind-Ensures (HasRoles p) (λ _. HasRoles p) (not_null-Ensures (HasRoles p) found)
            λ r. save_role-HasRoles (g r)

  pub delete_user-HasRoles :
      (i : String) → Ensures (HasRoles p) (HasRoles p) (delete_one_by_id p i) (λ _. HasRoles p)
  unfolding delete_one_by_id
  delete_user-HasRoles i =
      remove-Ensures p (HasRoles-SameDocuments p) (λ w h. h)
        (λ w. with_users w (p.users.find_by_id_and_delete i w.users))
        λ w h.
          deleted_user-HasRoles (tick w) i (HasRoles-SameDocuments p w (tick w) (ground arith) h)

  pub delete_role-HasRoles :
      (i : String)
      → Ensures
          (HasRoles p)
          (λ w. HasRoles p w × (p.users.find_one (with_role p i) w.users ≡ none))
          (RoleService.delete_one_by_id p i)
          (λ _. HasRoles p)
  unfolding RoleService.delete_one_by_id
  delete_role-HasRoles i =
      remove-Ensures p (HasRoles-SameDocuments p) (λ w h. h.0)
        (λ w. with_roles w (p.roles.find_by_id_and_delete i w.roles))
        λ w h.
          deleted_role-HasRoles (tick w) i (HasRoles-SameDocuments p w (tick w) (ground arith) h.0)
            h.1

-- ===== src/Registry/Found.antt =====
-- The user that the guards of a request find has the id of the path.
use openapi_nestjs_auth_mong.Prelude.{String, ◌≡◌, Option-cases, inl, inr, List, arith, subst}
use openapi_nestjs_auth_mong.Documents.{User, Role, Permission}
use openapi_nestjs_auth_mong.Database.{IsKeyed}
use openapi_nestjs_auth_mong.Platform.{Platform}
use openapi_nestjs_auth_mong.Handler.{Handler, returns, pure, ◌>>=◌, ◌>>◌}
use openapi_nestjs_auth_mong.Handler.Rules.{past_bind}
use openapi_nestjs_auth_mong.User.Guards.{
  user_get_guard, user_update_inactive_guard, user_update_active_guard,
}
use openapi_nestjs_auth_mong.Integrity.Frame.{Finds}

-- A check of what was found hands it on.
returned : {A : Type 0} {b a : A} → returns b ≡ returns a → b ≡ a
returned e = ground arith

module _ {A B : Type 0} where
  checked-Finds :
      {Q : A → Type 0} (m : Handler A) (check : A → Handler B)
      → Finds Q m
      → Finds Q (m >>= λ a. check a >> pure a)
  checked-Finds {Q} m check found = record {
    finds = λ w a e.
        let (b, first, same, _) = past_bind (λ b. check b >> pure b) a m w e in
        let (_, _, is, _) = past_bind (λ _. pure b) a (check b) (m w).1 same in
        subst Q (returned is) (found.finds w b first);
  }

module _ (p : Platform) {cast : User → User} (users : IsKeyed (λ (u : User). u.id) cast p.users)
    (populate : (u : User) (rs : List Role) (ps : List Permission)
      → (p.populate_user u rs ps).user ≡ u) where
  pub user_get-Finds : (i : String) → Finds (λ full. full.user.id ≡ i) (user_get_guard p i)
  unfolding user_get_guard
  user_get-Finds i = record {
    finds = λ w full e. elim (Option-cases (p.users.find_by_id i w.users)) [
      | inl missing ↦ ground arith
      | inr (u, found) ↦
          ground (arith, users.id_found i w.users found, populate u w.roles w.permissions)
    ];
  }

  pub user_inactive-Finds :
      (i : String) → Finds (λ full. full.user.id ≡ i) (user_update_inactive_guard p i)
  unfolding user_update_inactive_guard
  user_inactive-Finds i = checked-Finds (user_get_guard p i) _ (user_get-Finds i)

  pub user_active-Finds :
      (i : String) → Finds (λ full. full.user.id ≡ i) (user_update_active_guard p i)
  unfolding user_update_active_guard
  user_active-Finds i = checked-Finds (user_get_guard p i) _ (user_get-Finds i)

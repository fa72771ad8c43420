-- ===== src/Auth/Password/Laws.antt =====
-- What a changed password leaves in the database.
use openapi_nestjs_auth_mong.Prelude.{
  Option-cases, suc, ◌+◌, String, ◌≡◌, ◌≢◌, inl, inr, true, false, none, some, List, arith, eq_iff,
  eq_refl,
}
use openapi_nestjs_auth_mong.Http.{Exception}
use openapi_nestjs_auth_mong.Documents.{User}
use openapi_nestjs_auth_mong.Database.{IsKeyed}
use openapi_nestjs_auth_mong.Platform.{Platform}
use openapi_nestjs_auth_mong.Handler.{World, returns, throws, SameDocuments}
use openapi_nestjs_auth_mong.User.Schema.{user_pre_save}
use openapi_nestjs_auth_mong.Auth.Password.{change_password}

-- The setters of the user schema touch only the trimmed and lower-cased texts.
pub record KeepsUser (cast : User → User) : Type 0 where
  pub keeps_id : (u : User) → (cast u).id ≡ u.id
  pub keeps_role : (u : User) → (cast u).role ≡ u.role
  pub keeps_password : (u : User) → (cast u).password ≡ u.password
  pub keeps_password_expiration : (u : User) → (cast u).password_expiration ≡ u.password_expiration
  pub keeps_salt : (u : User) → (cast u).salt ≡ u.salt
  pub keeps_api_key : (u : User) → (cast u).api_key ≡ u.api_key
  pub keeps_is_active : (u : User) → (cast u).is_active ≡ u.is_active

-- The account `i` has the new password, its expiry moved on, and nothing else of it that guards or
-- the login read has changed; the other accounts and the other collections are untouched.
pub record PasswordChanged (p : Platform) (old_password new_password i : String) (w w' : World)
    : Type 0 where
  pub before : User
  pub after : User
  pub was : p.users.find_by_id i w.users ≡ some before
  pub knew_old : p.compare_sync old_password before.password ≡ true
  pub differs : p.compare_sync new_password before.password ≡ false
  pub now_is : p.users.find_by_id i w'.users ≡ some after
  pub accepts_new : p.compare_sync new_password after.password ≡ true
  pub expires : after.password_expiration ≡ p.clock (suc (suc w.moment)) + p.config.expired_in_ms
  pub same_state : after.is_active ≡ before.is_active
  pub same_role : after.role ≡ before.role
  pub others : (j : String) → i ≢ j → p.users.find_by_id j w'.users ≡ p.users.find_by_id j w.users
  pub same_roles : w'.roles ≡ w.roles
  pub same_permissions : w'.permissions ≡ w.permissions

-- the document that `updatePassword` saves
abbrev renewed : Platform → String → World → User → User
renewed p new_password w u = user_pre_save p (record u {
  password = p.hash_sync new_password (p.gen_salt p.config.salt_length (suc w.moment));
  password_expiration = p.clock (suc (suc w.moment)) + p.config.expired_in_ms;
  salt = p.gen_salt p.config.salt_length (suc w.moment);
})

module _ (p : Platform) {cast : User → User} (users : IsKeyed (λ (u : User). u.id) cast p.users)
    (keeps : KeepsUser cast)
    (bcrypt : (pw salt : String) → p.compare_sync pw (p.hash_sync pw salt) ≡ true) where
  change_password_saved :
      (old_password new_password i : String) (w : World) (u : User) (us : List User)
      → p.users.find_by_id i w.users ≡ some u
      → p.users.save (renewed p new_password w u) w.users ≡ some us
      → (change_password p old_password new_password i w).0 ≡ returns tt
      → PasswordChanged p old_password new_password i w
          (change_password p old_password new_password i w).1
  unfolding change_password user_pre_save
  change_password_saved old_password new_password i w u us found saved h =
      let same = users.id_found i w.users found in
      let stored = users.saved (renewed p new_password w u) w.users saved in
      record {
        before = u;
        after = cast (renewed p new_password w u);
        was = found;
        knew_old = ground arith;
        differs = ground arith;
        now_is = ground (arith, same, stored i, eq_refl i);
        accepts_new =
            rw (keeps.keeps_password (renewed p new_password w u))
              (bcrypt new_password (p.gen_salt p.config.salt_length (suc w.moment)));
        expires = keeps.keeps_password_expiration (renewed p new_password w u);
        same_state = keeps.keeps_is_active (renewed p new_password w u);
        same_role = keeps.keeps_role (renewed p new_password w u);
        others = λ j ne. ground (arith, same, stored j, eq_iff u.id j);
        same_roles = ground arith;
        same_permissions = ground arith;
      }

  change_password_missing :
      (old_password new_password i : String) (w : World)
      → p.users.find_by_id i w.users ≡ none
      → (change_password p old_password new_password i w).0 ≢ returns tt
  unfolding change_password
  change_password_missing old_password new_password i w missing h = ground arith

  change_password_refused :
      (old_password new_password i : String) (w : World) (u : User)
      → p.users.find_by_id i w.users ≡ some u
      → p.users.save (renewed p new_password w u) w.users ≡ none
      → (change_password p old_password new_password i w).0 ≢ returns tt
  unfolding change_password user_pre_save
  change_password_refused old_password new_password i w u found refused h =
      ground (arith, users.id_found i w.users found)

  -- On a keyed collection whose casts keep what guards read, and where bcrypt accepts a text against
  -- its own hash: a change that returns was asked with the old password and a new one that differs
  -- from it, and leaves a hash that accepts the new one, with the configured expiry; the state and the
  -- role of the account, the other accounts, the roles and the permissions stay as they were.
  pub change_password-PasswordChanged :
      (old_password new_password i : String) (w : World)
      → (change_password p old_password new_password i w).0 ≡ returns tt
      → PasswordChanged p old_password new_password i w
          (change_password p old_password new_password i w).1
  change_password-PasswordChanged old_password new_password i w h =
      elim (Option-cases (p.users.find_by_id i w.users)) [
        | inl missing ↦ absurd (change_password_missing old_password new_password i w missing h)
        | inr (u, found) ↦ elim (Option-cases (p.users.save (renewed p new_password w u) w.users)) [
          | inl refused ↦
              absurd (change_password_refused old_password new_password i w u found refused h)
          | inr (us, saved) ↦ change_password_saved old_password new_password i w u us found saved h
        ]
      ]

-- A request that throws has changed no document, whatever it throws.
pub change_password_throws-SameDocuments :
    (p : Platform) (old_password new_password i : String) (w : World) (e : Exception)
    → (change_password p old_password new_password i w).0 ≡ throws e
    → SameDocuments w (change_password p old_password new_password i w).1
unfolding change_password user_pre_save
change_password_throws-SameDocuments p old_password new_password i w e h =
    elim (Option-cases (p.users.find_by_id i w.users)) [
      | inl missing ↦ ground arith
      | inr (u, found) ↦ elim (Option-cases (p.users.find_by_id u.id w.users)) [
        | inl missing ↦ ground arith
        | inr (v, again) ↦ elim (Option-cases (p.users.save (renewed p new_password w v) w.users)) [
          | inl refused ↦ ground arith
          | inr (us, saved) ↦ ground arith
        ]
      ]
    ]

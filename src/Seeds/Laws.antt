-- ===== src/Seeds/Laws.antt =====
-- What the seeds leave in the database.
use openapi_nestjs_auth_mong.Prelude.{
  if◌then◌else◌, Option-cases, includes, Any, ℕ, ◌+◌, ◌≤◌, String, ◌≡◌, refl, ap, ◌∙◌, ◌↔◌, inl,
  inr, Bool, true, false, some, List, [], ◌∷◌, map, arith, eq_refl,
}
use openapi_nestjs_auth_mong.Http.{Tokens}
use openapi_nestjs_auth_mong.Documents.{Permission, User, Role, FullRole}
use openapi_nestjs_auth_mong.Database.{Collection, where_all, among, IsKeyed}
use openapi_nestjs_auth_mong.Platform.{Platform}
use openapi_nestjs_auth_mong.Handler.{World, returns}
use openapi_nestjs_auth_mong.User.Schema.{user_pre_save}
use openapi_nestjs_auth_mong.User.Service.{new_user}
use openapi_nestjs_auth_mong.Role.Service.{new_role}
use openapi_nestjs_auth_mong.Auth.Service.{AuthLogin}
use openapi_nestjs_auth_mong.Auth.Login.{login}
use openapi_nestjs_auth_mong.Auth.Login.Granted.{CanLogin, login-granted}
use openapi_nestjs_auth_mong.Auth.Password.Laws.{KeepsUser}
use openapi_nestjs_auth_mong.Seeds.{
  no_options, enum_permissions, seeded_password, seeded_user, admin_name, of_enum, user_seed_insert,
  role_seed_insert,
}

-- The document that UserSeed saves.
abbrev administrator : Platform → Role → ℕ → User
administrator p role m =
    let salt = p.gen_salt p.config.salt_length (1 + m) in
    user_pre_save p (
      new_user (p.new_object_id (3 + m)) (
        seeded_user p
          (record {
            salt = salt;
            password_hash = p.hash_sync (seeded_password p) salt;
            password_expiration = p.clock (2 + m) + p.config.expired_in_ms;
          })
          role))

-- The account `i` is there: active, with the role named admin, a hash of the seeded password and an
-- expiry.
record IsSeeded (p : Platform) (i : String) (w w' : World) : Type 0 where
  pub account : User
  pub role : Role
  pub the_role : p.roles.find_one (admin_name p) w.roles ≡ some role
  pub now_is : p.users.find_by_id i w'.users ≡ some account
  pub has_role : account.role ≡ role.id
  pub active : account.is_active ≡ true
  pub expires : account.password_expiration ≡ p.clock (2 + w.moment) + p.config.expired_in_ms
  pub accepts : p.compare_sync (seeded_password p) account.password ≡ true

seeded-users :
    (p : Platform) (w : World) (role : Role) {us : List User}
    → (user_seed_insert p w).0 ≡ returns tt
    → p.roles.find_one (admin_name p) w.roles ≡ some role
    → p.users.save (administrator p role w.moment) w.users ≡ some us
    → (user_seed_insert p w).1.users ≡ us
unfolding user_seed_insert user_pre_save
seeded-users p w role h found saved = ground arith

module _ (p : Platform) {cast : User → User} (users : IsKeyed (λ (u : User). u.id) cast p.users)
    (keeps : KeepsUser cast)
    (bcrypt : (pw salt : String) → p.compare_sync pw (p.hash_sync pw salt) ≡ true) where
  user_seed_insert-IsSeeded :
      (w : World)
      → (user_seed_insert p w).0 ≡ returns tt
      → IsSeeded p (p.new_object_id (3 + w.moment)) w (user_seed_insert p w).1
  unfolding user_seed_insert user_pre_save
  user_seed_insert-IsSeeded w h = elim (Option-cases (p.roles.find_one (admin_name p) w.roles)) [
    | inl missing ↦ ground arith
    | inr (role, found) ↦
        let d = administrator p role w.moment in
        elim (Option-cases (p.users.save d w.users)) [
          | inl refused ↦ ground arith
          | inr (us, saved) ↦
              let i = p.new_object_id (3 + w.moment) in
              record {
                account = cast d;
                role = role;
                the_role = found;
                now_is =
                    ap (p.users.find_by_id i) (seeded-users p w role h found saved)
                    ∙ users.saved d w.users saved i
                    ∙ ap (λ (b : Bool). if b then some (cast d) else p.users.find_by_id i w.users)
                        (eq_refl i);
                has_role = keeps.keeps_role d;
                active = keeps.keeps_is_active d;
                expires = keeps.keeps_password_expiration d;
                accepts =
                    rw (keeps.keeps_password d)
                      (bcrypt (seeded_password p) (p.gen_salt p.config.salt_length (1 + w.moment)));
              }
        ]
  ]

  -- On a keyed collection whose casts keep what guards read, where bcrypt accepts a text against its
  -- own hash and populating a user hands back that user: after UserSeed.insert returned, and while no
  -- user is written, a login with the password "aaAA@@123444" answers with tokens, as soon as the
  -- database answers, if the email finds the new account, its role is there and active, and the
  -- configured time has not passed.
  pub user_seed_insert-login :
      ((u : User) (rs : List Role) (ps : List Permission) → (p.populate_user u rs ps).user ≡ u)
      → (w v : World) (body : AuthLogin) (role : FullRole) → (user_seed_insert p w).0 ≡ returns tt
      → body.password ≡ "aaAA@@123444"
      → v.users ≡ (user_seed_insert p w).1.users
      → CanLogin p (p.new_object_id (3 + w.moment)) body.email role v
      → p.reachable v.moment ≡ true
      → p.clock (4 + v.moment) ≤ p.clock (2 + w.moment) + p.config.expired_in_ms
      → (granted : Tokens) × ((login p body v).0 ≡ returns granted)
  user_seed_insert-login populate w v body role seeded same_password same can up in_time =
      let done = user_seed_insert-IsSeeded w seeded in
      let i = p.new_object_id (3 + w.moment) in
      login-granted p populate i v body role done.account can up
        (ap (p.users.find_by_id i) same ∙ done.now_is) done.active
        (ap (λ t. p.compare_sync t done.account.password) same_password ∙ done.accepts)
        (ground (arith, done.expires))

-- An id of the documents is that of one of them.
has_id :
    (qs : List Permission) (i : String)
    → Any (λ j. j ≡ i) (map (λ q. q.id) qs)
    → (q : Permission) × Any (λ e. e ≡ q) qs × (q.id ≡ i)
has_id [] i none_there = absurd none_there
has_id (q ∷ qs) i (inl is) = (q, inl refl, is)
has_id (q ∷ qs) i (inr later) = let (e, there, is) = has_id qs i later in (e, inr there, is)

id_of :
    (qs : List Permission) (i : String) (q : Permission)
    → Any (λ e. e ≡ q) qs
    → q.id ≡ i
    → Any (λ j. j ≡ i) (map (λ q. q.id) qs)
id_of [] i q none_there is = absurd none_there
id_of (e ∷ qs) i q (inl here) is = inl (ap (λ (t : Permission). t.id) here ∙ is)
id_of (e ∷ qs) i q (inr later) is = inr (id_of qs i q later is)

-- What MongoDB documents of `$in`: the documents that are found are those whose field is listed.
abbrev pub Selects : (Permission → String) → Collection Permission → Type 0
Selects code c =
    (ts : List String) (ds : List Permission) (q : Permission)
    → Any (λ e. e ≡ q) (c.find (where_all (("code", among ts) ∷ [])) no_options ds)
      ↔ (Any (λ e. e ≡ q) ds × (includes ts (code q) ≡ true))

-- The two roles of RoleSeed are stored, the first for administrators, and both are active. A
-- permission is of the first exactly when one is stored with this id and a code of the enum.
pub record AreRoles (p : Platform) (w w' : World) : Type 0 where
  pub admin : Role
  pub user : Role
  pub stored : p.roles.insert_many (admin ∷ user ∷ []) w.roles ≡ some w'.roles
  pub names : (admin.name ≡ "admin") × (user.name ≡ "user")
  pub kinds : (admin.is_admin ≡ true) × (user.is_admin ≡ false)
  pub both_active : (admin.is_active ≡ true) × (user.is_active ≡ true)
  pub none_for_user : user.permissions ≡ []
  pub of_admin :
      (i : String)
      → Any (λ j. j ≡ i) admin.permissions ↔ (
          (q : Permission) × Any (λ e. e ≡ q) w.permissions
          × (includes (map (λ e. e.1) enum_permissions) q.code ≡ true)
          × (q.id ≡ i))
  pub others :
      (w'.users ≡ w.users)
      × (w'.permissions ≡ w.permissions)
      × (w'.api_keys ≡ w.api_keys)
      × (w'.settings ≡ w.settings)

module _ (p : Platform) (selects : Selects (λ q. q.code) p.permissions) (w : World) where
  abbrev of_world : List Permission
  of_world = p.permissions.find (of_enum p) no_options w.permissions

  abbrev seeded_admin : Role
  seeded_admin =
      new_role (p.new_object_id (1 + w.moment))
        (record { name = "admin"; permissions = map (λ q. q.id) of_world; is_admin = true })

  abbrev seeded_plain : Role
  seeded_plain =
      new_role (p.new_object_id (2 + w.moment))
        (record { name = "user"; permissions = []; is_admin = false })

  role_seed_stored :
      (role_seed_insert p w).0 ≡ returns tt
      → p.roles.insert_many (seeded_admin ∷ seeded_plain ∷ []) w.roles
        ≡ some (role_seed_insert p w).1.roles
  unfolding role_seed_insert
  role_seed_stored done = ground arith

  held_by_admin :
      (i : String)
      → Any (λ j. j ≡ i) seeded_admin.permissions ↔ (
          (q : Permission) × Any (λ e. e ≡ q) w.permissions
          × (includes (map (λ e. e.1) enum_permissions) q.code ≡ true)
          × (q.id ≡ i))
  held_by_admin i =
      let values = map (λ e. e.1) enum_permissions in
      (
        λ held.
            let (q, found, is) = has_id of_world i held in
            let there = (selects values w.permissions q).0 found in (q, there.0, there.1, is),
        λ there.
            id_of of_world i there.0 ((selects values w.permissions there.0).1 (there.1, there.2))
              there.3,
      )

  -- Where `$in` finds the documents whose code is listed: a RoleSeed.insert that returns has stored
  -- two active roles, "admin" for administrators and "user", and written nothing else. A permission
  -- is of the admin role exactly when one is stored with this id and with a code that is a value of
  -- the enum of permissions; the user role has none.
  pub role_seed_insert-AreRoles :
      (role_seed_insert p w).0 ≡ returns tt → AreRoles p w (role_seed_insert p w).1
  unfolding role_seed_insert
  role_seed_insert-AreRoles done = record {
    admin = seeded_admin;
    user = seeded_plain;
    stored = role_seed_stored done;
    names = (refl, refl);
    kinds = (refl, refl);
    both_active = (refl, refl);
    none_for_user = refl;
    of_admin = held_by_admin;
    others = ground arith;
  }

-- ===== src/Auth/SignUp/Failures.antt =====
-- What a sign-up that throws leaves behind.
use openapi_nestjs_auth_mong.Prelude.{
  Option-cases, Bool-cases, ℕ, ◌+◌, ◌≡◌, ◌⊎◌, inl, inr, some, arith, refl, sym, subst,
}
use openapi_nestjs_auth_mong.Http.{Exception, Tokens}
use openapi_nestjs_auth_mong.Documents.{Role}
use openapi_nestjs_auth_mong.Platform.{Platform}
use openapi_nestjs_auth_mong.Handler.{
  Outcome, World, returns, throws, or_throw, catch_all, unknown, SameDocuments,
}
use openapi_nestjs_auth_mong.User.Schema.{user_pre_save}
use openapi_nestjs_auth_mong.User.Service.{check_exist}
use openapi_nestjs_auth_mong.User.Service as UserService
use openapi_nestjs_auth_mong.Role.Service as RoleService
use openapi_nestjs_auth_mong.Auth.Service.{create_password}
use openapi_nestjs_auth_mong.Auth.SignUp.{
  AuthSignUp, register, sign_up, issue, user_role, reject_existing,
}
use openapi_nestjs_auth_mong.Auth.SignUp.Laws.{new_document}

-- The account of the body is stored, and nothing else is written.
pub record Leaves (p : Platform) (body : AuthSignUp) (w w' : World) : Type 0 where
  pub role : Role
  pub the_role : p.roles.find_one (user_role p) w.roles ≡ some role
  pub stored : p.users.save (new_document p body role w.moment) w.users ≡ some w'.users
  pub others :
      (w'.roles ≡ w.roles)
      × (w'.permissions ≡ w.permissions)
      × (w'.api_keys ≡ w.api_keys)
      × (w'.settings ≡ w.settings)

-- The account is stored by a registration that starts at moment `5 + m`, and nothing else is written.
pub record Registered (p : Platform) (body : AuthSignUp) (role : Role) (m : ℕ) (v v' : World)
    : Type 0 where
  pub stored : p.users.save (new_document p body role m) v.users ≡ some v'.users
  pub others :
      (v'.roles ≡ v.roles)
      × (v'.permissions ≡ v.permissions)
      × (v'.api_keys ≡ v.api_keys)
      × (v'.settings ≡ v.settings)

pub register-Registered :
    (p : Platform) (body : AuthSignUp) (role : Role) (v : World) (m : ℕ)
    → v.moment ≡ 5 + m
    → SameDocuments v (register p body role v).1
      ⊎ Registered p body role m v (register p body role v).1
unfolding register create_password UserService.create issue user_pre_save
register-Registered p body role v m at = elim (Bool-cases (p.reachable (8 + m))) [
  | inl up ↦ elim (Option-cases (p.users.save (new_document p body role m) v.users)) [
    | inl refused ↦ inl (ground arith)
    | inr (us, saved) ↦ inr (record { stored = ground arith; others = ground arith })
  ]
  | inr down ↦ inl (ground arith)
]

-- the world in which the account is registered
abbrev checked : World → World
checked w = record w { moment = 5 + w.moment }

module _ (p : Platform) (body : AuthSignUp) (w : World) where
  leaves :
      (role : Role)
      → p.roles.find_one (user_role p) w.roles ≡ some role
      → Registered p body role w.moment (checked w) (register p body role (checked w)).1
      → Leaves p body w (register p body role (checked w)).1
  leaves role found r = record {
    role = role;
    the_role = found;
    stored = r.stored;
    others = r.others;
  }

  reaches :
      (role : Role)
      → p.roles.find_one (user_role p) w.roles ≡ some role
      → SameDocuments w (sign_up p body w).1
        ⊎ (sign_up p body w ≡ or_throw (register p body role) unknown (checked w))
  unfolding sign_up RoleService.find_one check_exist reject_existing
  reaches role found = ground arith

  caught :
      {A : Type 0} (o : Outcome A) (e : Exception) → catch_all unknown o ≡ throws e → e ≡ unknown
  caught (returns a) e h = cc
  caught (throws _) e h = cc

  registered_throws :
      (role : Role) (e : Exception)
      → p.roles.find_one (user_role p) w.roles ≡ some role
      → (or_throw (register p body role) unknown (checked w)).0 ≡ throws e
      → SameDocuments w (or_throw (register p body role) unknown (checked w)).1
        ⊎ ((e ≡ unknown) × Leaves p body w (or_throw (register p body role) unknown (checked w)).1)
  registered_throws role e found h =
      elim (register-Registered p body role (checked w) w.moment refl) [
        | inl same ↦ inl same
        | inr r ↦ inr (caught (register p body role (checked w)).0 e h, leaves role found r)
      ]

  -- A sign-up that throws has written nothing, or it has stored the account, nothing else, and throws
  -- the unknown error.
  pub sign_up_throws-Leaves :
      (e : Exception)
      → (sign_up p body w).0 ≡ throws e
      → SameDocuments w (sign_up p body w).1
        ⊎ ((e ≡ unknown) × Leaves p body w (sign_up p body w).1)
  unfolding sign_up RoleService.find_one check_exist reject_existing
  sign_up_throws-Leaves e h = elim (Option-cases (p.roles.find_one (user_role p) w.roles)) [
    | inl missing ↦ inl (ground arith)
    | inr (role, found) ↦ elim (reaches role found) [
      | inl same ↦ inl same
      | inr is ↦
          subst
            (λ (r : Outcome Tokens × World).
              r.0 ≡ throws e → SameDocuments w r.1 ⊎ ((e ≡ unknown) × Leaves p body w r.1))
            (sym is) (registered_throws role e found) h
    ]
  ]

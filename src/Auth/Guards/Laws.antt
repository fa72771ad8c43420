-- ===== src/Auth/Guards/Laws.antt =====
-- Who passes the guards of the admin and of the public requests.
use openapi_nestjs_auth_mong.Prelude.{
  every, All, Any, includes, suc, ◌≤◌, String, ◌≡◌, refl, ◌↔◌, ◌⊎◌, inl, inr, Bool, true, false,
  Option, none, some, List, [], ◌∷◌, arith, eq_iff,
}
use openapi_nestjs_auth_mong.Payload.{
  LoginPermission, LoginData, AccessPayload, RefreshPayload, Payload, access, refresh,
}
use openapi_nestjs_auth_mong.Platform.{Platform}
use openapi_nestjs_auth_mong.Handler.{World, returns}
use openapi_nestjs_auth_mong.Auth.Guards.{
  active_codes, guarded, auth_admin_jwt_guard, auth_public_jwt_guard,
}

-- The role of the payload holds an active permission of this code.
abbrev pub Grants : List LoginPermission → String → Type 0
Grants ps c = Any (λ q. (q.code ≡ c) × (q.is_active ≡ true)) ps

active_codes_iff :
    (ps : List LoginPermission) (c : String) → (includes (active_codes ps) c ≡ true) ↔ Grants ps c
active_codes_iff [] c = ground arith
active_codes_iff (q ∷ ps) c = ground (arith, eq_iff q.code c, active_codes_iff ps c)

permitted_iff :
    (ps : List LoginPermission) (cs : List String)
    → (every (includes (active_codes ps)) cs ≡ true) ↔ All (Grants ps) cs
permitted_iff ps [] = ground arith
permitted_iff ps (c ∷ cs) = ground (arith, active_codes_iff ps c, permitted_iff ps cs)

-- A token with which the guards let a request pass, and the login data that they hand on. `admin`
-- says whether the role must be, or must not be, an administrator's.
pub record IsAdmitted (p : Platform) (admin : Bool) (codes : List String) (token : String)
    (w : World) (login : LoginData) : Type 0 where
  pub payload : AccessPayload
  pub verified :
      p.verify p.config.access_secret_key token (p.clock w.moment) ≡ some (access payload)
  pub of_payload : payload.login ≡ login
  pub user_active : login.is_active ≡ true
  pub role_active : login.role.is_active ≡ true
  pub unexpired : p.clock (suc w.moment) ≤ login.password_expiration
  pub role_kind : login.role.is_admin ≡ admin
  pub permitted : All (Grants login.role.permissions) codes

-- A payload that is verified, if there is one, by its kind.
verified_cases :
    (o : Option Payload)
    → (o ≡ none)
      ⊎ ((a : AccessPayload) × (o ≡ some (access a)))
      ⊎ ((r : RefreshPayload) × (o ≡ some (refresh r)))
verified_cases none = inl refl
verified_cases (some (access a)) = inr (inl (a, refl))
verified_cases (some (refresh r)) = inr (inr (r, refl))

module _ (p : Platform) (codes : List String) (token : String) (w : World) (login : LoginData) where
  guarded_complete :
      (admin : Bool)
      → IsAdmitted p admin codes token w login
      → (guarded p (admin ∷ []) codes token w).0 ≡ returns login
  unfolding auth_admin_jwt_guard
  guarded_complete true a = ground (arith, permitted_iff login.role.permissions codes)
  guarded_complete false a = ground (arith, permitted_iff login.role.permissions codes)

  admitted :
      (admin : Bool) (a : AccessPayload)
      → p.verify p.config.access_secret_key token (p.clock w.moment) ≡ some (access a)
      → (guarded p (admin ∷ []) codes token w).0 ≡ returns login
      → IsAdmitted p admin codes token w login
  unfolding auth_admin_jwt_guard
  admitted true a e h = record {
    payload = a;
    verified = e;
    of_payload = ground arith;
    user_active = ground arith;
    role_active = ground arith;
    unexpired = ground arith;
    role_kind = ground arith;
    permitted = (permitted_iff login.role.permissions codes).0 (ground arith);
  }
  admitted false a e h = record {
    payload = a;
    verified = e;
    of_payload = ground arith;
    user_active = ground arith;
    role_active = ground arith;
    unexpired = ground arith;
    role_kind = ground arith;
    permitted = (permitted_iff login.role.permissions codes).0 (ground arith);
  }

  guarded_sound :
      (admin : Bool)
      → (guarded p (admin ∷ []) codes token w).0 ≡ returns login
      → IsAdmitted p admin codes token w login
  unfolding auth_admin_jwt_guard
  guarded_sound admin h =
      elim (verified_cases (p.verify p.config.access_secret_key token (p.clock w.moment))) [
        | inl refused ↦ ground arith
        | inr (inl (a, e)) ↦ admitted admin a e h
        | inr (inr (r, e)) ↦ ground arith
      ]

  -- A request passes AuthAdminJwtGuard exactly when its token is a valid access token of an active
  -- administrator, with an active role and an unexpired password, whose role has an active
  -- permission for every required code.
  pub auth_admin_jwt_guard_iff :
      ((auth_admin_jwt_guard p codes token w).0 ≡ returns login)
      ↔ IsAdmitted p true codes token w login
  unfolding auth_admin_jwt_guard
  auth_admin_jwt_guard_iff = (guarded_sound true, guarded_complete true)

  -- AuthPublicJwtGuard asks the same of a user who is no administrator.
  pub auth_public_jwt_guard_iff :
      ((auth_public_jwt_guard p codes token w).0 ≡ returns login)
      ↔ IsAdmitted p false codes token w login
  unfolding auth_public_jwt_guard
  auth_public_jwt_guard_iff = (guarded_sound false, guarded_complete false)

-- What AuthAdminJwtGuard answers does not depend on the stored documents: at the same moment it is the
-- same in any two worlds, so that a token outlives what happens to its account.
pub auth_admin_jwt_guard_stale :
    (p : Platform) (codes : List String) (token : String) (w v : World)
    → w.moment ≡ v.moment
    → (auth_admin_jwt_guard p codes token w).0 ≡ (auth_admin_jwt_guard p codes token v).0
unfolding auth_admin_jwt_guard
auth_admin_jwt_guard_stale p codes token w v same =
    elim (verified_cases (p.verify p.config.access_secret_key token (p.clock w.moment))) [
      | inl refused ↦ ground arith
      | inr (inl (a, e)) ↦ ground arith
      | inr (inr (r, e)) ↦ ground arith
    ]

-- ===== src/Registry/Kept.antt =====
-- What no run of the abstract machine does to an account.
use openapi_nestjs_auth_mong.Prelude.{
  String, ◌≡◌, refl, Bool, true, false, ◌&&◌, ◌||◌, ◌∙◌, Option-cases, Bool-cases, ◌⊎◌, inl, inr,
  some, List, [], ◌∷◌, ◌==◌, arith,
}
use openapi_nestjs_auth_mong.Documents.{User, Role, Permission}
use openapi_nestjs_auth_mong.Platform.{Platform}
use openapi_nestjs_auth_mong.Handler.{World}
use openapi_nestjs_auth_mong.Integrity.{IsMongo}
use openapi_nestjs_auth_mong.Integrity.Requests.{
  Request, signing_up, creating_user, activating_user, serve_all,
}
use openapi_nestjs_auth_mong.Registry.{
  Account, Accounts, Change, Permitted, Runs, view, done, steps, switches, apply, waits, signs_up,
  creates, deletes, inactivates, activates,
}
use openapi_nestjs_auth_mong.Registry.Laws.{serve_all-Runs}

-- The request makes an account.
unfoldable pub makes : Request → Bool
makes (signing_up body) = true
makes (creating_user token body) = true
makes _ = false

-- The request activates the account.
unfoldable pub asks_for : String → Request → Bool
asks_for j (activating_user token i) = i == j
asks_for j _ = false

unfoldable pub any_makes : List Request → Bool
any_makes [] = false
any_makes (r ∷ rs) = makes r || any_makes rs

unfoldable pub any_asks_for : String → List Request → Bool
any_asks_for j [] = false
any_asks_for j (r ∷ rs) = asks_for j r || any_asks_for j rs

-- The account `a` comes of one that there was, with the same role, and is active only if that was or
-- the flag is set.
abbrev pub ComesOf : Accounts → String → Account → Bool → Type 0
ComesOf v j a asked =
    (b : Account) × (v j ≡ some b)
    × (a.role ≡ b.role)
    × ((a.is_active ≡ false) ⊎ ((b.is_active ≡ true) ⊎ (asked ≡ true)))

same_account : (b : Bool) (asked : Bool) → (b ≡ false) ⊎ ((b ≡ true) ⊎ (asked ≡ true))
same_account true asked = inr (inl refl)
same_account false asked = inl refl

-- The account that a switch leaves.
switch-ComesOf :
    (v : Accounts) (i j : String) (b : Bool) (a : Account)
    → apply (switches i b) v j ≡ some a
    → ComesOf v j a (b && (i == j))
unfolding apply
switch-ComesOf v i j b a is = elim (Option-cases (v j)) [
  | inl missing ↦ ground arith
  | inr (old, found) ↦ elim (Bool-cases (i == j)) [
    | inl hit ↦ elim (Bool-cases b) [
      | inl on ↦ (old, found, ground arith, inr (inr (ground arith)))
      | inr off ↦ (old, found, ground arith, inl (ground arith))
    ]
    | inr miss ↦ (a, ground arith, refl, same_account a.is_active _)
  ]
]

change-ComesOf :
    (r : Request) (c : Change)
    → Permitted r c
    → makes r ≡ false
    → (v : Accounts) (j : String) (a : Account) → apply c v j ≡ some a
    → ComesOf v j a (asks_for j r)
unfolding makes asks_for apply
change-ComesOf _ _ (waits r) unmade v j a is = (a, is, refl, same_account a.is_active _)
change-ComesOf _ _ (signs_up body i role) unmade v j a is = ground arith
change-ComesOf _ _ (creates token body i) unmade v j a is = ground arith
change-ComesOf _ _ (deletes token i) unmade v j a is =
    (a, ground arith, refl, same_account a.is_active _)
change-ComesOf _ _ (inactivates token i) unmade v j a is = switch-ComesOf v i j false a is
change-ComesOf _ _ (activates token i) unmade v j a is = switch-ComesOf v i j true a is

joined :
    (a b c now later : Bool)
    → (a ≡ false) ⊎ ((b ≡ true) ⊎ (later ≡ true))
    → (b ≡ false) ⊎ ((c ≡ true) ⊎ (now ≡ true))
    → (a ≡ false) ⊎ ((c ≡ true) ⊎ ((now || later) ≡ true))
joined false b c now later x y = inl refl
joined true b true now later x y = inr (inl refl)
joined true b false true later x y = inr (inr refl)
joined true b false false true x y = inr (inr refl)
joined true b false false false x y = ground arith

-- Two steps, the later first.
chained :
    (v v' : Accounts) (j : String) (a : Account) (now later : Bool)
    → ((b : Account) → v' j ≡ some b → ComesOf v j b now)
    → ComesOf v' j a later
    → ComesOf v j a (now || later)
chained v v' j a now later before (b, found, role, state) =
    let (c, first, same, old) = before b found in
    (c, first, role ∙ same, joined a.is_active b.is_active c.is_active now later state old)

run-ComesOf :
    (rs : List Request) (v v' : Accounts)
    → Runs rs v v'
    → any_makes rs ≡ false
    → (j : String) (a : Account) → v' j ≡ some a
    → ComesOf v j a (any_asks_for j rs)
unfolding any_makes any_asks_for
run-ComesOf _ _ _ (done v) unmade j a is = (a, is, refl, same_account a.is_active _)
run-ComesOf _ _ _ (steps r rest v v' v'' step run) unmade j a is =
    chained v v' j a (asks_for j r) (any_asks_for j rest)
      (λ b found.
        change-ComesOf r step.change step.permitted (ground arith) v j b
          (ground (arith, step.result j)))
      (run-ComesOf rest v' v'' run (ground arith) j a is)

-- Where the collections keep the laws IsMongo and populating a user hands back that user: if none of
-- the requests makes an account, every account there is after them was there before, with the same
-- role; and if it is active then it was active before, or one of the requests activates it.
pub serve_all-ComesOf :
    (p : Platform) {user_cast : User → User} {role_cast : Role → Role}
    → IsMongo p user_cast role_cast
    → ((u : User) (rs : List Role) (ps : List Permission) → (p.populate_user u rs ps).user ≡ u)
    → (rs : List Request) (w : World) → any_makes rs ≡ false
    → (j : String) (a : Account) → view p (serve_all p rs w) j ≡ some a
    → ComesOf (view p w) j a (any_asks_for j rs)
serve_all-ComesOf p mongo populate rs w unmade j a is =
    run-ComesOf rs (view p w) (view p (serve_all p rs w)) (serve_all-Runs p mongo populate rs w)
      unmade j a is

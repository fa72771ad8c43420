-- ===== src/Request/Validation/Laws.antt =====
-- What the constraints accept.
use openapi_nestjs_auth_mong.Prelude.{
  every, All, ℕ, ◌≡◌, ◌≢◌, ◌↔◌, refl, Bool, true, Option, none, some, List, [], ◌∷◌, ◌++◌, arith,
}
use openapi_nestjs_auth_mong.Helper.Check.{
  Units, upper, lower, digit, special, or_eight, check_password_strong, check_password_medium,
}
use openapi_nestjs_auth_mong.Helper.Check.Laws.{
  IsPassword, check_password_strong_iff, check_password_medium_iff,
}
use openapi_nestjs_auth_mong.Request.Validation.{
  or_default, given, starts_with, is_password_strong, is_password_medium, is_password_weak,
  is_start_with,
}

-- The length that a decorator asks for: 8, where none or 0 is given.
abbrev pub asked : Option ℕ → ℕ
asked min_length = or_eight (some (or_default min_length))

-- No password of an asked length is empty.
given_iff :
    (test : Units → Bool) (classes : List (ℕ → Bool)) (min_length : Option ℕ) (value : Units)
    → (test value ≡ true) ↔ IsPassword classes (asked min_length) value
    → (given test (some value) ≡ true) ↔ IsPassword classes (asked min_length) value
given_iff test classes none [] iff = (λ h. cc, λ v. absurd (ground (arith, v.long)))
given_iff test classes (some n) [] iff = (λ h. cc, λ v. absurd (ground (arith, v.long)))
given_iff test classes min_length (c ∷ cs) iff = iff

-- IsPasswordStrong accepts a value exactly when it is on one line, has the length that is asked for
-- and holds an upper case letter, a lower case letter, a digit and a special character.
-- IsPasswordMedium and IsPasswordWeak both ask for the same less the special character.
pub strength_constraints :
    (min_length : Option ℕ) (value : Units)
    → ((is_password_strong min_length (some value) ≡ true)
        ↔ IsPassword (upper ∷ lower ∷ digit ∷ special ∷ []) (asked min_length) value)
      × ((is_password_medium min_length (some value) ≡ true)
          ↔ IsPassword (upper ∷ lower ∷ digit ∷ []) (asked min_length) value)
      × ((is_password_weak min_length (some value) ≡ true)
          ↔ IsPassword (upper ∷ lower ∷ digit ∷ []) (asked min_length) value)
unfolding is_password_strong is_password_medium is_password_weak
strength_constraints min_length value =
    let n : Option ℕ = some (or_default min_length) in
    let medium =
      given_iff (λ v. check_password_medium v n) (upper ∷ lower ∷ digit ∷ []) min_length value
        (check_password_medium_iff value n) in
    (
      given_iff (λ v. check_password_strong v n) (upper ∷ lower ∷ digit ∷ special ∷ []) min_length
          value (check_password_strong_iff value n),
      medium,
      medium,
    )

starts_with_iff :
    (prefix value : Units)
    → (starts_with prefix value ≡ true) ↔ ((rest : Units) × (value ≡ prefix ++ rest))
starts_with_iff [] value = (λ h. (value, refl), λ r. refl)
starts_with_iff (c ∷ cs) [] = (λ h. cc, λ r. cc (r.1))
starts_with_iff (c ∷ cs) (d ∷ ds) =
    let rest = starts_with_iff cs ds in
    (
      λ h. let r = rest.0 (ground arith) in (r.0, ground (arith, r.1)),
      λ r. ground (arith, r.1, rest.1 (r.0, ground (arith, r.1))),
    )

all_prefixes_iff :
    (prefixes : List Units) (value : Units)
    → (every (λ prf. starts_with prf value) prefixes ≡ true)
      ↔ All (λ prf. (rest : Units) × (value ≡ prf ++ rest)) prefixes
all_prefixes_iff [] value = ground arith
all_prefixes_iff (prf ∷ prefixes) value =
    let here = starts_with_iff prf value in
    let there = all_prefixes_iff prefixes value in
    (
      λ h. (here.0 (ground arith), there.0 (ground arith)),
      λ a. ground (arith, here.1 a.0, there.1 a.1),
    )

-- IsStartWith accepts a value exactly when it is not empty and begins with every one of the
-- prefixes, and not just with one of them.
pub is_start_with_iff :
    (prefixes : List Units) (value : Units)
    → (is_start_with prefixes (some value) ≡ true)
      ↔ ((value ≢ []) × All (λ prf. (rest : Units) × (value ≡ prf ++ rest)) prefixes)
unfolding is_start_with
is_start_with_iff prefixes [] = (λ h. cc, λ r. absurd (r.0 refl))
is_start_with_iff prefixes (c ∷ cs) =
    let all = all_prefixes_iff prefixes (c ∷ cs) in (λ h. (λ e. cc, all.0 h), λ r. all.1 r.1)

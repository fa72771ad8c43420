-- ===== src/Helper/Check/Laws.antt =====
-- What the password checks accept, and what the censor shows.
use openapi_nestjs_auth_mong.Prelude.{
  zero, suc, ap, take, length, every, All, Any, drop, replicate, length-drop, ℕ, ◌≤◌, ◌≡◌, ◌↔◌,
  refl, Bool, true, Option, List, [], ◌∷◌, ◌++◌, arith,
}
use openapi_nestjs_auth_mong.Helper.Check.{
  Units, upper, lower, digit, special, dot, ahead, or_eight, check_password_weak,
  check_password_medium, check_password_strong, hidden, stars, censor,
}

-- One of the units is of the class.
abbrev pub Has : (ℕ → Bool) → Units → Type 0
Has test cs = Any (λ c. test c ≡ true) cs

-- With no line terminator in the text, a lookahead sees all of it.
ahead_iff :
    (test : ℕ → Bool) (cs : Units) → every dot cs ≡ true → (ahead test cs ≡ true) ↔ Has test cs
ahead_iff test [] clean = ground arith
ahead_iff test (c ∷ cs) clean = ground (arith, ahead_iff test cs)

-- The password is on one line, has the length, and a unit of every class.
pub record IsPassword (classes : List (ℕ → Bool)) (n : ℕ) (password : Units) : Type 0 where
  pub one_line : every dot password ≡ true
  pub long : n ≤ length password
  pub has : All (λ test. Has test password) classes

-- A password passes the strong check exactly when it is on one line, has at least the length that is
-- asked for, where none or 0 asks for 8, and holds an upper case letter, a lower case letter, a digit
-- and one of the special characters.
pub check_password_strong_iff :
    (password : Units) (n : Option ℕ)
    → (check_password_strong password n ≡ true)
      ↔ IsPassword (upper ∷ lower ∷ digit ∷ special ∷ []) (or_eight n) password
unfolding check_password_strong
check_password_strong_iff password n = ground (
  arith,
  ahead_iff upper password,
  ahead_iff lower password,
  ahead_iff digit password,
  ahead_iff special password,
)

pub check_password_medium_iff :
    (password : Units) (n : Option ℕ)
    → (check_password_medium password n ≡ true)
      ↔ IsPassword (upper ∷ lower ∷ digit ∷ []) (or_eight n) password
unfolding check_password_medium
check_password_medium_iff password n =
    ground (arith, ahead_iff upper password, ahead_iff lower password, ahead_iff digit password)

pub check_password_weak_iff :
    (password : Units) (n : Option ℕ)
    → (check_password_weak password n ≡ true)
      ↔ IsPassword (upper ∷ lower ∷ []) (or_eight n) password
unfolding check_password_weak
check_password_weak_iff password n =
    ground (arith, ahead_iff upper password, ahead_iff lower password)

-- A censored text of at least two units is a run of one to ten stars with the end of the text, which
-- is at most four units long and never the whole text.
pub record IsCensored (value result : Units) : Type 0 where
  pub covered : Units
  pub shown : Units
  pub all_of : value ≡ covered ++ shown
  pub masked : result ≡ replicate (stars (length value)) 42 ++ shown
  pub some_stars : (1 ≤ stars (length value)) × (stars (length value) ≤ 10)
  pub few_shown : length shown ≤ 4
  pub some_covered : 1 ≤ length covered

take-append-drop : (n : ℕ) (cs : Units) → cs ≡ take n cs ++ drop n cs
take-append-drop zero cs = refl
take-append-drop (suc n) [] = refl
take-append-drop (suc n) (c ∷ cs) = ap (λ t. c ∷ t) (take-append-drop n cs)

length-take_of_le : (n : ℕ) (cs : Units) → n ≤ length cs → length (take n cs) ≡ n
length-take_of_le zero cs h = refl
length-take_of_le (suc n) [] h = absurd (omega arith)
length-take_of_le (suc n) (c ∷ cs) h = ap suc (length-take_of_le n cs (omega arith))

pub censor-IsCensored : (value : Units) → 2 ≤ length value → IsCensored value (censor value)
unfolding censor
censor-IsCensored value h =
    let n = hidden (length value) in
    record {
      covered = take n value;
      shown = drop n value;
      all_of = take-append-drop n value;
      masked = ground arith;
      some_stars = ground arith;
      few_shown = ground (arith, length-drop n value);
      some_covered = ground (arith, length-take_of_le n value);
    }

-- ===== src/Request/Validation.antt =====
-- utils/request/validation: the constraints of the request bodies with the decorators that register
-- them, and utils/request/pipe/request.add-date.pipe.ts.
pub mod Laws
use openapi_nestjs_auth_mong.Prelude.{
  ltb, leb, eqb, every, ℕ, ◌+◌, ◌*◌, Bool, true, false, ◌&&◌, Option, none, some, List, [], ◌∷◌,
}
use openapi_nestjs_auth_mong.Helper.Check.{
  Units, check_password_weak, check_password_medium, check_password_strong, check_safe_string,
  check_string_or_number, check,
}

-- `value ? test : false`: no value and the empty text are falsy
abbrev pub given : (Units → Bool) → Option Units → Bool
given test none = false
given test (some []) = false
given test (some (c ∷ cs)) = test (c ∷ cs)

-- `minLength = 8`
abbrev pub or_default : Option ℕ → ℕ
or_default none = 8
or_default (some n) = n

unfoldable pub is_password_strong_constraint : ℕ → Option Units → Bool
unfolding check_password_strong
is_password_strong_constraint n value = given (λ v. check_password_strong v (some n)) value

unfoldable pub is_password_strong : Option ℕ → Option Units → Bool
unfolding is_password_strong_constraint
is_password_strong min_length value = is_password_strong_constraint (or_default min_length) value

unfoldable pub is_password_medium_constraint : ℕ → Option Units → Bool
unfolding check_password_medium
is_password_medium_constraint n value = given (λ v. check_password_medium v (some n)) value

unfoldable pub is_password_medium : Option ℕ → Option Units → Bool
unfolding is_password_medium_constraint
is_password_medium min_length value = is_password_medium_constraint (or_default min_length) value

-- the constraint of the weak passwords calls the medium check
unfoldable pub is_password_weak_constraint : ℕ → Option Units → Bool
unfolding check_password_medium
is_password_weak_constraint n value = given (λ v. check_password_medium v (some n)) value

unfoldable pub is_password_weak : Option ℕ → Option Units → Bool
unfolding is_password_weak_constraint
is_password_weak min_length value = is_password_weak_constraint (or_default min_length) value

-- `value.startsWith(prefix)`
abbrev pub starts_with : Units → Units → Bool
starts_with [] value = true
starts_with (c ∷ cs) [] = false
starts_with (c ∷ cs) (d ∷ ds) = eqb c d && starts_with cs ds

-- `prefix.every(...)`
unfoldable pub is_start_with : List Units → Option Units → Bool
is_start_with prefix value = given (λ v. every (λ prf. starts_with prf v) prefix) value

unfoldable pub is_only_digits : Option Units → Bool
unfolding check
is_only_digits value = given check value

unfoldable pub safe_string : Option Units → Bool
unfolding check_safe_string
safe_string value = given check_safe_string value

-- SkipConstraint
unfoldable pub skip_constraint : Option Units → Bool
skip_constraint value = true

-- What a property of a body may be: a flag, or a text.
pub data Given : Type 0 where
  flag : Bool → Given
  text : Option Units → Given

unfoldable pub string_or_number_or_boolean : Given → Bool
unfolding check_string_or_number
string_or_number_or_boolean (flag b) = true
string_or_number_or_boolean (text value) = given check_string_or_number value

-- A comparison of two numbers or dates: false, where one of them is undefined.
abbrev pub compared : (ℕ → ℕ → Bool) → Option ℕ → Option ℕ → Bool
compared test (some a) (some b) = test a b
compared test _ _ = false

unfoldable pub max_greater_than_equal : Option ℕ → Option ℕ → Bool
max_greater_than_equal related value = compared leb value related

unfoldable pub max_greater_than : Option ℕ → Option ℕ → Bool
max_greater_than related value = compared ltb value related

unfoldable pub min_greater_than_equal : Option ℕ → Option ℕ → Bool
min_greater_than_equal related value = compared (λ a b. leb b a) value related

unfoldable pub min_greater_than : Option ℕ → Option ℕ → Bool
min_greater_than related value = compared (λ a b. ltb b a) value related

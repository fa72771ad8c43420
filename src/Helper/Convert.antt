-- ===== src/Helper/Convert.antt =====
-- HelperStringService.convertStringToNumberOrBooleanIfPossible, and which values JavaScript takes
-- for true.
use openapi_nestjs_auth_mong.Prelude.{
  if◌then◌else◌, leb, eqb, String, Bool, true, false, not, ◌&&◌, ◌||◌, ◌==◌,
}
use openapi_nestjs_auth_mong.Documents.{SettingValue, text, number, boolean}
use Prim.Native.Char.{Char, code}
use Prim.Native.String.{[], ◌∷◌}

abbrev is_digit : Char → Bool
is_digit c = leb 48 (code c) && leb (code c) 57

abbrev all_digits : String → Bool
all_digits [] = true
all_digits (c ∷ s) = is_digit c && all_digits s

-- /^\d+$/
abbrev digits : String → Bool
digits s = all_digits s && not (s == "")

-- /^-?\d+$/
abbrev regex_number : String → Bool
regex_number [] = false
regex_number (c ∷ s) = if eqb (code c) 45 then digits s else digits (c ∷ s)

unfoldable pub convert_string_to_number_or_boolean_if_possible : String → SettingValue
convert_string_to_number_or_boolean_if_possible s =
    if s == "true" || s == "false"
    then boolean (s == "true")
    else if regex_number s
    then number s
    else text s

-- A digit from 1 to 9 makes a number differ from 0.
abbrev has_nonzero : String → Bool
has_nonzero [] = false
has_nonzero (c ∷ s) = (leb 49 (code c) && leb (code c) 57) || has_nonzero s

abbrev pub is_truthy : SettingValue → Bool
is_truthy (text s) = not (s == "")
is_truthy (number s) = has_nonzero s
is_truthy (boolean b) = b

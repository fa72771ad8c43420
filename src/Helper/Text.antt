-- ===== src/Helper/Text.antt =====
-- The text operations of the language that the services use, and the generator of
-- utils/helper/service/helper.string.service.ts.
use openapi_nestjs_auth_mong.Prelude.{
  if◌then◌else◌, length, ℕ, ◌+◌, String, Bool, none, some, find?,
}
use openapi_nestjs_auth_mong.Platform.{Platform}
use openapi_nestjs_auth_mong.Handler.{Handler, at_moment}
use Prim.Native.String
use Prim.Native.String.{slice, len}

infixl 65 ◌&◌
abbrev pub ◌&◌ : String → String → String
a & b = String.◌++◌ a b

-- `${a}:${b}`
abbrev pub joined : String → String → String
joined a b = a & ":" & b

-- `text.replace(pattern, '')`, for a pattern that is a text: its first occurrence
abbrev pub without_first : String → String → String
without_first pattern value = elim (find? value pattern) [
  | none ↦ value
  | some i ↦ slice value 0 i & slice value (i + len pattern) (len value)
]

-- `text.replace(pattern, replacement)`, for a pattern that is a text
abbrev pub replace_first : String → String → String → String
replace_first pattern replacement value = elim (find? value pattern) [
  | none ↦ value
  | some i ↦ slice value 0 i & replacement & slice value (i + len pattern) (len value)
]

-- IHelperStringRandomOptions
pub record RandomOptions : Type 0 where
  pub safe : Bool
  pub upper_case : Bool
  pub prefix : String

module _ (p : Platform) where
  -- HelperStringService.random
  unfoldable pub random : ℕ → RandomOptions → Handler String
  random length options = at_moment p λ m.
      let value = p.random_password length options.safe options.prefix m in
      if options.upper_case then p.to_upper_case value else value

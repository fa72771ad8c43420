-- ===== src/Helper/Split.antt =====
-- `split` and `join` of texts in the language, at a separator of one character.
pub mod Laws
use openapi_nestjs_auth_mong.Prelude.{
  ℕ, Option, none, some, eqb, if◌then◌else◌, String, List, [], ◌∷◌, Bool, true, not, ◌&&◌,
}
use openapi_nestjs_auth_mong.Helper.Text.{◌&◌}
use Prim.Native.Char.{Char, code}

-- a character before the first of the parts
abbrev pub onto : Char → List String → List String
onto c [] = String.◌∷◌ c "" ∷ []
onto c (t ∷ ts) = String.◌∷◌ c t ∷ ts

-- whether the character is the separator, which is given by its number
abbrev pub is_separator : ℕ → Char → Bool
is_separator separator c = eqb (code c) separator

-- a text without the separator
abbrev pub lacks : ℕ → String → Bool
lacks separator String.[] = true
lacks separator (String.◌∷◌ c s) = not (is_separator separator c) && lacks separator s

-- `text.split(separator)`
unfoldable pub split : ℕ → String → List String
split separator String.[] = "" ∷ []
split separator (String.◌∷◌ c s) =
    if is_separator separator c then "" ∷ split separator s else onto c (split separator s)

-- `text.split(separator)[0]` and `[1]`
unfoldable pub split_first : ℕ → String → String
unfolding split
split_first separator value = elim (split separator value) [ [] ↦ "" | s ∷ ss ↦ s ]

unfoldable pub split_second : ℕ → String → Option String
unfolding split
split_second separator value = elim (split separator value) [
  | [] ↦ none
  | s ∷ ss ↦ elim ss [ [] ↦ none | t ∷ ts ↦ some t ]
]

-- `texts.join(',')`
unfoldable pub join_comma : List String → String
join_comma [] = ""
join_comma (t ∷ []) = t
join_comma (t ∷ u ∷ us) = t & "," & join_comma (u ∷ us)

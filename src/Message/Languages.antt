-- ===== src/Message/Languages.antt =====
-- utils/middleware/custom-language/custom-language.middleware.ts: the languages of a request, which it
-- leaves in `customLang` and in the header `x-custom-lang`. `_.uniq` of lodash is a parameter.
pub mod Laws
use openapi_nestjs_auth_mong.Prelude.{
  keep, includes, truthy, String, Option, none, some, List, [], ◌∷◌,
}
use openapi_nestjs_auth_mong.Helper.Split.{split, join_comma}

-- ENUM_MESSAGE_LANGUAGE, which MessageService.getLanguages lists
abbrev pub get_languages : List String
get_languages = "en" ∷ "id" ∷ []

abbrev pub languages_or : String → List String → String
unfolding join_comma
languages_or language [] = language
languages_or language (l ∷ ls) = join_comma (l ∷ ls)

-- `app.language`, and the header
unfoldable pub custom_language : (List String → List String) → String → Option String → String
unfolding split languages_or
custom_language unique language req_languages = elim (truthy req_languages) [
  | none ↦ language
  | some header ↦ languages_or language (unique (keep (includes get_languages) (split b',' header)))
]

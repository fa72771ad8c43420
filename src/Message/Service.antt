-- ===== src/Message/Service.antt =====
-- message/service/message.service.ts, over the translations of nestjs-i18n.
pub mod Laws
use openapi_nestjs_auth_mong.Prelude.{
  ℕ, zero, suc, if◌then◌else◌, String, Option, none, some, List, [], ◌∷◌, ◌++◌, map, Bool, true,
  false, ◌==◌,
}
use openapi_nestjs_auth_mong.Message.Errors.{
  ValidationError, ValidationErrors, validation_error, nil, cons, Found, while_children,
}
use openapi_nestjs_auth_mong.Helper.Text.{◌&◌}
use mathlib.Core.Option

-- IMessage, as an object with its keys in order, or the text of one language.
pub data Message : Type 0 where
  single : String → Message
  by_language : List (String × String) → Message

-- What the callers give for `customLanguages`: `isArray` tells an array from a text.
pub data CustomLanguages : Type 0 where
  not_given : CustomLanguages
  header : String → CustomLanguages
  languages : List String → CustomLanguages

-- `i18n.translate(key, { lang, args })` and `app.language`
pub record I18n : Type 0 where
  pub translate : String → String → List (String × String) → String
  pub default_language : String

-- `messages[language] = text`
abbrev pub set_language : String → String → List (String × String) → List (String × String)
set_language l s [] = (l, s) ∷ []
set_language l s (m ∷ ms) = elim (m.0 == l) [
  | true ↦ (m.0, s) ∷ ms
  | false ↦ m ∷ set_language l s ms
]

-- `messages[language]`
abbrev pub in_language : String → List (String × String) → Option String
in_language l [] = none
in_language l (m ∷ ms) = if m.0 == l then some m.1 else in_language l ms

-- IErrors
pub record Errors : Type 0 where
  pub property : String
  pub message : Message

-- the constraints of an error itself, before the loop
abbrev pub own : ValidationError → Found
own (validation_error name value constraints cs) = record {
  constraints = elim constraints [ none ↦ [] | some names ↦ names ];
  property = name;
  property_value = value;
}

abbrev pub children_of : ValidationError → ValidationErrors
children_of (validation_error name value constraints cs) = cs

infixl 5 ◌>>=◌
abbrev pub ◌>>=◌ : {A B : Type 0} → Option A → (A → Option B) → Option B
none >>= f = none
some a >>= f = f a

module _ (i18n : I18n) where
  unfoldable pub set_message : String → String → List (String × String) → String
  set_message lang key properties = i18n.translate lang key properties

  abbrev pub each_language :
      List String
      → String
      → List (String × String)
      → List (String × String)
      → List (String × String)
  unfolding set_message
  each_language [] key properties messages = messages
  each_language (l ∷ ls) key properties messages =
      each_language ls key properties (set_language l (set_message l key properties) messages)

  -- an object with one key gives its text
  abbrev pub collapse : List (String × String) → Message
  collapse (m ∷ []) = single m.1
  collapse ms = by_language ms

  unfoldable pub get : String → CustomLanguages → List (String × String) → Message
  unfolding set_message each_language
  get key (languages (l ∷ ls)) properties = collapse (each_language (l ∷ ls) key properties [])
  get key given properties = single (set_message i18n.default_language key properties)

  abbrev pub errors_of : CustomLanguages → Found → List String → List Errors
  unfolding get
  errors_of given s [] = []
  errors_of given s (constraint ∷ constraints) =
      record {
        property = s.property;
        message =
            get ("request." & constraint) given
              (("property", s.property) ∷ ("value", s.property_value) ∷ []);
      }
      ∷ errors_of given s constraints

  -- none: the fuel of a loop has run out
  unfoldable pub get_request_errors_message :
      ℕ → ValidationErrors → CustomLanguages → Option (List Errors)
  unfolding while_children errors_of
  get_request_errors_message fuel nil given = some []
  get_request_errors_message fuel (cons e es) given = do
    found ← while_children fuel (children_of e, own e)
    rest ← get_request_errors_message fuel es given
    some (errors_of given found found.constraints ++ rest)

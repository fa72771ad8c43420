-- ===== src/Tests/Messages.antt =====
-- The theorems on messages and answers at concrete arguments.
use openapi_nestjs_auth_mong.Prelude.{
  String, List, [], ◌∷◌, ◌≡◌, ◌↔◌, ◌&&◌, refl, true, none, some, arith, includes, pos,
}
use openapi_nestjs_auth_mong.Message.Errors.{ValidationErrors, validation_error, nil, cons}
use openapi_nestjs_auth_mong.Message.Service.{I18n, Errors, languages, get_request_errors_message}
use openapi_nestjs_auth_mong.Message.Service.Laws.{all_lead, messages_found, messages_never_found}
use openapi_nestjs_auth_mong.Message.Languages.{get_languages, custom_language}
use openapi_nestjs_auth_mong.Message.Languages.Laws.{IsUnique, custom_language_asked}
use openapi_nestjs_auth_mong.Helper.Split.{split}
use openapi_nestjs_auth_mong.Response.{ErrorAnswer, structured, catch}
use openapi_nestjs_auth_mong.Response.Laws.{catch_answers}
use openapi_nestjs_auth_mong.Pagination.Listing.{Page}

abbrev i18n : I18n
i18n = record { translate = λ l key properties. key; default_language = "en" }

-- an address whose city is empty, and an object of unknown values
abbrev nested : ValidationErrors
nested =
    cons
      (validation_error "address" "" none
        (cons (validation_error "city" "" (some ("isNotEmpty" ∷ [])) nil) nil))
      nil

abbrev bare : ValidationErrors
bare = cons (validation_error "items" "" none (cons (validation_error "0" "" none nil) nil)) nil

messages_found_example :
    (r : List Errors) × (get_request_errors_message i18n 2 nested (languages ("en" ∷ [])) ≡ some r)
messages_found_example = messages_found i18n 2 nested (languages ("en" ∷ [])) refl (ground arith)

messages_never_found_example :
    get_request_errors_message i18n 1000 bare (languages ("en" ∷ [])) ≡ none
messages_never_found_example = messages_never_found i18n 1000 bare (languages ("en" ∷ [])) refl

all_kept : IsUnique (λ ls. ls)
all_kept = record { same_items = λ ls l. refl }

custom_language_asked_example :
    includes (split b',' (custom_language (λ ls. ls) "en" (some "xx,id"))) "id"
    ≡ (includes get_languages "id" && includes (split b',' "xx,id") "id")
unfolding split
custom_language_asked_example = custom_language_asked (λ ls. ls) "en" "xx,id" "id" all_kept refl

abbrev page : Page String
page = record {
  total_data = 1;
  total_page = some (pos 1);
  current_page = pos 1;
  per_page = pos 10;
  items = "one" ∷ [];
}

catch_answers_example :
    ((a : ErrorAnswer) × (catch i18n 2 422 "en"
          (structured 5981 "request.validation" (some nested) none none)
        ≡ some a))
    ↔ (all_lead nested ≡ true)
catch_answers_example =
    catch_answers i18n 2 422 "en" 5981 "request.validation" nested none none (ground arith)

-- ===== src/Response/Laws.antt =====
-- The languages of an answer's message, the pages that a list reports, and when an error is answered.
use mathlib.Core.Option
use openapi_nestjs_auth_mong.Prelude.{
  ◌==◌, Bool-cases, any, includes, ◌&&◌, ℕ, ◌≤◌, ◌≡◌, ◌≢◌, ◌↔◌, sym, ap, ◌∙◌, String, Option, some,
  List, [], ◌∷◌, Bool, true, arith, eq_iff, inl, inr,
}
use openapi_nestjs_auth_mong.Http.{Tokens}
use openapi_nestjs_auth_mong.Pagination.Listing.{Page}
use openapi_nestjs_auth_mong.Helper.Split.{split}
use openapi_nestjs_auth_mong.Message.Errors.{ValidationErrors}
use openapi_nestjs_auth_mong.Message.Languages.{get_languages, custom_language}
use openapi_nestjs_auth_mong.Message.Languages.Laws.{IsUnique, custom_language_asked}
use openapi_nestjs_auth_mong.Message.Service.{
  Message, single, by_language, languages, I18n, Errors, get, ◌>>=◌,
}
use openapi_nestjs_auth_mong.Message.Service.Laws.{
  text_in, get_translates, all_lead, deepest, messages_found, messages_never_found,
}
use openapi_nestjs_auth_mong.Response.{
  PagingType, structured, ErrorAnswer, or_message, response_default, response_paging, catch,
}

text_in-or_message :
    (l t : String) (m n : Message)
    → text_in l m ≡ some t
    → t ≢ ""
    → text_in l (or_message m n) ≡ some t
text_in-or_message l t (single s) n h full = ground (arith, eq_iff s "")
text_in-or_message l t (by_language ms) n h full = h

any_of :
    (p : String → Bool) (ls : List String) (l : String)
    → p l ≡ true
    → includes ls l ≡ true
    → any p ls ≡ true
any_of p [] l h there = cc
any_of p (k ∷ ls) l h there = elim (Bool-cases (k == l)) [
  | inl same ↦ let is = (eq_iff k l).0 same in ground (arith, ap p is)
  | inr other ↦ ground (arith, any_of p ls l h)
]

-- The message of an answer is there in each supported language that the request's header asks for,
-- where `_.uniq` keeps the items of a list and the translation is not empty.
pub response_default_language :
    {A : Type 0} (i18n : I18n) (unique : List String → List String)
    (language header l path : String) (option : Option ℕ) (status : ℕ) (content : A)
    → IsUnique unique
    → includes get_languages l ≡ true
    → includes (split b',' header) l ≡ true
    → i18n.translate l path [] ≢ ""
    → text_in l
        (response_default i18n path option status
          (custom_language unique language (some header))
          content).message
      ≡ some (i18n.translate l path [])
unfolding response_default
response_default_language i18n unique language header l path option status content uniq known asked
      translated =
    let given = split b',' (custom_language unique language (some header)) in
    let there : includes given l ≡ true =
      custom_language_asked unique language header l uniq
        (any_of (includes get_languages) (split b',' header) l known asked)
      ∙ ap (λ b. b && includes (split b',' header) l) known
      ∙ asked in
    text_in-or_message l (i18n.translate l path []) (get i18n path (languages given) []) _
      (get_translates i18n path given [] l there) translated

-- The message of a list is that of the default language alone, whatever languages the request has.
pub response_paging_language :
    {A : Type 0} (i18n : I18n) (path : String) (option : Option ℕ) (type : PagingType) (status : ℕ)
    (custom_lang : String) (sorts searches : List String) (page : Page A)
    → i18n.translate i18n.default_language path [] ≢ ""
    → (response_paging i18n path option type status custom_lang sorts searches page).message
      ≡ single (i18n.translate i18n.default_language path [])
unfolding response_paging get
response_paging_language i18n path option PagingType.full status custom_lang sorts searches page
      translated =
    ground (arith, eq_iff (i18n.translate i18n.default_language path []) "")
response_paging_language i18n path option PagingType.simple status custom_lang sorts searches page
      translated =
    ground (arith, eq_iff (i18n.translate i18n.default_language path []) "")
response_paging_language i18n path option PagingType.mini status custom_lang sorts searches page
      translated =
    ground (arith, eq_iff (i18n.translate i18n.default_language path []) "")

abbrev the_answer :
    I18n
    → ℕ
    → ℕ
    → String
    → Option Tokens
    → Option (List (String × String))
    → String
    → List Errors
    → ErrorAnswer
the_answer i18n status status_code message content properties custom_lang errors = record {
  status_http = status;
  status_code = status_code;
  message = get i18n message (languages (split b',' custom_lang)) (Option.get_or properties []);
  errors = some errors;
  content = content;
}

-- An error with a list of validation errors is answered, given as many rounds as they have levels,
-- exactly when each of them has no children or children that lead to constraints.
pub catch_answers :
    (i18n : I18n) (fuel status : ℕ) (custom_lang : String) (status_code : ℕ) (message : String)
    (es : ValidationErrors) (content : Option Tokens) (properties : Option (List (String × String)))
    → deepest es ≤ fuel
    → ((a : ErrorAnswer) × (catch i18n fuel status custom_lang
            (structured status_code message (some es) content properties)
          ≡ some a))
      ↔ (all_lead es ≡ true)
unfolding catch
catch_answers i18n fuel status custom_lang status_code message es content properties enough =
    let given = languages (split b',' custom_lang) in
    let answer = λ (errors : List Errors).
      the_answer i18n status status_code message content properties custom_lang errors in
    (
      λ a. elim (Bool-cases (all_lead es)) [
        | inl on ↦ on
        | inr off ↦
            let never = messages_never_found i18n fuel es given off in
            let is = sym (ap (λ o. o >>= λ errors. some (answer errors)) never) ∙ a.1 in cc
      ],
      λ on.
          let (errors, found) = messages_found i18n fuel es given on enough in
          (answer errors, ap (λ o. o >>= λ r. some (answer r)) found),
    )

-- ===== src/Response.antt =====
-- utils/response/interceptor (the default and the paging one) and utils/error/filter/error.filter.ts:
-- how an answer is put together.
pub mod Echo
pub mod Timeout
pub mod Laws
use openapi_nestjs_auth_mong.Prelude.{
  ltb, if◌then◌else◌, ℤ, pos, negsuc, ℕ, zero, suc, String, Option, none, some, List, [], ◌∷◌, ◌==◌,
}
use openapi_nestjs_auth_mong.Http.{Tokens}
use openapi_nestjs_auth_mong.Pagination.{default_max_page, at_most}
use openapi_nestjs_auth_mong.Pagination.Listing.{Page}
use openapi_nestjs_auth_mong.Helper.Split.{split}
use openapi_nestjs_auth_mong.Message.Errors.{ValidationErrors}
use openapi_nestjs_auth_mong.Message.Service.{
  Message, single, by_language, CustomLanguages, header, languages, I18n, Errors, get,
  get_request_errors_message, ◌>>=◌,
}
use mathlib.Core.Option

-- `options && options.statusCode ? options.statusCode : undefined`, and the status of express if that
-- is falsy
abbrev pub status_or : Option ℕ → ℕ → ℕ
status_or none status = status
status_or (some zero) status = status
status_or (some (suc n)) status = suc n

-- `message || otherwise`: the one falsy message is the empty text
abbrev pub or_message : Message → Message → Message
or_message (single s) otherwise = if s == "" then otherwise else single s
or_message (by_language ms) otherwise = by_language ms

pub record Answer (A : Type 0) : Type 0 where
  pub status_code : ℕ
  pub message : Message
  pub content : A

-- ENUM_PAGINATION_TYPE
pub data PagingType : Type 0 where
  full simple mini : PagingType

-- totalPage, currentPage and perPage
pub record Place : Type 0 where
  pub total_page : Option ℤ
  pub current_page : ℤ
  pub per_page : ℤ

-- The answer of a list, without `metadata`, which no list gives; `none` for what the type of the paging leaves out.
pub record PagingAnswer (A : Type 0) : Type 0 where
  pub status_code : ℕ
  pub message : Message
  pub total_data : ℕ
  pub place : Option Place
  pub available_sort : Option (List String)
  pub available_search : Option (List String)
  pub items : List A

-- IErrorException, or a body that is a text
pub data ErrorBody : Type 0 where
  structured :
      (status_code : ℕ) (message : String) (errors : Option ValidationErrors)
      (content : Option Tokens) (properties : Option (List (String × String)))
      → ErrorBody
  unstructured : String → ErrorBody

pub record ErrorAnswer : Type 0 where
  pub status_http : ℕ
  pub status_code : ℕ
  pub message : Message
  pub errors : Option (List Errors)
  pub content : Option Tokens

module _ (i18n : I18n) where
  -- the message of a path, or that of `response.default`
  abbrev pub message_of : String → CustomLanguages → Message
  unfolding get
  message_of path given = or_message (get i18n path given []) (get i18n "response.default" given [])

  -- ResponseDefaultInterceptor, with `customLang` of the request
  unfoldable pub response_default : {A : Type 0} → String → Option ℕ → ℕ → String → A → Answer A
  unfolding message_of split
  response_default path option status custom_lang content = record {
    status_code = status_or option status;
    message = message_of path (languages (split b',' custom_lang));
    content = content;
  }

  -- the pages of a list are at most 20
  abbrev pub place_of : {A : Type 0} → Page A → Place
  place_of page = record {
    total_page = Option.map (at_most default_max_page) page.total_page;
    current_page = page.current_page;
    per_page = page.per_page;
  }

  -- ResponsePagingInterceptor, with the header `x-custom-lang` as it stands
  unfoldable pub response_paging :
      {A : Type 0}
      → String
      → Option ℕ
      → PagingType
      → ℕ
      → String
      → List String
      → List String
      → Page A
      → PagingAnswer A
  unfolding message_of
  response_paging {A} path option type status custom_lang sorts searches page =
      let answer : PagingAnswer A = record {
        status_code = status_or option status;
        message = message_of path (header custom_lang);
        total_data = page.total_data;
        place = some (place_of page);
        available_sort = some sorts;
        available_search = some searches;
        items = page.items;
      } in
      elim type [
        | full ↦ answer
        | simple ↦ record answer { available_sort = none; available_search = none }
        | mini ↦ record answer { place = none; available_sort = none; available_search = none }
      ]

  -- ErrorHttpFilter.catch; none: the fuel of the loop over the errors has run out
  unfoldable pub catch : ℕ → ℕ → String → ErrorBody → Option ErrorAnswer
  unfolding get get_request_errors_message split
  catch fuel status custom_lang (unstructured s) = some (record {
    status_http = status;
    status_code = 500;
    message = get i18n "response.error.structure" (languages (split b',' custom_lang)) [];
    errors = none;
    content = none;
  })
  catch fuel status custom_lang (structured status_code message none content properties) =
      some (record {
        status_http = status;
        status_code = status_code;
        message =
            get i18n message (languages (split b',' custom_lang)) (Option.get_or properties []);
        errors = none;
        content = content;
      })
  catch fuel status custom_lang (structured status_code message (some es) content properties) = do
    errors ← get_request_errors_message i18n fuel es (languages (split b',' custom_lang))
    some (record {
      status_http = status;
      status_code = status_code;
      message = get i18n message (languages (split b',' custom_lang)) (Option.get_or properties []);
      errors = some errors;
      content = content;
    })

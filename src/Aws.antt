-- ===== src/Aws.antt =====
-- aws/service/aws.s3.service.ts: AwsS3Service over the S3 client (`@aws-sdk/client-s3`), which is a
-- parameter: what each command does with the objects, the buckets and the network is its own.
pub mod Laws
use openapi_nestjs_auth_mong.Prelude.{
  ℕ, if◌then◌else◌, String, Bool, true, false, Option, none, some, List, [], ◌∷◌, map, ◌==◌, truthy,
}
use openapi_nestjs_auth_mong.Documents.{Picture}
use openapi_nestjs_auth_mong.Handler.{Outcome, returns, throws}
use openapi_nestjs_auth_mong.Http.{failure}
use openapi_nestjs_auth_mong.Helper.Text.{◌&◌}
use openapi_nestjs_auth_mong.Helper.Split.{is_separator}
use openapi_nestjs_auth_mong.Helper.Last.{before_last, from_last, after_last}

-- The commands, on the state S of the store and with contents C: none where `send` rejects.
pub record Client (S C : Type 0) : Type 0 where
  pub list_buckets : S → Option (List String)
  -- the keys under a prefix; the inner none: an answer without `Contents`
  pub list_objects : Option String → S → Option (Option (List String))
  -- `item.Body`
  pub get_object : String → S → Option C
  pub put_object : String → C → String → S → Option S
  pub delete_object : String → S → Option S
  pub delete_objects : List String → S → Option S
  -- the base URL that the service is configured with
  pub base_url : String
  pub to_upper_case : String → String
  pub to_locale_upper_case : String → String

-- IAwsS3PutItemOptions
pub record PutOptions : Type 0 where
  pub path : String
  pub acl : Option String

-- path.startsWith('/') ? path.replace('/', '') : path
abbrev pub relative : String → String
relative String.[] = ""
relative (String.◌∷◌ c s) = if is_separator b'/' c then s else String.◌∷◌ c s

-- `if (path) path = ...`: a falsy path stays.
abbrev pub given_path : Option String → Option String
given_path none = none
given_path (some path) = some (relative path)

-- path ? `${path}/${filename}` : filename
abbrev pub key_of : Option String → String → String
key_of path filename = elim (truthy path) [ none ↦ filename | some q ↦ q & "/" & filename ]

-- options && options.path ? options.path : undefined
abbrev pub path_of : Option PutOptions → Option String
path_of none = none
path_of (some o) = truthy (some o.path)

-- options && options.acl ? options.acl : 'public-read'
abbrev pub acl_of : Option PutOptions → String
acl_of none = "public-read"
acl_of (some o) = elim (truthy o.acl) [ none ↦ "public-read" | some acl ↦ acl ]

abbrev answered : {A : Type 0} → Option A → Outcome A
answered none = throws failure
answered (some a) = returns a

module _ {S C : Type 0} (client : Client S C) where
  unfoldable pub list_bucket : S → Outcome (List String)
  list_bucket s = answered (client.list_buckets s)

  -- what the list tells of a key
  unfoldable pub listed : String → Picture
  unfolding before_last from_last after_last
  listed key =
      let filename = from_last b'/' key in
      record {
        path = some (before_last b'/' key);
        path_with_filename = key;
        filename = filename;
        completed_url = client.base_url & "/" & key;
        base_url = client.base_url;
        mime = client.to_locale_upper_case (after_last b'.' filename);
      }

  abbrev listed_contents : Option (List String) → Outcome (List Picture)
  listed_contents none = throws failure
  listed_contents (some keys) = returns (map listed keys)

  unfoldable pub list_item_in_bucket : Option String → S → Outcome (List Picture)
  unfolding listed
  list_item_in_bucket prefix s = elim (client.list_objects prefix s) [
    | none ↦ throws failure
    | some contents ↦ listed_contents contents
  ]

  unfoldable pub get_item_in_bucket : String → Option String → S → Outcome C
  get_item_in_bucket filename path s =
      answered (client.get_object (key_of (given_path path) filename) s)

  -- what `putItemInBucket` answers
  unfoldable pub put_answer : String → Option PutOptions → Picture
  unfolding after_last
  put_answer filename options =
      let path = given_path (path_of options) in
      let key = key_of path filename in
      record {
        path = path;
        path_with_filename = key;
        filename = filename;
        completed_url = client.base_url & "/" & key;
        base_url = client.base_url;
        mime = client.to_upper_case (after_last b'.' filename);
      }

  unfoldable pub put_item_in_bucket : String → C → Option PutOptions → S → Outcome Picture × S
  unfolding put_answer
  put_item_in_bucket filename content options s =
      let answer = put_answer filename options in
      elim (client.put_object answer.path_with_filename content (acl_of options) s) [
        | none ↦ (throws failure, s)
        | some s' ↦ (returns answer, s')
      ]

  abbrev tried : Option S → S → Bool × S
  tried none s = (false, s)
  tried (some s') s = (true, s')

  unfoldable pub delete_item_in_bucket : String → S → Bool × S
  delete_item_in_bucket filename s = tried (client.delete_object filename s) s

  unfoldable pub delete_items_in_bucket : List String → S → Bool × S
  delete_items_in_bucket filenames s = tried (client.delete_objects filenames s) s

  abbrev delete_contents : String → Option (List String) → S → Bool × S
  delete_contents dir none s = (false, s)
  delete_contents dir (some keys) s = elim (client.delete_objects keys s) [
    | none ↦ (false, s)
    | some s' ↦ tried (client.delete_object dir s') s'
  ]

  -- The listing stands before the `try`.
  unfoldable pub delete_folder : String → S → Outcome Bool × S
  delete_folder dir s = elim (client.list_objects (some dir) s) [
    | none ↦ (throws failure, s)
    | some contents ↦ let done = delete_contents dir contents s in (returns done.0, done.1)
  ]

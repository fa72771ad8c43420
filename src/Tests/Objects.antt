-- ===== src/Tests/Objects.antt =====
-- The theorems on the bucket, the pictures and the uploaded files at a store of three objects.
use openapi_nestjs_auth_mong.Prelude.{
  String, [], ◌∷◌, ◌≡◌, ◌↔◌, Option, refl, true, none, some, arith, if◌then◌else◌, ◌==◌, eq_iff,
  eq_refl, some-inj, ap,
}
use openapi_nestjs_auth_mong.Documents.{Picture}
use openapi_nestjs_auth_mong.Sample.{platform, world}
use openapi_nestjs_auth_mong.Helper.Last.{after_last}
use openapi_nestjs_auth_mong.Aws.{Client, PutOptions, put_answer, put_item_in_bucket}
use openapi_nestjs_auth_mong.Aws.Laws.{IsStore, Stored, put-get}
use openapi_nestjs_auth_mong.File.{File, Limits, several, intercept}
use openapi_nestjs_auth_mong.File.Laws.{allowed, passes_iff}
use openapi_nestjs_auth_mong.User.Picture.{upload_file}
use openapi_nestjs_auth_mong.User.Picture.Laws.{Pictured, upload-Pictured}
use openapi_nestjs_auth_mong.Tests.{user_keys}

-- A store is what each key reads as.
abbrev Store : Type 0
Store = String → Option String

abbrev client : Client Store String
client = record {
  list_buckets = λ s. some ("bucket" ∷ []);
  list_objects = λ prefix s. some (some []);
  get_object = λ key s. s key;
  put_object = λ key content acl s. some (λ k. if key == k then some content else s k);
  delete_object = λ key s. some (λ k. if key == k then none else s k);
  delete_objects = λ keys s. some s;
  base_url = "https://bucket";
  to_upper_case = λ s. s;
  to_locale_upper_case = λ s. s;
}

abbrev empty : Store
empty key = none

is_store : IsStore client
is_store = record {
  put_read = λ key content acl s stored.
      let at = ap (λ (t : Store). t key) (some-inj stored) in ground (arith, at, eq_refl key);
  put_others = λ key content acl s stored other apart.
      let at = ap (λ (t : Store). t other) (some-inj stored) in
      ground (arith, at, eq_iff key other);
}

abbrev options : PutOptions
options = record { path = "/user/u1"; acl = none }

abbrev answer : Picture
answer = record {
  path = some "user/u1";
  path_with_filename = "user/u1/a.png";
  filename = "a.png";
  completed_url = "https://bucket/user/u1/a.png";
  base_url = "https://bucket";
  mime = "png";
}

put-get_example :
    Stored client "a.png" "content"
      (some options)
      answer
      empty
      (put_item_in_bucket client "a.png" "content" (some options) empty).1
unfolding put_item_in_bucket put_answer after_last
put-get_example = put-get client is_store "a.png" "content" (some options) empty answer refl

abbrev image : File String
image = record { original_name = "me.png"; mime_type = "image/png"; size = 10; content = "content" }

upload-Pictured_example :
    Pictured platform client "u1" "content" world.users
      (upload_file platform client "u1" (some image) world empty).1.0.users
      empty
      (upload_file platform client "u1" (some image) world empty).1.1
unfolding upload_file
upload-Pictured_example =
    upload-Pictured platform user_keys (λ u. refl) client is_store "u1" image world empty refl

abbrev limits : Limits
limits = record { max_files = 2; max_file_size = 100 }

passes_iff_example :
    (intercept (λ s. s) limits true (several (image ∷ image ∷ image ∷ [])) ≡ none)
    ↔ (allowed (λ s. s) limits true (several (image ∷ image ∷ image ∷ [])) ≡ true)
passes_iff_example = passes_iff (λ s. s) limits true (several (image ∷ image ∷ image ∷ []))

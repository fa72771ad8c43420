-- ===== src/File.antt =====
-- utils/file: the interceptor that checks uploaded images.
pub mod Laws
use openapi_nestjs_auth_mong.Prelude.{
  ℕ, ltb, if◌then◌else◌, String, Bool, true, false, ◌||◌, ◌&&◌, Option, none, some, List, [], ◌∷◌,
  ◌==◌, length,
}
use openapi_nestjs_auth_mong.Http.{
  Exception, http, unprocessable_entity, unsupported_media_type, payload_too_large,
  file_needed_error, file_max_error, file_extension_error, file_max_size_error,
}
use openapi_nestjs_auth_mong.Handler.{Outcome, returns, throws}

-- IFile
pub record File (C : Type 0) : Type 0 where
  pub original_name : String
  pub mime_type : String
  pub size : ℕ
  pub content : C

-- `file.maxFiles` and `file.maxFileSize` of config/file.config.ts
pub record Limits : Type 0 where
  pub max_files : ℕ
  pub max_file_size : ℕ

-- `files || file`: an array where several may be uploaded
pub data Files (C : Type 0) : Type 0 where
  single : Option (File C) → Files C
  several : List (File C) → Files C

-- ENUM_FILE_IMAGE_MIME
abbrev pub is_image_mime : String → Bool
is_image_mime s = (s == "image/jpg") || (s == "image/jpeg") || (s == "image/png")

abbrev refused : Exception
refused = http unprocessable_entity file_needed_error "file.error.notFound"

-- finalFiles.length === 0
abbrev pub none_sent {ℓ} : {A : Type ℓ} → List A → Bool
none_sent [] = true
none_sent (a ∷ rest) = false

module _ {C : Type 0} (to_lower_case : String → String) (limits : Limits) (required : Bool) where
  -- none: nothing is thrown
  unfoldable pub validate : Option (File C) → Option Exception
  validate none = if required then some refused else none
  validate (some file) =
      if is_image_mime (to_lower_case file.mime_type)
      then (if ltb limits.max_file_size file.size
          then some (http payload_too_large file_max_size_error "file.error.maxSize")
          else none)
      else some (http unsupported_media_type file_extension_error "file.error.mimeInvalid")

  unfoldable pub validate_all : List (File C) → Option Exception
  unfolding validate
  validate_all [] = none
  validate_all (file ∷ files) = elim (validate (some file)) [
    | some e ↦ some e
    | none ↦ validate_all files
  ]

  -- FileImageInterceptor(required).intercept, up to `next.handle()`
  unfoldable pub intercept : Files C → Option Exception
  unfolding validate validate_all
  intercept (single file) = validate file
  intercept (several files) =
      if required && none_sent files
      then some refused
      else if ltb limits.max_files (length files)
      then some (http unprocessable_entity file_max_error "file.error.maxFiles")
      else validate_all files

-- ===== src/File/Laws.antt =====
-- Which uploads the interceptor lets through.
use openapi_nestjs_auth_mong.Prelude.{
  leb, ◌&&◌, ◌||◌, not, every, String, ◌≡◌, ◌↔◌, Bool, true, none, some, List, [], ◌∷◌, arith,
  length,
}
use openapi_nestjs_auth_mong.File.{
  File, Files, Limits, single, several, is_image_mime, none_sent, validate, validate_all, intercept,
}

module _ {C : Type 0} (to_lower_case : String → String) (limits : Limits) (required : Bool) where
  -- an image of a size within the limit
  abbrev pub fits : File C → Bool
  fits file = is_image_mime (to_lower_case file.mime_type) && leb file.size limits.max_file_size

  -- What may pass: one image that fits, or none where none is required; several that fit, at most
  -- max_files of them, and one at least where one is required.
  abbrev pub allowed : Files C → Bool
  allowed (single none) = not required
  allowed (single (some file)) = fits file
  allowed (several files) =
      (not required || not (none_sent files))
      && leb (length files) limits.max_files
      && every fits files

  -- One file passes just when it fits.
  validate_iff :
      (file : File C)
      → (validate to_lower_case limits required (some file) ≡ none) ↔ (fits file ≡ true)
  unfolding validate
  validate_iff file = ground arith

  validate_all_iff :
      (files : List (File C))
      → (validate_all to_lower_case limits required files ≡ none) ↔ (every fits files ≡ true)
  unfolding validate_all
  validate_all_iff [] = ground arith
  validate_all_iff (file ∷ files) = ground (arith, validate_iff file, validate_all_iff files)

  -- The interceptor lets an upload through just when it is allowed.
  pub passes_iff :
      (files : Files C)
      → (intercept to_lower_case limits required files ≡ none) ↔ (allowed files ≡ true)
  unfolding intercept
  passes_iff (single none) = ground arith
  passes_iff (single (some file)) = validate_iff file
  passes_iff (several files) = ground (arith, validate_all_iff files)

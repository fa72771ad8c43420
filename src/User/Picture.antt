-- ===== src/User/Picture.antt =====
-- user/controller/user.public.controller.ts: upload, on the documents and the objects of the bucket.
pub mod Laws
use openapi_nestjs_auth_mong.Prelude.{ℕ, String, false, Option, none, some, []}
use openapi_nestjs_auth_mong.Documents.{Picture, FullUser}
use openapi_nestjs_auth_mong.Http.{failure}
use openapi_nestjs_auth_mong.Platform.{Platform}
use openapi_nestjs_auth_mong.Handler.{
  World, Outcome, returns, throws, Handler, ◌>>=◌, pure, catch_all, unknown,
}
use openapi_nestjs_auth_mong.Helper.Text.{◌&◌, random}
use openapi_nestjs_auth_mong.Helper.Last.{after_last}
use openapi_nestjs_auth_mong.User.Service.{update_picture}
use openapi_nestjs_auth_mong.User.Public.{profile}
use openapi_nestjs_auth_mong.Aws.{Client, PutOptions, put_item_in_bucket}
use openapi_nestjs_auth_mong.File.{File, Limits, single, intercept}

-- what createRandomFilename returns
pub record RandomFilename : Type 0 where
  pub path : String
  pub filename : String

module _ (p : Platform) where
  -- UserService.createRandomFilename
  unfoldable pub create_random_filename : Handler RandomFilename
  unfolding random
  create_random_filename = do
    filename ← random p 20 (record { safe = false; upper_case = false; prefix = "" })
    pure (record { path = p.upload_path; filename = filename })

module _ (p : Platform) {S C : Type 0} (client : Client S C) where
  abbrev pub Uploading : Type 0 → Type 0
  Uploading A = World → S → Outcome A × (World × S)

  -- `${path.filename}.${mime}`
  abbrev pub stored_name : RandomFilename → File C → String
  stored_name path file = path.filename & "." & p.to_upper_case (after_last b'.' file.original_name)

  -- { path: `${path.path}/${user._id}` }
  abbrev pub put_options : RandomFilename → String → Option PutOptions
  put_options path i = some (record { path = path.path & "/" & i; acl = none })

  -- the end of the `try` block
  abbrev pub record_picture : String → Outcome Picture → Uploading (Unit {0})
  record_picture i (throws e) w s = (throws e, (w, s))
  record_picture i (returns aws) w s =
      let saved = update_picture p i aws w in (saved.0, (saved.1, s))

  -- the `try` block and its `catch`
  unfoldable pub save_picture : String → RandomFilename → File C → Uploading (Unit {0})
  unfolding put_item_in_bucket update_picture
  save_picture i path file w s =
      let put =
        put_item_in_bucket client (stored_name path file) file.content (put_options path i) s in
      let saved = record_picture i put.0 w put.1 in (catch_all unknown saved.0, saved.1)

  abbrev named : String → File C → Outcome RandomFilename → Uploading (Unit {0})
  named i file (throws e) w s = (throws e, (w, s))
  named i file (returns path) w s = save_picture i path file w s

  -- Without a file, `file.originalname` is a TypeError.
  unfoldable pub upload_file : String → Option (File C) → Uploading (Unit {0})
  unfolding create_random_filename save_picture
  upload_file i none w s = (throws failure, (w, s))
  upload_file i (some file) w s =
      let path = create_random_filename p w in named i file path.0 path.1 s

  abbrev uploading : Limits → Option (File C) → FullUser → Uploading (Unit {0})
  uploading limits file full w s = elim (intercept p.to_lower_case limits false (single file)) [
    | some e ↦ (throws e, (w, s))
    | none ↦ upload_file full.user.id file w s
  ]

  abbrev guarded : Limits → Option (File C) → Outcome FullUser → Uploading (Unit {0})
  guarded limits file (throws e) w s = (throws e, (w, s))
  guarded limits file (returns full) w s = uploading limits file full w s

  -- The guards are those of the profile; UploadFileSingle requires no file.
  unfoldable pub upload : Limits → String → Option (File C) → Uploading (Unit {0})
  unfolding profile intercept upload_file
  upload limits token file w s = let full = profile p token w in guarded limits file full.0 full.1 s

-- ===== src/User/Picture/Laws.antt =====
-- The picture of an account and the object that it names.
use openapi_nestjs_auth_mong.Prelude.{
  String, ◌≡◌, ◌≢◌, refl, false, some, Option-cases, inl, inr, List, arith, eq_iff, eq_refl,
}
use openapi_nestjs_auth_mong.Documents.{User, Picture}
use openapi_nestjs_auth_mong.Database.{IsKeyed}
use openapi_nestjs_auth_mong.Platform.{Platform}
use openapi_nestjs_auth_mong.Handler.{World, Outcome, returns, throws, catch_all, unknown, tick}
use openapi_nestjs_auth_mong.User.Schema.{user_pre_save}
use openapi_nestjs_auth_mong.User.Service.{update_picture}
use openapi_nestjs_auth_mong.User.Picture.{
  RandomFilename, stored_name, put_options, record_picture, save_picture, create_random_filename,
  upload_file,
}
use openapi_nestjs_auth_mong.Aws.{Client, put_item_in_bucket}
use openapi_nestjs_auth_mong.Aws.Laws.{IsStore, put-get}
use openapi_nestjs_auth_mong.File.{File}

-- The account `i` has a picture, the object that it names has the content, and the other accounts and
-- objects are as they were.
pub record Pictured (p : Platform) {S C : Type 0} (client : Client S C) (i : String) (content : C)
    (us us' : List User) (s s' : S) : Type 0 where
  pub picture : Picture
  pub after : User
  pub now_is : p.users.find_by_id i us' ≡ some after
  pub shows : after.picture ≡ some picture
  pub stored : client.get_object picture.path_with_filename s' ≡ some content
  pub other_users : (j : String) → i ≢ j → p.users.find_by_id j us' ≡ p.users.find_by_id j us
  pub other_objects :
      (key : String)
      → picture.path_with_filename ≢ key
      → client.get_object key s' ≡ client.get_object key s

module _ (p : Platform) {cast : User → User} (users : IsKeyed (λ (u : User). u.id) cast p.users)
    (keeps_picture : (u : User) → (cast u).picture ≡ u.picture) where
  -- What updatePicture leaves where it returns.
  record Updated (i : String) (picture : Picture) (w w' : World) : Type 0 where
    pub user : User
    pub found : p.users.find_by_id i w'.users ≡ some user
    pub has : user.picture ≡ some picture
    pub others : (j : String) → i ≢ j → p.users.find_by_id j w'.users ≡ p.users.find_by_id j w.users

  updated :
      (i : String) (picture : Picture) (w : World)
      → (update_picture p i picture w).0 ≡ returns tt
      → Updated i picture w (update_picture p i picture w).1
  unfolding update_picture user_pre_save
  updated i picture w h = elim (Option-cases (p.users.find_by_id i w.users)) [
    | inl missing ↦ ground arith
    | inr (u, found) ↦
        let changed = user_pre_save p (record u { picture = some picture }) in
        elim (Option-cases (p.users.save changed w.users)) [
          | inl refused ↦ ground arith
          | inr (us, saved) ↦
              let same = users.id_found i w.users found in
              let put = users.saved changed w.users saved in
              record {
                user = cast changed;
                found = ground (arith, put i, same, eq_refl i);
                has = keeps_picture changed;
                others = λ j apart. ground (arith, same, put j, eq_iff u.id j);
              }
        ]
  ]

  caught : (o : Outcome (Unit {0})) → catch_all unknown o ≡ returns tt → o ≡ returns tt
  caught (returns tt) h = refl
  caught (throws e) h = ground arith

  module _ {S C : Type 0} (client : Client S C) (store : IsStore client) where
    abbrev stored_file : String → RandomFilename → File C → S → Outcome Picture × S
    stored_file i path file s =
        put_item_in_bucket client (stored_name p client path file) file.content
          (put_options p client path i) s

    recorded :
        (i : String) (path : RandomFilename) (file : File C) (w : World) (s : S)
        (o : Outcome Picture)
        → (stored_file i path file s).0 ≡ o
        → (record_picture p client i o w (stored_file i path file s).1).0 ≡ returns tt
        → Pictured p client i file.content w.users
            (record_picture p client i o w (stored_file i path file s).1).1.0.users
            s
            (record_picture p client i o w (stored_file i path file s).1).1.1
    recorded i path file w s (throws e) put h = ground arith
    recorded i path file w s (returns aws) put h =
        let kept = updated i aws w h in
        let read =
          put-get client store (stored_name p client path file) file.content
            (put_options p client path i) s aws put in
        record {
          picture = aws;
          after = kept.user;
          now_is = kept.found;
          shows = kept.has;
          stored = read.by_key;
          other_users = kept.others;
          other_objects = read.others;
        }

    -- In a store that keeps the laws IsStore and a collection of users that keeps the laws IsKeyed and
    -- stores pictures as they are: where the upload of a file for an account returns, the picture of
    -- the account names an object with the content of the file, and the other accounts and objects
    -- are as they were.
    pub upload-Pictured :
        (i : String) (file : File C) (w : World) (s : S)
        → (upload_file p client i (some file) w s).0 ≡ returns tt
        → Pictured p client i file.content w.users
            (upload_file p client i (some file) w s).1.0.users
            s
            (upload_file p client i (some file) w s).1.1
    unfolding upload_file create_random_filename save_picture
    upload-Pictured i file w s h =
        let path : RandomFilename = record {
          path = p.upload_path;
          filename = p.random_password 20 false "" w.moment;
        } in
        let put = stored_file i path file s in
        recorded i path file (tick w) s put.0 refl
          (caught (record_picture p client i put.0 (tick w) put.1).0 h)

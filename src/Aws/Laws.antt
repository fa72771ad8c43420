-- ===== src/Aws/Laws.antt =====
-- What AwsS3Service puts into the bucket is there, under the name that it answers.
use Prim.Native.Char.{Char}
use Prim.Native.String.{◌++◌}
use Prim.Native.String.append
use openapi_nestjs_auth_mong.Prelude.{
  subst, ap, sym, ◌∙◌, truthy, Option-cases, Bool-cases, inl, inr, eq_iff, String, ◌≡◌, ◌≢◌, refl,
  true, Option, none, some, arith, ◌==◌,
}
use openapi_nestjs_auth_mong.Documents.{Picture}
use openapi_nestjs_auth_mong.Handler.{returns}
use openapi_nestjs_auth_mong.Helper.Text.{◌&◌}
use openapi_nestjs_auth_mong.Helper.Split.{lacks}
use openapi_nestjs_auth_mong.Helper.Last.{before_last, from_last, after_last}
use openapi_nestjs_auth_mong.Helper.Last.Laws.{
  before_last-append, from_last-append, after_last-append,
}
use openapi_nestjs_auth_mong.Aws.{
  Client, PutOptions, given_path, path_of, key_of, acl_of, listed, put_answer, put_item_in_bucket,
  get_item_in_bucket,
}
use mathlib.Core.Option

-- What is relied on of the store: an object that is put is read under its key, and the others are
-- read as before.
pub record IsStore {S C : Type 0} (client : Client S C) : Type 0 where
  pub put_read :
      (key : String) (content : C) (acl : String) (s : S) {s' : S}
      → client.put_object key content acl s ≡ some s'
      → client.get_object key s' ≡ some content
  pub put_others :
      (key : String) (content : C) (acl : String) (s : S) {s' : S}
      → client.put_object key content acl s ≡ some s'
      → (other : String) → key ≢ other
      → client.get_object other s' ≡ client.get_object other s

-- The content is read back by its name and path, and by the key that the answer names; the other
-- objects are as they were.
pub record Stored {S C : Type 0} (client : Client S C) (filename : String) (content : C)
    (options : Option PutOptions) (answer : Picture) (s s' : S) : Type 0 where
  pub by_path :
      get_item_in_bucket client filename (Option.map (λ (o : PutOptions). o.path) options) s'
      ≡ returns content
  pub by_key : client.get_object answer.path_with_filename s' ≡ some content
  pub others :
      (other : String)
      → answer.path_with_filename ≢ other
      → client.get_object other s' ≡ client.get_object other s

same_path :
    (path filename : String)
    → key_of (given_path (some path)) filename ≡ key_of (given_path (truthy (some path))) filename
same_path path filename = elim (Bool-cases (path == "")) [
  | inl empty ↦
      subst
        (λ t.
          key_of (given_path (some t)) filename ≡ key_of (given_path (truthy (some t))) filename)
        (sym ((eq_iff path "").0 empty)) refl
  | inr full ↦ ground arith
]

same_key :
    (filename : String) (options : Option PutOptions)
    → key_of (given_path (Option.map (λ (o : PutOptions). o.path) options)) filename
      ≡ key_of (given_path (path_of options)) filename
same_key filename none = refl
same_key filename (some o) = same_path o.path filename

module _ {S C : Type 0} (client : Client S C) (store : IsStore client) where
  -- In a store that keeps the laws IsStore, where putItemInBucket answers, getItemInBucket with the
  -- same name and path returns the content, the key of the answer holds it too, and the objects under
  -- other keys are as they were.
  pub put-get :
      (filename : String) (content : C) (options : Option PutOptions) (s : S) (answer : Picture)
      → (put_item_in_bucket client filename content options s).0 ≡ returns answer
      → Stored client filename content options answer s
          (put_item_in_bucket client filename content options s).1
  unfolding put_item_in_bucket get_item_in_bucket
  put-get filename content options s answer h =
      let key = key_of (given_path (path_of options)) filename in
      let acl = acl_of options in
      elim (Option-cases (client.put_object key content acl s)) [
        | inl refused ↦ ground arith
        | inr (s', stored) ↦
            let read = store.put_read key content acl s stored in
            record {
              by_path = ground (arith, same_key filename options);
              by_key = ground arith;
              others =
                  λ other apart. ground (arith, store.put_others key content acl s stored other);
            }
      ]

-- `${a}/${b}` and `${a}.${b}`, as a character before `b`
joined_by : (a : String) (c : Char) (b : String) → a & String.◌∷◌ c "" & b ≡ a ++ String.◌∷◌ c b
joined_by String.[] c b =
    ap (λ t. t & b) (append.nil (String.◌∷◌ c ""))
    ∙ append.cons c "" b
    ∙ ap (String.◌∷◌ c) (append.nil b)
    ∙ sym (append.nil (String.◌∷◌ c b))
joined_by (String.◌∷◌ d a) c b =
    ap (λ t. t & b) (append.cons d a (String.◌∷◌ c ""))
    ∙ append.cons d (a & String.◌∷◌ c "") b
    ∙ ap (String.◌∷◌ d) (joined_by a c b)
    ∙ sym (append.cons d a (String.◌∷◌ c b))

before_slash : (s : String) → "/" & s ≡ String.◌∷◌ "/" s
before_slash s = append.cons "/" "" s ∙ ap (String.◌∷◌ "/") (append.nil s)

truthy-some : (o : Option String) {q : String} → truthy o ≡ some q → o ≡ some q
truthy-some none h = h
truthy-some (some s) h = elim (Bool-cases (s == "")) [ inl e ↦ ground arith | inr e ↦ ground arith ]

module _ (name extension : String) where
  abbrev full_name : String
  full_name = name & "." & extension

  extension_of :
      lacks b'.' extension ≡ true → after_last b'.' (String.◌∷◌ "/" full_name) ≡ extension
  extension_of ends =
      ap (λ t. after_last b'.' (String.◌∷◌ "/" t)) (joined_by name "." extension)
      ∙ ap (after_last b'.') (sym (append.cons "/" name (String.◌∷◌ "." extension)))
      ∙ after_last-append "." (String.◌∷◌ "/" name) extension ends

module _ {S C : Type 0} (client : Client S C) where
  -- For a file name that has an extension and no slash, put under a path that is not empty: what the
  -- list tells of the key that putItemInBucket answers has the same path, key and URL, and the same
  -- mime in the upper case of the locale, but its file name begins with the slash.
  pub listed-put :
      (q name extension : String) (options : PutOptions)
      → truthy (given_path (path_of (some options))) ≡ some q
      → lacks b'/' (name & "." & extension) ≡ true
      → lacks b'.' extension ≡ true
      → listed client (put_answer client (name & "." & extension) (some options)).path_with_filename
        ≡ record (put_answer client (name & "." & extension) (some options)) {
          filename = "/" & (name & "." & extension);
          mime = client.to_locale_upper_case extension;
        }
  unfolding listed put_answer
  listed-put q name extension options path slashless ends =
      let filename = name & "." & extension in
      let key = joined_by q "/" filename in
      let before = ap (before_last b'/') key ∙ before_last-append "/" q filename slashless in
      let from = ap (from_last b'/') key ∙ from_last-append "/" q filename slashless in
      let ending = ap (after_last b'.') from ∙ extension_of name extension ends in
      let given = truthy-some (given_path (path_of (some options))) path in
      ground (arith, given, before, from, ending, before_slash filename)

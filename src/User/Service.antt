-- ===== src/User/Service.antt =====
-- user/service/user.service.ts
use openapi_nestjs_auth_mong.Prelude.{
  if◌then◌else◌, ℕ, String, Bool, true, false, Option, none, some, List, [], ◌∷◌, map, ◌==◌,
}
use openapi_nestjs_auth_mong.Documents.{Picture, User, text, FullUser}
use openapi_nestjs_auth_mong.Database.{
  Term, text, undefined, equals, like, outside, Filter, where_all, FindAllOptions, paged,
}
use openapi_nestjs_auth_mong.Platform.{Platform}
use openapi_nestjs_auth_mong.Handler.{
  Handler, ◌>>=◌, ◌>>◌, pure, not_null, query, at_moment, write, object_id,
}
use openapi_nestjs_auth_mong.User.Schema.{user_pre_save, save_user, user_by_id, populated}

-- IUserCreate
pub record UserCreate : Type 0 where
  pub first_name : String
  pub last_name : Option String
  pub password : String
  pub password_expiration : ℕ
  pub email : String
  pub mobile_number : Option String
  pub role : String
  pub salt : String

-- IUserCheckExist
pub record UserCheckExist : Type 0 where
  pub email : Bool
  pub mobile_number : Bool

-- IAuthPassword
pub record AuthPassword : Type 0 where
  pub salt : String
  pub password_hash : String
  pub password_expiration : ℕ

-- `value || undefined`
abbrev pub or_undefined : Option String → Option String
or_undefined none = none
or_undefined (some s) = if s == "" then none else some s

abbrev optional_text : Option String → Term
optional_text none = undefined
optional_text (some s) = text s

-- `new this.userModel({ ... })`
abbrev pub new_user : String → UserCreate → User
new_user i c = record {
  id = i;
  first_name = c.first_name;
  last_name = or_undefined c.last_name;
  mobile_number = c.mobile_number;
  email = c.email;
  role = c.role;
  password = c.password;
  password_expiration = c.password_expiration;
  salt = c.salt;
  is_active = true;
  picture = none;
  api_key = [];
}

module _ (p : Platform) where
  -- the role is populated, its permissions are not
  unfoldable pub find_all : Filter → FindAllOptions → Handler (List FullUser)
  find_all f o =
      query p λ w. map (λ u. p.populate_user u w.roles []) (p.users.find f (paged o) w.users)

  unfoldable pub get_total : Filter → Handler ℕ
  get_total f = query p λ w. p.users.count_documents f w.users

  -- findOneById with no options, and with the role and its permissions populated
  unfoldable pub find_one_by_id : String → Handler (Option User)
  find_one_by_id i = user_by_id p i

  unfoldable pub find_one_by_id_populated : String → Handler (Option FullUser)
  find_one_by_id_populated i = query p λ w. populated p (p.users.find_by_id i w.users) w

  unfoldable pub find_one : Filter → Handler (Option User)
  find_one f = query p λ w. p.users.find_one f w.users

  unfoldable pub find_one_populated : Filter → Handler (Option FullUser)
  find_one_populated f = query p λ w. populated p (p.users.find_one f w.users) w

  unfoldable pub create : UserCreate → Handler User
  unfolding user_pre_save
  create c = do
    i ← at_moment p p.new_object_id
    let user = new_user i c
    save_user p user
    pure user

  unfoldable pub delete_one_by_id : String → Handler (Unit {0})
  delete_one_by_id i =
      write p λ w. some (record w { users = p.users.find_by_id_and_delete i w.users })

  unfoldable pub delete_one : Filter → Handler (Unit {0})
  delete_one f = write p λ w. some (record w { users = p.users.find_one_and_delete f w.users })

  unfoldable pub update_one_by_id : String → String → Option String → Handler (Unit {0})
  unfolding user_pre_save
  update_one_by_id i first last = do
    found ← user_by_id p i
    user ← not_null found
    save_user p (record user { first_name = first; last_name = or_undefined last })

  unfoldable pub check_exist : String → Option String → Option String → Handler UserCheckExist
  check_exist email mobile_number i = do
    other ← object_id p i
    exist_email ← query p (λ w. p.users.exists (email_taken other) w.users)
    another ← object_id p i
    exist_mobile_number ← query p (λ w. p.users.exists (mobile_taken another) w.users)
    pure (record { email = exist_email; mobile_number = exist_mobile_number })
    where
      email_taken : String → Filter
      email_taken other = where_all (("email", like email) ∷ ("_id", outside (other ∷ [])) ∷ [])

      mobile_taken : String → Filter
      mobile_taken other = where_all (
          ("mobileNumber", equals (optional_text mobile_number))
          ∷ ("_id", outside (other ∷ []))
          ∷ [])

  unfoldable pub update_picture : String → Picture → Handler (Unit {0})
  unfolding user_pre_save
  update_picture i aws = do
    found ← user_by_id p i
    user ← not_null found
    save_user p (record user { picture = some aws })

  unfoldable pub update_password : String → AuthPassword → Handler (Unit {0})
  unfolding user_pre_save
  update_password i a = do
    found ← user_by_id p i
    user ← not_null found
    save_user p (record user {
      password = a.password_hash;
      password_expiration = a.password_expiration;
      salt = a.salt;
    })

  unfoldable pub update_password_expired : String → ℕ → Handler (Unit {0})
  unfolding user_pre_save
  update_password_expired i expiration = do
    found ← user_by_id p i
    user ← not_null found
    save_user p (record user { password_expiration = expiration })

  unfoldable pub inactive : String → Handler (Unit {0})
  unfolding user_pre_save
  inactive i = do
    found ← user_by_id p i
    user ← not_null found
    save_user p (record user { is_active = false })

  unfoldable pub active : String → Handler (Unit {0})
  unfolding user_pre_save
  active i = do
    found ← user_by_id p i
    user ← not_null found
    save_user p (record user { is_active = true })

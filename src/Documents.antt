-- ===== src/Documents.antt =====
-- The documents of the five collections: apikey/schema, permission/schema, role/schema,
-- user/schema and setting/schema. An ObjectId is its hexadecimal text; a date is its number of
-- milliseconds; an optional property is an Option. createdAt and updatedAt are left out.
use openapi_nestjs_auth_mong.Prelude.{ℕ, String, Bool, Option, List}

pub record Permission : Type 0 where
  pub id : String
  pub code : String
  pub name : String
  pub description : Option String
  pub is_active : Bool

pub record Role : Type 0 where
  pub id : String
  pub name : String
  pub permissions : List String
  pub is_active : Bool
  pub is_admin : Bool

-- IAwsS3Response. There is no path where none was given.
pub record Picture : Type 0 where
  pub path : Option String
  pub path_with_filename : String
  pub filename : String
  pub completed_url : String
  pub base_url : String
  pub mime : String

pub record User : Type 0 where
  pub id : String
  pub first_name : String
  pub last_name : Option String
  pub mobile_number : Option String
  pub email : String
  pub role : String
  pub password : String
  pub password_expiration : ℕ
  pub salt : String
  pub is_active : Bool
  pub picture : Option Picture
  pub api_key : List String

pub record ApiKey : Type 0 where
  pub id : String
  pub name : String
  pub description : Option String
  pub key : String
  pub hash : String
  pub encryption_key : String
  pub passphrase : String
  pub is_active : Bool

-- A setting's value: string | number | boolean. A number stands as its decimal text.
pub data SettingValue : Type 0 where
  text number : String → SettingValue
  boolean : Bool → SettingValue

pub record Setting : Type 0 where
  pub id : String
  pub name : String
  pub description : Option String
  pub value : SettingValue

-- IRoleDocument and IUserDocument: the role with its permissions, and the user with its role, as
-- `populate` fills them in. A reference to a role that is gone is filled with null.
pub record FullRole : Type 0 where
  pub role : Role
  pub permissions : List Permission

pub record FullUser : Type 0 where
  pub user : User
  pub role : Option FullRole

-- ===== src/Logger.antt =====
-- logger/: LoggerService, and the LoggerInterceptor that writes an entry for each answered request. The
-- collection of the entries is a parameter, and so is the type B of the bodies and the parameters.
pub mod Laws
use openapi_nestjs_auth_mong.Prelude.{
  ℕ, suc, if◌then◌else◌, String, Bool, true, false, not, Option, none, some, List, [], ◌==◌, truthy,
  is_some,
}
use openapi_nestjs_auth_mong.Http.{failure}
use openapi_nestjs_auth_mong.Handler.{Outcome, returns, throws}
use openapi_nestjs_auth_mong.Payload.{LoginData}
use openapi_nestjs_auth_mong.Helper.Text.{◌&◌}
use openapi_nestjs_auth_mong.Response.{status_or}

-- ENUM_LOGGER_LEVEL
pub data Level : Type 0 where
  debug_level info_level warm_level fatal_level : Level

-- ILoggerRole, as the request has it: the `_id` may be missing
pub record LoggerRole : Type 0 where
  pub id : Option String
  pub is_admin : Bool

-- ILogger
pub record LoggerData (B : Type 0) : Type 0 where
  pub action : String
  pub description : String
  pub api_key : Option String
  pub user : Option String
  pub request_id : Option String
  pub method : String
  pub role : Option LoggerRole
  pub tags : List String
  pub params : B
  pub bodies : B
  pub status_code : ℕ

-- LoggerEntity
pub record Entry (B : Type 0) : Type 0 where
  pub level : Level
  pub user : Option String
  pub api_key : Option String
  pub anonymous : Bool
  pub action : String
  pub description : String
  pub method : String
  pub request_id : Option String
  pub role : Option String
  pub is_public : Bool
  pub params : B
  pub bodies : B
  pub status_code : ℕ
  pub tags : List String

-- The entries so far and the moment, by which a generated id is told.
pub record Log (B : Type 0) : Type 0 where
  pub entries : List (Entry B)
  pub moment : ℕ

-- What is not under the repository's control: the model's `save` (none: it rejects) and ObjectId.
pub record Model (B : Type 0) : Type 0 where
  pub save : Entry B → List (Entry B) → Option (List (Entry B))
  pub new_object_id : ℕ → String

-- ILoggerOptions
pub record LoggerOptions : Type 0 where
  pub description : Option String
  pub tags : Option (List String)
  pub level : Option Level

-- IRequestApp, as far as it is read
pub record RequestUser : Type 0 where
  pub id : Option String
  pub role : Option LoggerRole

pub record Request (B : Type 0) : Type 0 where
  pub api_key : Option String
  pub method : String
  pub original_url : String
  pub user : Option RequestUser
  pub id : Option String
  pub body : B
  pub params : B

-- `request.user` behind the JWT guards, the payload of the token: its role has no `_id`.
abbrev pub payload_user : LoginData → RequestUser
payload_user login = record {
  id = some login.id;
  role = some (record { id = none; is_admin = login.role.is_admin });
}

module _ {B : Type 0} (model : Model B) where
  -- new Types.ObjectId(role._id)
  abbrev role_id : LoggerRole → ℕ → String
  role_id role m = elim role.id [ some i ↦ i | none ↦ model.new_object_id m ]

  -- role && role.isAdmin ? false : true
  abbrev public_role : Option LoggerRole → Bool
  public_role none = true
  public_role (some role) = not role.is_admin

  abbrev id_of_role : Option LoggerRole → ℕ → Option String
  id_of_role none m = none
  id_of_role (some role) m = some (role_id role m)

  -- the document of `new this.loggerModel({ level, ... })`
  unfoldable pub entry_of : Level → LoggerData B → ℕ → Entry B
  entry_of level d m = record {
    level = level;
    user = truthy d.user;
    api_key = truthy d.api_key;
    anonymous = not (is_some (truthy d.user));
    action = d.action;
    description = d.description;
    method = d.method;
    request_id = d.request_id;
    role = id_of_role d.role m;
    is_public = public_role d.role;
    params = d.params;
    bodies = d.bodies;
    status_code = d.status_code;
    tags = d.tags;
  }

  abbrev saved : Option (List (Entry B)) → Log B → Bool × Log B
  saved none log = (false, record log { moment = suc log.moment })
  saved (some entries) log = (true, record { entries = entries; moment = suc log.moment })

  -- `create.save()`: whether it was saved
  abbrev write : Level → LoggerData B → Log B → Bool × Log B
  write level d log = saved (model.save (entry_of level d log.moment) log.entries) log

  unfoldable pub info : LoggerData B → Log B → Bool × Log B
  unfolding entry_of
  info d = write info_level d

  unfoldable pub debug : LoggerData B → Log B → Bool × Log B
  unfolding entry_of
  debug d = write debug_level d

  unfoldable pub warning : LoggerData B → Log B → Bool × Log B
  unfolding entry_of
  warning d = write warm_level d

  unfoldable pub fatal : LoggerData B → Log B → Bool × Log B
  unfolding entry_of
  fatal d = write fatal_level d

  abbrev pub by_level : Option Level → LoggerData B → Log B → Bool × Log B
  by_level (some fatal_level) = fatal
  by_level (some debug_level) = debug
  by_level (some warm_level) = warning
  by_level (some info_level) = info
  by_level none = info

-- options && options.description, and the same of the tags and the level
abbrev described : Option LoggerOptions → Option String
described none = none
described (some o) = truthy o.description

abbrev tagged : Option LoggerOptions → List String
tagged none = []
tagged (some o) = elim o.tags [ none ↦ [] | some tags ↦ tags ]

abbrev pub level_of : Option LoggerOptions → Option Level
level_of none = none
level_of (some o) = o.level

module _ {B : Type 0} (action : String) (options : Option LoggerOptions) where
  -- what the interceptor hands to the service
  unfoldable pub data_of : Request B → ℕ → LoggerData B
  data_of request status = record {
    action = action;
    description = elim (described options) [
      | some text ↦ text
      | none ↦
          "Request " & request.method & " called, url " & request.original_url & ", and action "
          & action
    ];
    api_key = request.api_key;
    user = elim request.user [ none ↦ none | some user ↦ user.id ];
    request_id = request.id;
    method = request.method;
    role = elim request.user [ none ↦ none | some user ↦ user.role ];
    tags = tagged options;
    params = request.params;
    bodies = request.body;
    status_code = status;
  }

  -- The handler's answer and the statusCode in it, with the status that express has. Only an answer is
  -- tapped, and the answer does not wait for the entry: what becomes of it is not seen.
  unfoldable pub intercept :
      {R : Type 0}
      → Model B
      → Request B
      → ℕ
      → (R → Option ℕ)
      → Outcome R
      → Log B
      → Outcome R × Log B
  unfolding data_of info debug warning fatal
  intercept model request status code (throws e) log = (throws e, log)
  intercept model request status code (returns answer) log =
      let written =
        by_level model (level_of options) (data_of request (status_or (code answer) status)) log in
      (returns answer, written.1)

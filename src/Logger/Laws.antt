-- ===== src/Logger/Laws.antt =====
-- What the interceptor leaves in the log.
use openapi_nestjs_auth_mong.Prelude.{
  ℕ, String, not, is_some, Option, none, some, List, ◌≡◌, refl, ap, truthy, arith,
}
use openapi_nestjs_auth_mong.Handler.{Outcome, returns, throws}
use openapi_nestjs_auth_mong.Payload.{LoginData}
use openapi_nestjs_auth_mong.Response.{status_or}
use openapi_nestjs_auth_mong.Logger.{
  Level, debug_level, info_level, warm_level, fatal_level, LoggerOptions, Entry, Log, Model,
  Request, RequestUser, LoggerData, by_level, payload_user, entry_of, data_of, level_of, info,
  debug, warning, fatal, intercept,
}

-- The level that the options ask for, or INFO.
abbrev pub asked_level : Option LoggerOptions → Level
asked_level options = elim (level_of options) [ none ↦ info_level | some level ↦ level ]

abbrev pub user_id : Option RequestUser → Option String
user_id none = none
user_id (some user) = truthy user.id

-- The entries after a save that may be refused.
abbrev pub after_save : {B : Type 0} → Option (List (Entry B)) → List (Entry B) → List (Entry B)
after_save none entries = entries
after_save (some entries) _ = entries

-- One entry is saved: it has the level asked for, the status answered, who asked, and what was sent as
-- it was sent.
pub record Logged {B : Type 0} (model : Model B) (action : String) (options : Option LoggerOptions)
    (request : Request B) (status : ℕ) (log log' : Log B) : Type 0 where
  pub entry : Entry B
  pub saved : log'.entries ≡ after_save (model.save entry log.entries) log.entries
  pub level : entry.level ≡ asked_level options
  pub about : entry.action ≡ action
  pub answered : entry.status_code ≡ status
  pub user : entry.user ≡ user_id request.user
  pub anonymous : entry.anonymous ≡ not (is_some (user_id request.user))
  pub bodies : entry.bodies ≡ request.body
  pub params : entry.params ≡ request.params

same_user :
    (user : Option RequestUser) → truthy (elim user [ none ↦ none | some u ↦ u.id ]) ≡ user_id user
same_user none = refl
same_user (some u) = refl

module _ {B : Type 0} (model : Model B) where
  written_at :
      (level : Option Level) (d : LoggerData B) (log : Log B)
      → (by_level model level d log).1.entries
        ≡ after_save
            (model.save
              (entry_of model (elim level [ none ↦ info_level | some l ↦ l ]) d log.moment)
              log.entries)
            log.entries
  unfolding info debug warning fatal
  written_at none d log = ground arith
  written_at (some debug_level) d log = ground arith
  written_at (some info_level) d log = ground arith
  written_at (some warm_level) d log = ground arith
  written_at (some fatal_level) d log = ground arith

  written :
      (options : Option LoggerOptions) (d : LoggerData B) (log : Log B)
      → (by_level model (level_of options) d log).1.entries
        ≡ after_save
            (model.save (entry_of model (asked_level options) d log.moment) log.entries)
            log.entries
  written none d log = written_at none d log
  written (some o) d log = written_at o.level d log

module _ {B R : Type 0} (model : Model B) (action : String) (options : Option LoggerOptions) where
  -- The log after the handler: as it was where it threw.
  abbrev pub LogAfter : Request B → ℕ → (R → Option ℕ) → Outcome R → Log B → Log B → Type 0
  LogAfter request status code (throws e) log log' = log' ≡ log
  LogAfter request status code (returns answer) log log' =
      Logged model action options request (status_or (code answer) status) log log'

  -- The interceptor hands on what the handler answered or threw, whatever becomes of the entry; where
  -- the handler threw, the log stays as it was; where it answered, one entry is saved, with the level
  -- of the options or INFO, the action, the status of the answer, the user or none, and the parameters
  -- and the body of the request as they were sent.
  pub intercept-LogAfter :
      (request : Request B) (status : ℕ) (code : R → Option ℕ) (o : Outcome R) (log : Log B)
      → ((intercept action options model request status code o log).0 ≡ o)
        × LogAfter request status code o log
            (intercept action options model request status code o log).1
  unfolding intercept entry_of data_of
  intercept-LogAfter request status code (throws e) log = (refl, refl)
  intercept-LogAfter request status code (returns answer) log =
      let sent = data_of action options request (status_or (code answer) status) in
      (
        refl,
        record {
          entry = entry_of model (asked_level options) sent log.moment;
          saved = written model options sent log;
          level = refl;
          about = refl;
          answered = refl;
          user = same_user request.user;
          anonymous = ap (λ o. not (is_some o)) (same_user request.user);
          bodies = refl;
          params = refl;
        },
      )

module _ {B : Type 0} (model : Model B) (action : String) (options : Option LoggerOptions) where
  -- For a request that carries the payload of a token, the role of its entry is a generated id, that of
  -- the moment, whatever the role of the user.
  pub entry-payload_role :
      (login : LoginData) (request : Request B) (level : Level) (status moment : ℕ)
      → request.user ≡ some (payload_user login)
      → (entry_of model level (data_of action options request status) moment).role
        ≡ some (model.new_object_id moment)
  unfolding entry_of data_of
  entry-payload_role login request level status moment carried = ground (arith, carried)

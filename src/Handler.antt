-- ===== src/Handler.antt =====
-- The code of a request as an action on the database and the moment: it returns or throws, and what
-- it has written before it throws stays written.
pub mod Rules
use openapi_nestjs_auth_mong.Prelude.{
  String, ℕ, suc, ◌≡◌, Bool, true, false, Option, none, some, List, if◌then◌else◌,
}
use openapi_nestjs_auth_mong.Http.{Exception, http, failure, internal_server_error, unknown_error}
use openapi_nestjs_auth_mong.Documents.{Permission, Role, User, ApiKey, Setting}
use openapi_nestjs_auth_mong.Platform.{Platform}

pub record World : Type 0 where
  pub users : List User
  pub roles : List Role
  pub permissions : List Permission
  pub api_keys : List ApiKey
  pub settings : List Setting
  pub moment : ℕ

pub data Outcome (A : Type 0) : Type 0 where
  returns : A → Outcome A
  throws : Exception → Outcome A

abbrev pub Handler : Type 0 → Type 0
Handler A = World → Outcome A × World

module _ {A B : Type 0} where
  abbrev pub go_on : (A → Handler B) → Outcome A → Handler B
  go_on f (returns a) w = f a w
  go_on f (throws e) w = (throws e, w)

  infixl 5 ◌>>=◌ ◌>>◌
  abbrev pub ◌>>=◌ : Handler A → (A → Handler B) → Handler B
  ◌>>=◌ m f w = go_on f (m w).0 (m w).1

  abbrev pub ◌>>◌ : Handler A → Handler B → Handler B
  ◌>>◌ m n w = go_on (λ _. n) (m w).0 (m w).1

module _ {A : Type 0} where
  abbrev pub pure : A → Handler A
  pure a w = (returns a, w)

  abbrev pub throw : Exception → Handler A
  throw e w = (throws e, w)

  -- A property read on a value that may be null: a TypeError.
  abbrev pub not_null : Option A → Handler A
  not_null none = throw failure
  not_null (some a) = pure a

  -- `if (!value) { throw e }`, for a value that the code goes on with
  abbrev pub or_fail : Exception → Option A → Handler A
  or_fail e none = throw e
  or_fail e (some a) = pure a

  abbrev pub catch_all : Exception → Outcome A → Outcome A
  catch_all e (returns a) = returns a
  catch_all e (throws _) = throws e

  -- `try { ... } catch (err) { throw e }`
  abbrev pub or_throw : Handler A → Exception → Handler A
  or_throw m e w = (catch_all e (m w).0, (m w).1)

-- `if (test) { throw e }`
abbrev pub throw_if : Bool → Exception → Handler (Unit {0})
throw_if true e = throw e
throw_if false e = pure tt

-- The answer of every `catch` in the controllers.
abbrev pub unknown : Exception
unknown = http internal_server_error unknown_error "http.serverError.internalServerError"

abbrev pub tick : World → World
tick w = record w { moment = suc w.moment }

module _ (p : Platform) where
  -- A query that the database answers from its documents, or an error of the driver.
  abbrev pub query : {A : Type 0} → (World → A) → Handler A
  query f w = ((if p.reachable w.moment then returns (f w) else throws failure), tick w)

  -- A value that the outside makes at this moment: the time, a salt, a token, an id.
  abbrev pub at_moment : {A : Type 0} → (ℕ → A) → Handler A
  at_moment f w = (returns (f w.moment), tick w)

  abbrev pub stored : Option World → Handler (Unit {0})
  stored none w = (throws failure, w)
  stored (some w') w = (returns tt, w')

  -- A write that the database carries out whole, or refuses.
  abbrev pub write : (World → Option World) → Handler (Unit {0})
  write f w =
      if p.reachable w.moment then stored (f (tick w)) (tick w) else (throws failure, tick w)

  -- `helperDateService.create()`
  abbrev pub now : Handler ℕ
  now = at_moment p.clock

  -- `new Types.ObjectId(_id)`: a fresh id where there is none
  abbrev pub object_id : Option String → Handler String
  object_id none = at_moment p.new_object_id
  object_id (some i) = pure i

-- The documents of two worlds are the same, whatever the moments.
abbrev pub SameDocuments : World → World → Type 0
SameDocuments w v =
    (v.users ≡ w.users)
    × (v.roles ≡ w.roles)
    × (v.permissions ≡ w.permissions)
    × (v.api_keys ≡ w.api_keys)
    × (v.settings ≡ w.settings)

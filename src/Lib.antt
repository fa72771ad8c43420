-- ===== src/Lib.antt =====
-- A model of account-api (packages/account-api/src), a NestJS service for accounts over MongoDB: the
-- users and their roles, the permissions of the roles, the login with JSON web tokens, the API keys,
-- and the settings, one of which is the maintenance mode.
--
-- A request runs the guards of its decorators, from the method upwards, and then the method of its
-- controller, which calls the services; a service reads and saves documents with Mongoose. Here a
-- request is a Handler: from a World, which is the documents of the five collections and a moment,
-- it returns or throws, and leaves a World. What is written before it throws stays written.
--
-- Prelude: Boolean tests, lists over native numbers, the integers of a query.
-- Http: the exceptions and their statusCode (the constants of auth, user, role, permission, setting
--   and utils). Documents: the entities of the five schemas. Payload: what the tokens carry
--   (auth/serialization, auth/service).
-- Database: the filters and options of Mongoose and a collection. Platform: all that is not in the
--   repository - the collections, bcrypt, crypto-js, jsonwebtoken, faker, the clock - and config/auth.
-- Handler: the monad of requests; Handler.Rules: preservation of properties by its parts.
-- Auth: auth/controller, auth/service and auth/guard (Guards for the JWT guards and the permission
--   guard, Login for login and refresh, SignUp, Password; a login after either is in their laws, and
--   Login.Admitted takes the tokens of a login to the guards).
-- ApiKey: apikey/service (Service), auth/guard/api-key (Strategy), auth/guard/basic (Basic).
--   Listing is apikey/controller, with the metadata of its decorators; Sealed is a key from its creation to the header of its owner.
-- User, Role, Permission: the save hook and the service (Service), the guards (Guards), the admin
--   controller (Admin); User.Public is the profile and User.Picture the upload of a picture.
-- Seeds: database/seeds and the bulk services. Health: health. Debugger: debugger/service and
--   utils/error/interceptor.
-- Setting: setting/service, setting/guard and both controllers; Maintenance is
--   utils/middleware/maintenance, and Maintenance.Routes the routes that it runs for.
-- Request: utils/request/guard (Param), the timestamp interceptor of utils/request/interceptor (Clock),
--   the timestamp, timezone and user-agent middleware (Headers), utils/request/validation (Validation)
--   and utils/version (Version).
-- Pagination: pagination/service and pagination.decorator.ts; Listing is what the list
--   requests share, Filters the transforms of the filters.
-- Helper: utils/helper/service (Check for the checks and the censor, Array, Date), and the operations
--   on texts of the language (Split, Last).
-- Message: message/service - Errors is the loop over nested validation errors - and the middleware of
--   the languages (Languages). Response: the interceptors of utils/response and utils/error/filter;
--   Timeout is the time limits and Echo the headers that an answer repeats.
-- Logger: logger/service and logger/interceptor. Aws: aws/service. File: utils/file/interceptor.
-- Integrity: the references between users and roles, over sequences of requests; Frame, Users, Accounts
--   and Roles carry a rule for the one write of a request to the request. Race is a deletion of a role
--   between the two parts of a sign-up.
-- Registry: an abstract machine of the accounts, which the same requests run.
-- Sample, Tests: a platform over lists and the theorems at concrete arguments.
--
-- An ObjectId is its text, a date a number of milliseconds, the number in a header a natural number or
-- none, an optional property an Option; a number as the value of a setting is its decimal text.
-- notBefore and expiresIn of the tokens are numbers; that of the access token, the text '0ms', is one too.
-- The requests of the controllers begin at the guards of their decorators; the global guard and interceptor
-- stand before them only in ApiKey.Listing.
-- A moment grows with each call of the database, the clock or a generator, so that each may answer
-- differently; `reachable` says when the database answers, and a query that it does not answer throws.
-- A save that the driver refuses throws.
-- Theorems on stored documents rely on the laws IsKeyed (a collection is keyed by its ids), IsMongo
-- (and finds the users of a role), KeepsUser, TrimsApiKey and KeepsSetting (what the casts of a schema keep
-- and trim), IsPaged (a limit that is not zero and a skip cut out a part), IsStore (an object that is put is
-- read), Seals (AES and JSON undo themselves), IsUnique (`_.uniq` keeps the items), SettlesFirst
-- (passport settles a request by the first call of its callback), IsTimed (a token is valid in its
-- time, in seconds), Selects (`$in` finds what is listed), MatchesText (path-to-regexp takes text
-- literally), TimesOut (rxjs), Reports (terminus), KeepsItems (lodash) and IsExact (moment). The one loop that is not over a list,
-- that of MessageService.getRequestErrorsMessage, runs on fuel, a number of rounds: the levels of the
-- errors are enough where it ends at all. The buckets, the log and the translations are states and
-- functions of their own, parameters of the modules that use them.
--
-- The checks of texts read UTF-16 code units, and a regular expression is the search that it runs.
--
-- Not modelled: requests that interleave, but for those of Race (each runs whole), the constraints of class-validator itself and
-- their registration, a search text that is no regular expression, the projection of the answers,
-- createdAt and updatedAt, the middleware that hand their options to express packages, the hash,
-- encryption and Excel helpers, and the wiring of the modules: they are calls of third-party code, or
-- carry no state of their own.
pub mod Prelude
pub mod Http
pub mod Documents
pub mod Database
pub mod Payload
pub mod Platform
pub mod Handler
pub mod User
pub mod Permission
pub mod Role
pub mod Request
pub mod Helper
pub mod ApiKey
pub mod Pagination
pub mod Auth
pub mod Setting
pub mod Seeds
pub mod Debugger
pub mod Health
pub mod Message
pub mod Aws
pub mod Logger
pub mod File
pub mod Registry
pub mod Response
pub mod Sample
pub mod Tests
pub mod Integrity

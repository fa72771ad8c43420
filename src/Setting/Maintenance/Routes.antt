-- ===== src/Setting/Maintenance/Routes.antt =====
-- utils/middleware/middleware.module.ts: for which requests MaintenanceMiddleware runs. The matching
-- of a path with a route is that of path-to-regexp, a parameter: a pattern
-- is held against the whole path of the request, the global prefix included.
use openapi_nestjs_auth_mong.Prelude.{
  Bool-cases, leb, eqb, if◌then◌else◌, any, ℕ, ◌+◌, String, ◌≡◌, refl, inl, inr, Bool, true, false,
  ◌&&◌, ◌||◌, Option, none, some, List, [], ◌∷◌, arith, ◌==◌,
}
use Prim.Native.Char.{Char, code}
use openapi_nestjs_auth_mong.Http.{service_unavailable, http, service_unavailable_error}
use openapi_nestjs_auth_mong.Documents.{Setting}
use openapi_nestjs_auth_mong.Platform.{Platform}
use openapi_nestjs_auth_mong.Handler.{Handler, World, throws, pure}
use openapi_nestjs_auth_mong.Helper.Convert.{is_truthy}
use openapi_nestjs_auth_mong.Setting.Service.{named}
use openapi_nestjs_auth_mong.Setting.Maintenance.{maintenance}

-- RouteInfo: a pattern and a method; none is RequestMethod.ALL
pub record Route : Type 0 where
  pub path : String
  pub method : Option String

-- the routes of `exclude`
abbrev pub excluded : List Route
excluded =
    record { path = "api/v:version*/auth/login"; method = some "POST" }
    ∷ record { path = "api/auth/login"; method = some "POST" }
    ∷ record { path = "api/v:version*/auth/refresh"; method = some "POST" }
    ∷ record { path = "api/auth/refresh"; method = some "POST" }
    ∷ record { path = "api/v:version*/admin/setting/(.*)"; method = none }
    ∷ record { path = "api/admin/setting/(.*)"; method = none }
    ∷ []

abbrev of_method : Option String → String → Bool
of_method none method = true
of_method (some m) method = m == method

module _ (matches : String → String → Bool) where
  abbrev pub is_excluded : List Route → String → String → Bool
  is_excluded routes method path =
      any (λ r. of_method r.method method && matches r.path path) routes

  -- the middleware before a request
  unfoldable pub configured : Platform → String → String → Handler (Unit {0})
  unfolding maintenance
  configured p method path = if is_excluded excluded method path then pure tt else maintenance p

-- The text of a pattern before its first parameter.
abbrev pub literal_of : String → String
literal_of String.[] = ""
literal_of (String.◌∷◌ c t) =
    if eqb (code c) b':' || eqb (code c) b'(' then "" else String.◌∷◌ c (literal_of t)

-- letters of either case alike
abbrev folded : Char → ℕ
folded c = if leb 65 (code c) && leb (code c) 90 then code c + 32 else code c

abbrev pub begins : String → String → Bool
begins String.[] t = true
begins (String.◌∷◌ c s) String.[] = false
begins (String.◌∷◌ c s) (String.◌∷◌ d t) = eqb (folded c) (folded d) && begins s t

-- the two texts agree as far as both go
abbrev agree : String → String → Bool
agree String.[] t = true
agree (String.◌∷◌ c s) String.[] = true
agree (String.◌∷◌ c s) (String.◌∷◌ d t) = eqb (folded c) (folded d) && agree s t

begins-agree : (s t path : String) → begins s path ≡ true → begins t path ≡ true → agree s t ≡ true
begins-agree String.[] t path h k = refl
begins-agree (String.◌∷◌ c s) String.[] path h k = refl
begins-agree (String.◌∷◌ c s) (String.◌∷◌ d t) String.[] h k = cc
begins-agree (String.◌∷◌ c s) (String.◌∷◌ d t) (String.◌∷◌ e path) h k =
    ground (arith, begins-agree s t path)

-- What path-to-regexp documents: a path that matches a pattern begins, in letters of either case, with
-- a slash and the text of the pattern before its first parameter.
abbrev pub MatchesText : (String → String → Bool) → Type 0
MatchesText matches =
    (pattern path : String)
    → matches pattern path ≡ true
    → begins (String.◌∷◌ "/" (literal_of pattern)) path ≡ true

-- `app.globalPrefix`, and the slash before the path of a controller
abbrev pub api_root : String
api_root = "/api/account/"

module _ (matches : String → String → Bool) (by_text : MatchesText matches) where
  unmatched :
      (pattern path : String)
      → agree api_root (String.◌∷◌ "/" (literal_of pattern)) ≡ false
      → begins api_root path ≡ true
      → matches pattern path ≡ false
  unmatched pattern path differ under = elim (Bool-cases (matches pattern path)) [
    | inl hit ↦ ground (
      arith,
      begins-agree api_root (String.◌∷◌ "/" (literal_of pattern)) path under
          (by_text pattern path hit),
    )
    | inr miss ↦ miss
  ]

  nothing_excluded :
      (method path : String)
      → begins api_root path ≡ true
      → is_excluded matches excluded method path ≡ false
  nothing_excluded method path under = ground (
    arith,
    unmatched "api/v:version*/auth/login" path refl under,
    unmatched "api/auth/login" path refl under,
    unmatched "api/v:version*/auth/refresh" path refl under,
    unmatched "api/auth/refresh" path refl under,
    unmatched "api/v:version*/admin/setting/(.*)" path refl under,
    unmatched "api/admin/setting/(.*)" path refl under,
  )

  -- Where path-to-regexp takes the text of a pattern literally: while the setting of the maintenance
  -- has a true value, every request under the prefix /api/account is refused with the error of a
  -- service that is not available, the login, the refresh and the requests on the settings included.
  pub maintenance_refuses_all :
      (p : Platform) (w : World) (s : Setting) (method path : String)
      → begins api_root path ≡ true
      → p.reachable w.moment ≡ true
      → p.settings.find_one (named p "maintenance") w.settings ≡ some s
      → is_truthy s.value ≡ true
      → (configured matches p method path w).0
        ≡ throws (
            http service_unavailable service_unavailable_error
              "http.serverError.serviceUnavailable")
  unfolding configured
  maintenance_refuses_all p w s method path under up found on =
      ground (arith, nothing_excluded method path under)

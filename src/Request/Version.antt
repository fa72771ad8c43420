-- ===== src/Request/Version.antt =====
-- utils/version/interceptor/version.interceptor.ts, with `app.globalPrefix` and `app.versioning`.
use openapi_nestjs_auth_mong.Prelude.{
  eqb, if◌then◌else◌, String, ◌≡◌, refl, Bool, true, false, ◌&&◌, Option, none, some, List, ◌∷◌,
}
use Prim.Native.Char.{code}
use openapi_nestjs_auth_mong.Helper.Text.{◌&◌, without_first}
use openapi_nestjs_auth_mong.Helper.Split.{split}

pub record VersionConfig : Type 0 where
  pub global_prefix : String
  pub versioning : Bool
  pub versioning_prefix : String

-- `text.startsWith(prefix)`
abbrev pub starts_with : String → String → Bool
starts_with String.[] t = true
starts_with (String.◌∷◌ c s) String.[] = false
starts_with (String.◌∷◌ c s) (String.◌∷◌ d t) = eqb (code c) (code d) && starts_with s t

-- `parts[2]`
abbrev third : List String → Option String
third (a ∷ b ∷ c ∷ rest) = some c
third _ = none

-- What the request's version becomes: what it was, or that of the URL. The inner none: `url[2]` is
-- undefined, a TypeError.
abbrev replaced : String → Option String → Option (Option String)
replaced prefix none = none
replaced prefix (some part) = some (some (without_first prefix part))

unfoldable pub version_interceptor :
    VersionConfig → Bool → String → Option String → Option (Option String)
unfolding split
version_interceptor config http url version =
    if http
      && config.versioning
      && starts_with (config.global_prefix & "/" & config.versioning_prefix) url
    then replaced config.versioning_prefix (third (split b'/' url))
    else some version

-- app.config.ts, with the versioning on
abbrev pub app_config : VersionConfig
app_config = record { global_prefix = "/api/account"; versioning = true; versioning_prefix = "v" }

-- `/api/account/` before the rest of a URL
abbrev pub under_prefix : String → String
under_prefix rest = String.◌∷◌ "/" (
    String.◌∷◌ "a" (
      String.◌∷◌ "p" (
        String.◌∷◌ "i" (
          String.◌∷◌ "/" (
            String.◌∷◌ "a" (
              String.◌∷◌ "c" (
                String.◌∷◌ "c" (
                  String.◌∷◌ "o"
                    (String.◌∷◌ "u" (String.◌∷◌ "n" (String.◌∷◌ "t" (String.◌∷◌ "/" rest))))))))))))

-- With the versioning on and the prefix /api/account of the configuration, the version of every
-- request whose URL goes on with a "v" is "account", whatever version the URL names.
pub version_never_read :
    (rest : String) (version : Option String)
    → version_interceptor app_config true (under_prefix (String.◌∷◌ "v" rest)) version
      ≡ some (some "account")
unfolding version_interceptor
version_never_read rest version = refl

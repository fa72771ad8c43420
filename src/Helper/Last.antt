-- ===== src/Helper/Last.antt =====
-- Cutting a text at the last of its separators, as `lastIndexOf` and `substring` of the language do
-- together: where there is none, `lastIndexOf` is -1 and `substring` takes it for 0.
pub mod Laws
use openapi_nestjs_auth_mong.Prelude.{ℕ, if◌then◌else◌, String}
use openapi_nestjs_auth_mong.Helper.Split.{is_separator, lacks}

-- `text.substring(0, text.lastIndexOf(separator))`
unfoldable pub before_last : ℕ → String → String
before_last separator String.[] = ""
before_last separator (String.◌∷◌ c s) =
    if lacks separator s then "" else String.◌∷◌ c (before_last separator s)

-- `text.substring(text.lastIndexOf(separator), text.length)`
unfoldable pub from_last : ℕ → String → String
from_last separator String.[] = ""
from_last separator (String.◌∷◌ c s) =
    if lacks separator s then String.◌∷◌ c s else from_last separator s

-- `text.substring(text.lastIndexOf(separator) + 1, text.length)`
unfoldable pub after_last : ℕ → String → String
after_last separator String.[] = ""
after_last separator (String.◌∷◌ c s) =
    if lacks separator s
    then (if is_separator separator c then s else String.◌∷◌ c s)
    else after_last separator s

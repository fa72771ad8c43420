-- ===== src/Helper/Check.antt =====
-- The checks of utils/helper/service/helper.string.service.ts and helper.number.service.ts, and the
-- censor. A text is the list of its UTF-16 code units, as `length`, `substring` and regular
-- expressions with no flags read it.
pub mod Laws
pub mod Email
use openapi_nestjs_auth_mong.Prelude.{
  ltb, leb, eqb, if◌then◌else◌, length, every, any, drop, replicate, ℕ, ◌-◌, Bool, true, false, not,
  ◌&&◌, ◌||◌, Option, none, some, List, [], ◌∷◌, ◌++◌,
}

abbrev pub Units : Type 0
Units = List ℕ

-- [A-Z], [a-z], [0-9], [#?!@$%^&*-], [\w] and [^\s]
abbrev pub upper : ℕ → Bool
upper c = leb 65 c && leb c 90

abbrev pub lower : ℕ → Bool
lower c = leb 97 c && leb c 122

abbrev pub digit : ℕ → Bool
digit c = leb 48 c && leb c 57

abbrev pub special : ℕ → Bool
special c =
    eqb c 35
    || eqb c 63
    || eqb c 33
    || eqb c 64
    || eqb c 36
    || eqb c 37
    || eqb c 94
    || eqb c 38
    || eqb c 42
    || eqb c 45

abbrev pub word : ℕ → Bool
word c = upper c || lower c || digit c || eqb c 95

unfoldable pub space : ℕ → Bool
space c =
    (leb 9 c && leb c 13)
    || eqb c 32
    || eqb c 160
    || eqb c 5760
    || (leb 8192 c && leb c 8202)
    || eqb c 8232
    || eqb c 8233
    || eqb c 8239
    || eqb c 8287
    || eqb c 12288
    || eqb c 65279

abbrev pub visible : ℕ → Bool
visible c = not (space c)

-- `.`: any unit but the four line terminators
abbrev pub dot : ℕ → Bool
dot c = not (eqb c 10 || eqb c 13 || eqb c 8232 || eqb c 8233)

-- (?=.*?[class])
abbrev pub ahead : (ℕ → Bool) → Units → Bool
ahead test [] = false
ahead test (c ∷ cs) = test c || (dot c && ahead test cs)

-- .{n,}$
abbrev pub dots : ℕ → Units → Bool
dots n cs = every dot cs && leb n (length cs)

-- ^[class]+$
abbrev pub only : (ℕ → Bool) → Units → Bool
only test [] = false
only test (c ∷ cs) = every test (c ∷ cs)

-- `length || 8`
abbrev pub or_eight : Option ℕ → ℕ
or_eight none = 8
or_eight (some n) = if eqb n 0 then 8 else n

unfoldable pub check_password_weak : Units → Option ℕ → Bool
check_password_weak password n =
    ahead upper password && ahead lower password && dots (or_eight n) password

unfoldable pub check_password_medium : Units → Option ℕ → Bool
check_password_medium password n =
    ahead upper password
    && ahead lower password
    && ahead digit password
    && dots (or_eight n) password

unfoldable pub check_password_strong : Units → Option ℕ → Bool
check_password_strong password n =
    ahead upper password
    && ahead lower password
    && ahead digit password
    && ahead special password
    && dots (or_eight n) password

-- /^[A-Za-z0-9_-]+$/
unfoldable pub check_safe_string : Units → Bool
check_safe_string text = only (λ c. word c || eqb c 45) text

-- /^[\w.-]+$/
unfoldable pub check_string_or_number : Units → Bool
check_string_or_number text = only (λ c. word c || eqb c 46 || eqb c 45) text

-- /^-?\d+$/ of HelperNumberService.check
unfoldable pub check : Units → Bool
check [] = false
check (c ∷ cs) = if eqb c 45 then only digit cs else only digit (c ∷ cs)

-- /\S+@\S+\.\S+/: what follows of the pattern at a place of the text
abbrev pub starts : (ℕ → Bool) → Units → Bool
starts test [] = false
starts test (c ∷ cs) = test c

-- \S*\.\S+, behind a first \S
unfoldable pub from_dot : Units → Bool
from_dot [] = false
from_dot (c ∷ cs) = (eqb c 46 && starts visible cs) || (visible c && from_dot cs)

-- \S+\.\S+
unfoldable pub from_host : Units → Bool
from_host [] = false
from_host (c ∷ cs) = visible c && from_dot cs

-- \S*@\S+\.\S+, behind a first \S
unfoldable pub from_at : Units → Bool
from_at [] = false
from_at (c ∷ cs) = (eqb c 64 && from_host cs) || (visible c && from_at cs)

unfoldable pub check_email : Units → Bool
check_email [] = false
check_email (c ∷ cs) = (visible c && from_at cs) || check_email cs

-- the number of hidden units, and of stars
abbrev pub hidden : ℕ → ℕ
hidden n = if ltb 4 n then n - 4 else 1

abbrev pub stars : ℕ → ℕ
stars n = if ltb 10 (hidden n) then 10 else hidden n

-- `substring(1, 0)` of the empty text swaps its ends and is empty, as `drop` is.
unfoldable pub censor : Units → Units
censor value =
    let n = length value in
    if eqb n 1 then value else replicate (stars n) 42 ++ drop (hidden n) value

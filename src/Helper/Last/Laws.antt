-- ===== src/Helper/Last/Laws.antt =====
-- A text that is put behind a separator is found by cutting at the last one.
use Prim.Native.Char.{Char, code}
use Prim.Native.String.{◌++◌}
use Prim.Native.String.append
use openapi_nestjs_auth_mong.Prelude.{ap, ◌∙◌, String, ◌≡◌, true, false, arith}
use openapi_nestjs_auth_mong.Helper.Split.{lacks}
use openapi_nestjs_auth_mong.Helper.Last.{before_last, from_last, after_last}

-- A text with a separator in it.
has_separator : (c : Char) (t s : String) → lacks (code c) (t ++ String.◌∷◌ c s) ≡ false
has_separator c String.[] s = ap (lacks (code c)) (append.nil (String.◌∷◌ c s)) ∙ ground arith
has_separator c (String.◌∷◌ d t) s =
    ap (lacks (code c)) (append.cons d t (String.◌∷◌ c s)) ∙ ground (arith, has_separator c t s)

pub before_last-append :
    (c : Char) (t s : String)
    → lacks (code c) s ≡ true
    → before_last (code c) (t ++ String.◌∷◌ c s) ≡ t
unfolding before_last
before_last-append c String.[] s h =
    ap (before_last (code c)) (append.nil (String.◌∷◌ c s)) ∙ ground arith
before_last-append c (String.◌∷◌ d t) s h =
    ap (before_last (code c)) (append.cons d t (String.◌∷◌ c s))
    ∙ ground (arith, has_separator c t s, before_last-append c t s h)

pub from_last-append :
    (c : Char) (t s : String)
    → lacks (code c) s ≡ true
    → from_last (code c) (t ++ String.◌∷◌ c s) ≡ String.◌∷◌ c s
unfolding from_last
from_last-append c String.[] s h =
    ap (from_last (code c)) (append.nil (String.◌∷◌ c s)) ∙ ground arith
from_last-append c (String.◌∷◌ d t) s h =
    ap (from_last (code c)) (append.cons d t (String.◌∷◌ c s))
    ∙ ground (arith, has_separator c t s, from_last-append c t s h)

pub after_last-append :
    (c : Char) (t s : String)
    → lacks (code c) s ≡ true
    → after_last (code c) (t ++ String.◌∷◌ c s) ≡ s
unfolding after_last
after_last-append c String.[] s h =
    ap (after_last (code c)) (append.nil (String.◌∷◌ c s)) ∙ ground arith
after_last-append c (String.◌∷◌ d t) s h =
    ap (after_last (code c)) (append.cons d t (String.◌∷◌ c s))
    ∙ ground (arith, has_separator c t s, after_last-append c t s h)

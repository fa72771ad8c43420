-- ===== src/Helper/Split/Laws.antt =====
-- Splitting and joining at commas undo each other.
use Prim.Native.Char.{Char, code}
use Prim.Native.String.{◌++◌}
use Prim.Native.String.append
use openapi_nestjs_auth_mong.Prelude.{
  ℕ, none, some, sym, and_true, every, String, List, [], ◌∷◌, ◌≡◌, refl, ap, ◌∙◌, true, arith,
}
use openapi_nestjs_auth_mong.Helper.Text.{◌&◌, joined}
use openapi_nestjs_auth_mong.Helper.Split.{lacks, split, split_first, split_second, join_comma}

-- A text without the separator, before a separator, is the first part.
pub split-append :
    (c : Char) (t s : String)
    → lacks (code c) t ≡ true
    → split (code c) (t ++ String.◌∷◌ c s) ≡ t ∷ split (code c) s
unfolding split
split-append c String.[] s h = ap (split (code c)) (append.nil (String.◌∷◌ c s)) ∙ ground arith
split-append c (String.◌∷◌ d t) s h =
    ap (split (code c)) (append.cons d t (String.◌∷◌ c s)) ∙ ground (arith, split-append c t s)

pub split_alone :
    (separator : ℕ) (t : String) → lacks separator t ≡ true → split separator t ≡ t ∷ []
unfolding split
split_alone separator String.[] h = refl
split_alone separator (String.◌∷◌ c t) h = ground (arith, split_alone separator t)

-- `t & "," & s`, as the comma before `s`
before_comma : (t s : String) → t & "," & s ≡ t ++ String.◌∷◌ "," s
before_comma String.[] s =
    append.cons "," "" s ∙ ap (String.◌∷◌ ",") (append.nil s) ∙ sym (append.nil (String.◌∷◌ "," s))
before_comma (String.◌∷◌ c t) s =
    ap (λ u. u & s) (append.cons c t ",")
    ∙ append.cons c (t & ",") s
    ∙ ap (String.◌∷◌ c) (before_comma t s)
    ∙ sym (append.cons c t (String.◌∷◌ "," s))

-- Texts without commas that are joined are found again by the split.
pub split-join_comma :
    (t : String) (ts : List String)
    → every (lacks b',') (t ∷ ts) ≡ true
    → split b',' (join_comma (t ∷ ts)) ≡ t ∷ ts
unfolding join_comma
split-join_comma t [] h = split_alone b',' t (ground arith)
split-join_comma t (u ∷ us) h =
    let parts = and_true (lacks b',' t) (every (lacks b',') (u ∷ us)) h in
    ap (split b',') (before_comma t (join_comma (u ∷ us)))
    ∙ split-append "," t (join_comma (u ∷ us)) parts.0
    ∙ ap (λ rest. t ∷ rest) (split-join_comma u us parts.1)

-- `${a}:${b}`, as the colon before `b`
before_colon : (t s : String) → joined t s ≡ t ++ String.◌∷◌ ":" s
before_colon String.[] s =
    append.cons ":" "" s ∙ ap (String.◌∷◌ ":") (append.nil s) ∙ sym (append.nil (String.◌∷◌ ":" s))
before_colon (String.◌∷◌ c t) s =
    ap (λ u. u & s) (append.cons c t ":")
    ∙ append.cons c (t & ":") s
    ∙ ap (String.◌∷◌ c) (before_colon t s)
    ∙ sym (append.cons c t (String.◌∷◌ ":" s))

-- Two texts without colons that are joined are found again by the split.
pub split-joined :
    (t s : String)
    → lacks b':' t ≡ true
    → lacks b':' s ≡ true
    → (split_first b':' (joined t s) ≡ t) × (split_second b':' (joined t s) ≡ some s)
unfolding split_first split_second
split-joined t s h k =
    let parts =
      ap (split b':') (before_colon t s)
      ∙ split-append ":" t s h
      ∙ ap (λ rest. t ∷ rest) (split_alone b':' s k) in
    (
      ap (λ ps. elim ps [ [] ↦ "" | q ∷ qs ↦ q ]) parts,
      ap (λ ps. elim ps [ [] ↦ none | q ∷ qs ↦ elim qs [ [] ↦ none | r ∷ rs ↦ some r ] ]) parts,
    )

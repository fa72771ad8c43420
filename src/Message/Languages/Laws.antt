-- ===== src/Message/Languages/Laws.antt =====
-- The languages that the middleware leaves for the answer.
use openapi_nestjs_auth_mong.Prelude.{
  false≢true, sym, any, ap, ◌∙◌, subst, ◌≢◌, ◌&&◌, ◌==◌, eq_iff, eq_refl, and_true, Bool-cases,
  includes, keep, every, truthy, ◌≡◌, refl, String, none, some, List, [], ◌∷◌, Bool, true, arith,
  inl, inr,
}
use openapi_nestjs_auth_mong.Helper.Split.{split, lacks}
use openapi_nestjs_auth_mong.Helper.Split.Laws.{split-join_comma}
use openapi_nestjs_auth_mong.Message.Languages.{get_languages, languages_or, custom_language}

-- What is relied on of `_.uniq`: the items are those of the list.
pub record IsUnique (unique : List String → List String) : Type 0 where
  pub same_items : (ls : List String) (l : String) → includes (unique ls) l ≡ includes ls l

abbrev supported : String → Bool
supported l = includes get_languages l

includes-keep :
    (p : String → Bool) (ls : List String) (l : String)
    → includes (keep p ls) l ≡ (p l && includes ls l)
includes-keep p [] l = ground arith
includes-keep p (k ∷ ls) l = elim (Bool-cases (k == l)) [
  | inl same ↦
      let is = (eq_iff k l).0 same in ground (arith, ap p is, includes-keep p ls l, eq_iff k l)
  | inr other ↦ ground (arith, includes-keep p ls l)
]

-- Every item passes a test that all items of the list pass.
every_included :
    (p : String → Bool) (ls : List String)
    → ((l : String) → includes ls l ≡ true → p l ≡ true)
    → every p ls ≡ true
every_included p [] h = refl
every_included p (l ∷ ls) h =
    let first = h l (ground (arith, eq_refl l)) in
    let rest = every_included p ls (λ k e. h k (ground arith)) in ground arith

any_included :
    (p : String → Bool) (ls : List String)
    → any p ls ≡ true
    → (l : String) × (p l ≡ true) × (includes ls l ≡ true)
any_included p [] h = cc
any_included p (l ∷ ls) h = elim (Bool-cases (p l)) [
  | inl hit ↦ (l, hit, ground (arith, eq_refl l))
  | inr miss ↦
      let (k, passes, there) = any_included p ls (ground arith) in (k, passes, ground arith)
]

-- A supported language has no comma.
supported-lacks : (l : String) → supported l ≡ true → lacks b',' l ≡ true
supported-lacks l h = elim (Bool-cases ("en" == l)) [
  | inl en ↦ subst (λ k. lacks b',' k ≡ true) ((eq_iff "en" l).0 en) refl
  | inr other ↦ subst (λ k. lacks b',' k ≡ true) ((eq_iff "id" l).0 (ground arith)) refl
]

split-languages_or :
    (language : String) (ls : List String) (k : String)
    → every (lacks b',') ls ≡ true
    → includes ls k ≡ true
    → split b',' (languages_or language ls) ≡ ls
unfolding languages_or
split-languages_or language [] k h there = cc
split-languages_or language (l ∷ ls) k h there = split-join_comma l ls h

truthy-some : (header : String) → header ≢ "" → truthy (some header) ≡ some header
truthy-some header h = ground (arith, eq_iff header "")

-- Where `_.uniq` keeps the items of a list, and the header asks for a language that is supported, the
-- languages that are found by splitting `customLang` are those of the header that are supported.
pub custom_language_asked :
    (unique : List String → List String) (language header l : String)
    → IsUnique unique
    → any (includes get_languages) (split b',' header) ≡ true
    → includes (split b',' (custom_language unique language (some header))) l
      ≡ (includes get_languages l && includes (split b',' header) l)
unfolding custom_language split
custom_language_asked unique language header l uniq asked =
    let ls = keep (includes get_languages) (split b',' header) in
    let (k, passes, there) = any_included (includes get_languages) (split b',' header) asked in
    let kept = includes-keep (includes get_languages) (split b',' header) in
    let not_empty : header ≢ "" =
      λ e. false≢true (subst (λ s. any (includes get_languages) (split b',' s) ≡ true) e asked) in
    let parts =
      split-languages_or language (unique ls) k
        (every_included (lacks b',') (unique ls) λ m e. supported-lacks m (
          (and_true (supported m) (includes (split b',' header) m)
            (sym (kept m) ∙ sym (uniq.same_items ls m) ∙ e)).0))
        (uniq.same_items ls k
          ∙ kept k
          ∙ ap (λ b. b && includes (split b',' header) k) passes
          ∙ there) in
    ap
      (λ o.
        includes
          (split b',' (elim o [
            | none ↦ language
            | some h ↦ languages_or language (unique (keep (includes get_languages) (split b',' h)))
          ]))
          l)
      (truthy-some header not_empty)
    ∙ ap (λ ms. includes ms l) parts
    ∙ uniq.same_items ls l
    ∙ kept l

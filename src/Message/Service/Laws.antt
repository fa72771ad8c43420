-- ===== src/Message/Service/Laws.antt =====
-- Which texts a message has, and when the messages of a request's errors are found.
use Prim.Native.Nat.{max}
use openapi_nestjs_auth_mong.Prelude.{
  ap, ◌∙◌, ◌++◌, and_true, Bool-cases, if◌then◌else◌, includes, ◌&&◌, ℕ, ◌≤◌, ◌≡◌, refl, String,
  Option, none, some, List, [], ◌∷◌, Bool, true, false, arith, ◌==◌, eq_iff, inl, inr,
}
use openapi_nestjs_auth_mong.Message.Errors.{
  ValidationErrors, validation_error, nil, cons, Found, while_children,
}
use openapi_nestjs_auth_mong.Message.Errors.Laws.{leads, levels, while_children_enough, stuck}
use openapi_nestjs_auth_mong.Message.Service.{
  Message, single, by_language, CustomLanguages, languages, I18n, set_language, in_language, Errors,
  each_language, collapse, get, own, children_of, get_request_errors_message, errors_of, ◌>>=◌,
}

in_language-set_language :
    (l k s : String) (ms : List (String × String))
    → in_language l (set_language k s ms) ≡ (if k == l then some s else in_language l ms)
in_language-set_language l k s [] = refl
in_language-set_language l k s (m ∷ ms) =
    ground (arith, eq_iff m.0 k, eq_iff m.0 l, eq_iff k l, in_language-set_language l k s ms)

in_language-each_language :
    (i18n : I18n) (key : String) (properties : List (String × String)) (l : String)
    (ls : List String) (ms : List (String × String))
    → in_language l (each_language i18n ls key properties ms)
      ≡ (if includes ls l then some (i18n.translate l key properties) else in_language l ms)
unfolding each_language
in_language-each_language i18n key properties l [] ms = refl
in_language-each_language i18n key properties l (k ∷ ls) ms = ground (
  arith,
  eq_iff k l,
  in_language-each_language i18n key properties l ls
      (set_language k (i18n.translate k key properties) ms),
  in_language-set_language l k (i18n.translate k key properties) ms,
)

-- The text of a message in a language: that of its key, or the one text that it is.
abbrev pub text_in : String → Message → Option String
text_in l (single s) = some s
text_in l (by_language ms) = in_language l ms

text_in-collapse :
    (i18n : I18n) (l t : String) (ms : List (String × String))
    → in_language l ms ≡ some t
    → text_in l (collapse i18n ms) ≡ some t
text_in-collapse i18n l t [] h = h
text_in-collapse i18n l t (m ∷ []) h = ground arith
text_in-collapse i18n l t (m ∷ n ∷ ms) h = h

-- A message that is asked for in a list of languages has the translation of its key in each of them.
pub get_translates :
    (i18n : I18n) (key : String) (ls : List String) (properties : List (String × String))
    (l : String)
    → includes ls l ≡ true
    → text_in l (get i18n key (languages ls) properties) ≡ some (i18n.translate l key properties)
unfolding get
get_translates i18n key [] properties l h = cc
get_translates i18n key (k ∷ ks) properties l h =
    text_in-collapse i18n l (i18n.translate l key properties)
      (each_language i18n (k ∷ ks) key properties [])
      (ground (arith, in_language-each_language i18n key properties l (k ∷ ks) []))

-- Each error has no children, or children that lead to constraints.
abbrev pub all_lead : ValidationErrors → Bool
all_lead nil = true
all_lead (cons (validation_error name value constraints nil) es) = all_lead es
all_lead (cons (validation_error name value constraints (cons c cs)) es) =
    leads (cons c cs) && all_lead es

-- The levels of the deepest.
abbrev pub deepest : ValidationErrors → ℕ
deepest nil = 0
deepest (cons e es) = max (levels (children_of e)) (deepest es)

-- The messages of a request's errors are found, given as many rounds as the errors have levels, when
-- each error has no children or children that lead to constraints.
pub messages_found :
    (i18n : I18n) (fuel : ℕ) (es : ValidationErrors) (given : CustomLanguages)
    → all_lead es ≡ true
    → deepest es ≤ fuel
    → (r : List Errors) × (get_request_errors_message i18n fuel es given ≡ some r)
unfolding get_request_errors_message
messages_found i18n fuel nil given h enough = ([], refl)
messages_found i18n fuel (cons (validation_error name value constraints nil) es) given h enough =
    let (rest, are) = messages_found i18n fuel es given h (omega arith) in
    let start = own (validation_error name value constraints nil) in
    (
      errors_of i18n given start start.constraints ++ rest,
      ap (λ o. o >>= λ r. some (errors_of i18n given start start.constraints ++ r)) are,
    )
messages_found i18n fuel (cons (validation_error name value constraints (cons c cs)) es) given h
      enough =
    let ready = and_true (leads (cons c cs)) (all_lead es) h in
    let (found, is) =
      while_children_enough fuel (cons c cs)
        (own (validation_error name value constraints (cons c cs))) ready.0 (omega arith) in
    let (rest, are) = messages_found i18n fuel es given ready.1 (omega arith) in
    (
      errors_of i18n given found found.constraints ++ rest,
      ap
            (λ o. o >>= λ f. get_request_errors_message i18n fuel es given >>= λ r.
              some (errors_of i18n given f f.constraints ++ r))
            is
          ∙ ap (λ o. o >>= λ r. some (errors_of i18n given found found.constraints ++ r)) are,
    )

abbrev nothing : {A B : Type 0} → A → Option B
nothing a = none

never : {A B : Type 0} (o : Option A) → (o >>= nothing {A = A} {B = B}) ≡ none
never none = refl
never (some a) = refl

-- They are never found when an error has children that do not lead to constraints.
pub messages_never_found :
    (i18n : I18n) (fuel : ℕ) (es : ValidationErrors) (given : CustomLanguages)
    → all_lead es ≡ false
    → get_request_errors_message i18n fuel es given ≡ none
unfolding get_request_errors_message
messages_never_found i18n fuel nil given h = cc
messages_never_found i18n fuel (cons (validation_error name value constraints nil) es) given h =
    ground (arith, messages_never_found i18n fuel es given h)
messages_never_found i18n fuel (cons (validation_error name value constraints (cons c cs)) es) given
      h =
    let start = own (validation_error name value constraints (cons c cs)) in
    let more = λ (f : Found). get_request_errors_message i18n fuel es given >>= λ r.
    some (errors_of i18n given f f.constraints ++ r) in
    elim (Bool-cases (leads (cons c cs))) [
      | inl on ↦
          ap
            (λ o. while_children fuel (cons c cs, start) >>= λ f.
              o >>= λ r. some (errors_of i18n given f f.constraints ++ r))
            (messages_never_found i18n fuel es given (ground arith))
          ∙ never (while_children fuel (cons c cs, start))
      | inr off ↦ ap (λ o. o >>= more) (stuck fuel c cs start off)
    ]

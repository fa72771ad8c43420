-- ===== src/Helper/Check/Email.antt =====
-- What the check of an email accepts.
use openapi_nestjs_auth_mong.Prelude.{
  eqb, All, ℕ, ◌≡◌, ap, ◌∙◌, ◌↔◌, inl, inr, Bool-cases, true, ◌&&◌, [], ◌∷◌, ◌++◌, arith,
}
use openapi_nestjs_auth_mong.Helper.Check.{
  Units, visible, from_dot, from_host, from_at, check_email,
}

abbrev pub AllVisible : Units → Type 0
AllVisible = All (λ c. visible c ≡ true)

-- a dot, with a visible unit behind it, that only visible units precede
record HasDot (cs : Units) : Type 0 where
  pub host : Units
  pub top : ℕ
  pub after : Units
  pub is : cs ≡ host ++ 46 ∷ top ∷ after
  pub host_visible : AllVisible host
  pub top_visible : visible top ≡ true

from_dot_sound : (cs : Units) → from_dot cs ≡ true → HasDot cs
unfolding from_dot
from_dot_sound [] h = cc
from_dot_sound (c ∷ []) h = ground arith
from_dot_sound (c ∷ d ∷ cs) h = elim (Bool-cases (eqb c 46 && visible d)) [
  | inl here ↦ record {
    host = [];
    top = d;
    after = cs;
    is = ground arith;
    host_visible = tt;
    top_visible = ground arith;
  }
  | inr later ↦
      let r = from_dot_sound (d ∷ cs) (ground arith) in
      record {
        host = c ∷ r.host;
        top = r.top;
        after = r.after;
        is = ap (λ t. c ∷ t) r.is;
        host_visible = (ground arith, r.host_visible);
        top_visible = r.top_visible;
      }
]

from_dot_complete :
    (host : Units) (top : ℕ) (after : Units)
    → AllVisible host
    → visible top ≡ true
    → from_dot (host ++ 46 ∷ top ∷ after) ≡ true
unfolding from_dot
from_dot_complete [] top after vs v = ground arith
from_dot_complete (c ∷ host) top after vs v =
    ground (arith, from_dot_complete host top after vs.1 v)

-- an at sign that only visible units precede, with a visible unit and such a dot behind it
record HasAt (cs : Units) : Type 0 where
  pub user : Units
  pub first : ℕ
  pub rest : Units
  pub is : cs ≡ user ++ 64 ∷ first ∷ rest
  pub user_visible : AllVisible user
  pub first_visible : visible first ≡ true
  pub has_dot : from_dot rest ≡ true

from_at_sound : (cs : Units) → from_at cs ≡ true → HasAt cs
unfolding from_at from_host
from_at_sound [] h = cc
from_at_sound (c ∷ []) h = ground arith
from_at_sound (c ∷ d ∷ cs) h = elim (Bool-cases (eqb c 64 && visible d && from_dot cs)) [
  | inl here ↦ record {
    user = [];
    first = d;
    rest = cs;
    is = ground arith;
    user_visible = tt;
    first_visible = ground arith;
    has_dot = ground arith;
  }
  | inr later ↦
      let r = from_at_sound (d ∷ cs) (ground arith) in
      record {
        user = c ∷ r.user;
        first = r.first;
        rest = r.rest;
        is = ap (λ t. c ∷ t) r.is;
        user_visible = (ground arith, r.user_visible);
        first_visible = r.first_visible;
        has_dot = r.has_dot;
      }
]

from_at_complete :
    (user : Units) (first : ℕ) (rest : Units)
    → AllVisible user
    → visible first ≡ true
    → from_dot rest ≡ true
    → from_at (user ++ 64 ∷ first ∷ rest) ≡ true
unfolding from_at from_host
from_at_complete [] first rest vs v d = ground arith
from_at_complete (c ∷ user) first rest vs v d =
    ground (arith, from_at_complete user first rest vs.1 v d)

-- Somewhere in the text: visible units, an at sign, visible units, a dot and a visible unit, with at
-- least one unit before the at sign and one between it and the dot.
pub record HasEmail (text : Units) : Type 0 where
  pub before : Units
  pub user_first : ℕ
  pub user : Units
  pub host_first : ℕ
  pub host : Units
  pub top : ℕ
  pub after : Units
  pub is : text ≡ before ++ (user_first ∷ user ++ 64 ∷ host_first ∷ (host ++ 46 ∷ top ∷ after))
  pub user_visible : AllVisible (user_first ∷ user)
  pub host_visible : AllVisible (host_first ∷ host)
  pub top_visible : visible top ≡ true

check_email_sound : (text : Units) → check_email text ≡ true → HasEmail text
unfolding check_email
check_email_sound [] h = cc
check_email_sound (c ∷ cs) h = elim (Bool-cases (visible c && from_at cs)) [
  | inl here ↦
      let at = from_at_sound cs (ground arith) in
      let dotted = from_dot_sound at.rest at.has_dot in
      record {
        before = [];
        user_first = c;
        user = at.user;
        host_first = at.first;
        host = dotted.host;
        top = dotted.top;
        after = dotted.after;
        is = ap (λ t. c ∷ t) at.is ∙ ap (λ t. c ∷ (at.user ++ 64 ∷ at.first ∷ t)) dotted.is;
        user_visible = (ground arith, at.user_visible);
        host_visible = (at.first_visible, dotted.host_visible);
        top_visible = dotted.top_visible;
      }
  | inr later ↦
      let r = check_email_sound cs (ground arith) in
      record {
        before = c ∷ r.before;
        user_first = r.user_first;
        user = r.user;
        host_first = r.host_first;
        host = r.host;
        top = r.top;
        after = r.after;
        is = ap (λ t. c ∷ t) r.is;
        user_visible = r.user_visible;
        host_visible = r.host_visible;
        top_visible = r.top_visible;
      }
]

check_email-append :
    (before text : Units) → check_email text ≡ true → check_email (before ++ text) ≡ true
unfolding check_email
check_email-append [] text h = h
check_email-append (c ∷ before) text h = ground (arith, check_email-append before text h)

email_here :
    (u : ℕ) (user : Units) (f : ℕ) (host : Units) (top : ℕ) (after : Units)
    → AllVisible (u ∷ user)
    → AllVisible (f ∷ host)
    → visible top ≡ true
    → check_email (u ∷ user ++ 64 ∷ f ∷ (host ++ 46 ∷ top ∷ after)) ≡ true
unfolding check_email
email_here u user f host top after us hs v = ground (
  arith,
  from_at_complete user f (host ++ 46 ∷ top ∷ after) us.1 hs.0
      (from_dot_complete host top after hs.1 v),
)

-- A text passes the check of an email exactly when it holds, anywhere in it, visible units, an at
-- sign, visible units, a dot and a visible unit, with none but visible units between.
pub check_email_iff : (text : Units) → (check_email text ≡ true) ↔ HasEmail text
check_email_iff text = (
  check_email_sound text,
  λ e.
      ap check_email e.is
      ∙ check_email-append e.before
          (e.user_first ∷ e.user ++ 64 ∷ e.host_first ∷ (e.host ++ 46 ∷ e.top ∷ e.after))
          (email_here e.user_first e.user e.host_first e.host e.top e.after e.user_visible
            e.host_visible e.top_visible),
)

-- ===== src/Message/Errors/Laws.antt =====
-- When the loop over the children ends, and after how many rounds.
use openapi_nestjs_auth_mong.Prelude.{
  Bool-cases, inl, inr, ◌⊎◌, sym, ◌∙◌, ℕ, zero, suc, ◌≤◌, ◌≡◌, ◌↔◌, refl, none, some, Bool, true,
  false, arith, ap,
}
use openapi_nestjs_auth_mong.Message.Errors.{
  ValidationError, ValidationErrors, validation_error, nil, cons, Found, inside, for_child,
  while_children,
}

-- The first child that has children or constraints leads to constraints.
abbrev pub leads : ValidationErrors → Bool
leads nil = false
leads (cons (validation_error name value constraints (cons c cs)) rest) = leads (cons c cs)
leads (cons (validation_error name value (some names) nil) rest) = true
leads (cons (validation_error name value none nil) rest) = leads rest

-- How many levels of children there are below an error.
abbrev pub levels : ValidationErrors → ℕ
levels nil = 0
levels (cons (validation_error name value constraints (cons c cs)) rest) = suc (levels (cons c cs))
levels (cons (validation_error name value (some names) nil) rest) = 1
levels (cons (validation_error name value none nil) rest) = levels rest

-- what a round leaves of children that lead on: none, or those of the next level
round_leads :
    (all cs : ValidationErrors) (s : Found)
    → leads cs ≡ true
    → ((for_child all cs s).0 ≡ nil) × (1 ≤ levels cs)
      ⊎ (leads (for_child all cs s).0 ≡ true) × (suc (levels (for_child all cs s).0) ≡ levels cs)
round_leads all nil s h = cc
round_leads all (cons (validation_error name value constraints (cons c cs)) rest) s h =
    inr (h, refl)
round_leads all (cons (validation_error name value (some names) nil) rest) s h =
    inl (refl, omega arith)
round_leads all (cons (validation_error name value none nil) rest) s h =
    round_leads all rest (inside name s) h

-- and of children that do not: the same children again, or those of a level that does not either
round_stuck :
    (all cs : ValidationErrors) (s : Found)
    → leads cs ≡ false
    → leads all ≡ false
    → (c : ValidationError) (ds : ValidationErrors) → all ≡ cons c ds
    → (d : ValidationError) × (es : ValidationErrors) × ((for_child all cs s).0 ≡ cons d es)
      × (leads (for_child all cs s).0 ≡ false)
round_stuck all nil s h stuck c ds e = (c, ds, e, stuck)
round_stuck all (cons (validation_error name value constraints (cons b cs)) rest) s h stuck c ds e =
    (b, cs, refl, h)
round_stuck all (cons (validation_error name value (some names) nil) rest) s h stuck c ds e = cc
round_stuck all (cons (validation_error name value none nil) rest) s h stuck c ds e =
    round_stuck all rest (inside name s) h stuck c ds e

-- a finished loop
abbrev pub Finishes : ℕ → ValidationErrors → Found → Type 0
Finishes fuel cs s = (r : Found) × (while_children fuel (cs, s) ≡ some r)

finishes :
    (fuel : ℕ) (cs : ValidationErrors) (s : Found)
    → leads cs ≡ true
    → levels cs ≤ fuel
    → Finishes fuel cs s
unfolding while_children
finishes fuel nil s h enough = cc
finishes zero (cons c cs) s h enough = elim (round_leads (cons c cs) (cons c cs) s h) [
  | inl last ↦ absurd (omega (arith, last.1))
  | inr more ↦ absurd (omega (arith, more.1))
]
finishes (suc fuel) (cons c cs) s h enough =
    let next = for_child (cons c cs) (cons c cs) s in
    elim (round_leads (cons c cs) (cons c cs) s h) [
      | inl last ↦ (next.1, ap (λ ds. while_children fuel (ds, next.1)) last.0)
      | inr more ↦ finishes fuel next.0 next.1 more.0 (omega (arith, more.1))
    ]

pub stuck :
    (fuel : ℕ) (c : ValidationError) (cs : ValidationErrors) (s : Found)
    → leads (cons c cs) ≡ false
    → while_children fuel (cons c cs, s) ≡ none
unfolding while_children
stuck zero c cs s h = refl
stuck (suc fuel) c cs s h =
    let (d, es, is, still) = round_stuck (cons c cs) (cons c cs) s h h c cs refl in
    let next = for_child (cons c cs) (cons c cs) s in
    ap (λ ds. while_children fuel (ds, next.1)) is
    ∙ stuck fuel d es next.1 (ap leads (sym is) ∙ still)

-- The loop over the children of an error ends, given enough rounds, exactly when there are none, or
-- when at each level the first child that has children or constraints leads on, at last to
-- constraints.
pub while_children_ends_iff :
    (children : ValidationErrors) (s : Found)
    → ((fuel : ℕ) × Finishes fuel children s) ↔ ((children ≡ nil) ⊎ (leads children ≡ true))
unfolding while_children
while_children_ends_iff nil s = (λ e. inl refl, λ e. (0, (s, refl)))
while_children_ends_iff (cons c cs) s = (
  λ e. elim (Bool-cases (leads (cons c cs))) [
    | inl on ↦ inr on
    | inr off ↦ let never = stuck e.0 c cs s off in let ended = e.1.1 in cc
  ],
  λ e. elim e [
    | inl none_left ↦ cc
    | inr on ↦ (levels (cons c cs), finishes (levels (cons c cs)) (cons c cs) s on (omega arith))
  ],
)

-- As many rounds as there are levels are enough.
pub while_children_enough :
    (fuel : ℕ) (children : ValidationErrors) (s : Found)
    → leads children ≡ true
    → levels children ≤ fuel
    → (r : Found) × (while_children fuel (children, s) ≡ some r)
while_children_enough = finishes

-- ===== src/Prelude/Tests.antt =====
-- Boolean tests on the native numbers, the conditional, and case lemmas that keep the equation.
use Prim.Native.Nat.{ℕ, compare, Ordering}
use Prim.Native.String.{String}
use text.Mathlib.Text.{◌==◌}
use mathlib.Core.Path.{◌≡◌, refl}
use mathlib.Core.Logic.{◌⊎◌, inl, inr}
use mathlib.Core.Bool.{Bool, true, false, ◌&&◌}
use mathlib.Core.Option
use mathlib.Core.Option.{Option, none, some}
use native.Mathlib.Omega.{arith}

abbrev pub ltb : ℕ → ℕ → Bool
ltb a b = elim (compare a b) [ Ordering.lt ↦ true | _ ↦ false ]

abbrev pub leb : ℕ → ℕ → Bool
leb a b = elim (compare a b) [ Ordering.gt ↦ false | _ ↦ true ]

abbrev pub eqb : ℕ → ℕ → Bool
eqb a b = elim (compare a b) [ Ordering.eq ↦ true | _ ↦ false ]

infix 1 if◌then◌else◌
abbrev pub if◌then◌else◌ {ℓ} : {A : Type ℓ} → Bool → A → A → A
if true then x else y = x
if false then x else y = y

pub Bool-cases : (b : Bool) → (b ≡ true) ⊎ (b ≡ false)
Bool-cases true = inl refl
Bool-cases false = inr refl

pub Option-cases {ℓ} : {A : Type ℓ} (o : Option A) → (o ≡ none) ⊎ ((a : A) × (o ≡ some a))
Option-cases none = inl refl
Option-cases (some a) = inr (a, refl)

pub and_true : (a b : Bool) → (a && b) ≡ true → (a ≡ true) × (b ≡ true)
and_true a b h = ground arith

-- Inversion of a successful `Option.map`.
pub map-eq-some {ℓ κ} :
    {A : Type ℓ} {B : Type κ} (f : A → B) (o : Option A) {b : B}
    → Option.map f o ≡ some b
    → (a : A) × (o ≡ some a) × (f a ≡ b)
map-eq-some f none h = cc
map-eq-some f (some a) h = (a, refl, ground arith)

pub some-inj {ℓ} : {A : Type ℓ} {a b : A} → some a ≡ some b → a ≡ b
some-inj h = cc

-- Whether a value is there.
abbrev pub is_some {ℓ} : {A : Type ℓ} → Option A → Bool
is_some none = false
is_some (some a) = true

-- A text that JavaScript takes for true: it is there and not empty.
abbrev pub truthy : Option String → Option String
truthy none = none
truthy (some s) = if s == "" then none else some s

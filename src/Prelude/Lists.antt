-- ===== src/Prelude/Lists.antt =====
-- Lists measured by native numbers, and predicates and tests over the items of a list.
use Prim.Native.Nat.{ℕ, zero, suc, ◌+◌, ◌-◌}
use Prim.Native.String.{String}
use text.Mathlib.Text.{◌==◌}
use text.Mathlib.TextEquality.{eq_iff}
use mathlib.Core.Path.{◌≡◌, refl, ap}
use mathlib.Core.Bool.{Bool, true, false, ◌&&◌, ◌||◌}
use mathlib.Core.Logic.{◌↔◌, ◌⊎◌}
use mathlib.Core.List.{List, [], ◌∷◌, ◌++◌}
use native.Mathlib.Omega.{arith}

module _ {ℓ} {A : Type ℓ} where
  abbrev pub length : List A → ℕ
  length [] = 0
  length (x ∷ xs) = suc (length xs)

  pub length-append : (xs ys : List A) → length (xs ++ ys) ≡ length xs + length ys
  length-append [] ys = omega arith
  length-append (x ∷ xs) ys = omega (arith, length-append xs ys)

  abbrev pub take : ℕ → List A → List A
  take zero xs = []
  take (suc n) [] = []
  take (suc n) (x ∷ xs) = x ∷ take n xs

  abbrev pub drop : ℕ → List A → List A
  drop zero xs = xs
  drop (suc n) [] = []
  drop (suc n) (x ∷ xs) = drop n xs

  abbrev pub replicate : ℕ → A → List A
  replicate zero a = []
  replicate (suc n) a = a ∷ replicate n a

  pub length-drop : (n : ℕ) (xs : List A) → length (drop n xs) ≡ length xs - n
  length-drop zero xs = omega arith
  length-drop (suc n) [] = omega arith
  length-drop (suc n) (x ∷ xs) = omega (arith, length-drop n xs)

  pub length-replicate : (n : ℕ) (a : A) → length (replicate n a) ≡ n
  length-replicate zero a = refl
  length-replicate (suc n) a = ap suc (length-replicate n a)

  -- `Array.prototype.every` and `some`.
  abbrev pub every : (A → Bool) → List A → Bool
  every p [] = true
  every p (x ∷ xs) = p x && every p xs

  abbrev pub any : (A → Bool) → List A → Bool
  any p [] = false
  any p (x ∷ xs) = p x || any p xs

  -- `Array.prototype.filter`.
  abbrev pub keep : (A → Bool) → List A → List A
  keep p [] = []
  keep p (x ∷ xs) = elim (p x) [ true ↦ x ∷ keep p xs | false ↦ keep p xs ]

module _ {ℓ κ} {A : Type ℓ} (P : A → Type κ) where
  abbrev pub All : List A → Type κ
  All [] = Unit
  All (x ∷ xs) = P x × All xs

-- Membership with its place kept.
abbrev pub Any {ℓ} : {A : Type ℓ} → (A → Type 0) → List A → Type 0
Any P [] = ⊥
Any P (x ∷ xs) = P x ⊎ Any P xs

-- `Array.prototype.includes` on texts.
abbrev pub includes : List String → String → Bool
includes [] s = false
includes (t ∷ ts) s = t == s || includes ts s

pub includes_iff : (ts : List String) (s : String) → (includes ts s ≡ true) ↔ Any (λ t. t ≡ s) ts
includes_iff [] s = ground arith
includes_iff (t ∷ ts) s = ground (arith, eq_iff t s, includes_iff ts s)

-- ===== src/Helper/Array.antt =====
-- utils/helper/service/helper.array.service.ts: HelperArrayService over lodash, which is a parameter.
use openapi_nestjs_auth_mong.Prelude.{
  ltb, length, ℕ, zero, suc, ℤ, pos, negsuc, String, ◌≡◌, ◌↔◌, ◌⊎◌, inl, refl, Bool, true, not,
  Option, List, [], ◌∷◌, Any, arith,
}

-- lodash and `===` on arrays of A. `remove` gives the items that it takes out, with what is left of
-- the array; `reverse` gives the array, which it has turned.
pub record Lodash (A : Type 0) : Type 0 where
  pub nth : List A → ℤ → Option A
  pub take : List A → ℕ → List A
  pub take_right : List A → ℕ → List A
  pub last : List A → Option A
  pub head : List A → Option A
  pub index_of : List A → A → ℤ
  pub last_index_of : List A → A → ℤ
  pub remove : List A → (A → Bool) → List A × List A
  pub drop : List A → ℕ → List A
  pub drop_right : List A → ℕ → List A
  pub join : List A → String → String
  pub reverse : List A → List A
  pub uniq : List A → List A
  pub shuffle : List A → List A
  pub concat : List A → List A → List A
  pub union : List A → List A → List A
  pub without : List A → A → List A
  pub xor : List A → List A → List A
  pub intersection : List A → List A → List A
  pub is_equal : List A → List A → Bool
  pub includes : List A → A → Bool
  pub strictly_equal : A → A → Bool

-- `-Math.abs(index)`
abbrev pub minus_abs : ℤ → ℤ
minus_abs (pos zero) = pos zero
minus_abs (pos (suc n)) = negsuc n
minus_abs (negsuc n) = negsuc n

module _ {A : Type 0} (lodash : Lodash A) where
  unfoldable pub get_left_by_index : List A → ℤ → Option A
  get_left_by_index array index = lodash.nth array index

  unfoldable pub get_right_by_index : List A → ℤ → Option A
  get_right_by_index array index = lodash.nth array (minus_abs index)

  unfoldable pub get_left_by_length : List A → ℕ → List A
  get_left_by_length array n = lodash.take array n

  unfoldable pub get_right_by_length : List A → ℕ → List A
  get_right_by_length array n = lodash.take_right array n

  unfoldable pub get_last : List A → Option A
  get_last array = lodash.last array

  unfoldable pub get_first : List A → Option A
  get_first array = lodash.head array

  unfoldable pub get_first_index_by_value : List A → A → ℤ
  get_first_index_by_value array value = lodash.index_of array value

  unfoldable pub get_last_index_by_value : List A → A → ℤ
  get_last_index_by_value array value = lodash.last_index_of array value

  -- the answer, and what is left of the array
  unfoldable pub remove_by_value : List A → A → List A × List A
  remove_by_value array value = lodash.remove array (λ n. lodash.strictly_equal n value)

  unfoldable pub remove_left_by_length : List A → ℕ → List A
  remove_left_by_length array n = lodash.drop array n

  unfoldable pub remove_right_by_length : List A → ℕ → List A
  remove_right_by_length array n = lodash.drop_right array n

  unfoldable pub join_to_string : List A → String → String
  join_to_string array delimiter = lodash.join array delimiter

  unfoldable pub reverse : List A → List A
  reverse array = lodash.reverse array

  unfoldable pub unique : List A → List A
  unique array = lodash.uniq array

  unfoldable pub shuffle : List A → List A
  shuffle array = lodash.shuffle array

  unfoldable pub merge : List A → List A → List A
  merge a b = lodash.concat a b

  unfoldable pub merge_unique : List A → List A → List A
  merge_unique a b = lodash.union a b

  unfoldable pub filter_not_include_by_value : List A → A → List A
  filter_not_include_by_value array value = lodash.without array value

  unfoldable pub filter_not_include_by_array : List A → List A → List A
  filter_not_include_by_array a b = lodash.xor a b

  unfoldable pub filter_include_by_array : List A → List A → List A
  filter_include_by_array a b = lodash.intersection a b

  unfoldable pub equals : List A → List A → Bool
  equals a b = lodash.is_equal a b

  unfoldable pub not_equals : List A → List A → Bool
  not_equals a b = not (lodash.is_equal a b)

  -- `in`
  unfoldable pub contains_any : List A → List A → Bool
  contains_any a b = ltb 0 (length (lodash.intersection a b))

  unfoldable pub not_in : List A → List A → Bool
  not_in a b = ltb 0 (length (lodash.xor a b))

  unfoldable pub contains_value : List A → A → Bool
  contains_value a b = lodash.includes a b

-- The item is in the list.
abbrev pub In : {A : Type 0} → A → List A → Type 0
In x = Any (λ y. y ≡ x)

-- What lodash documents: `intersection` holds what is in both arrays, `xor` what is in exactly one.
pub record KeepsItems {A : Type 0} (lodash : Lodash A) : Type 0 where
  pub of_both : (a b : List A) (x : A) → In x (lodash.intersection a b) ↔ (In x a × In x b)
  pub of_one :
      (a b : List A) (x : A) → In x (lodash.xor a b) ↔ ((In x a × ¬ In x b) ⊎ (In x b × ¬ In x a))

some_item : {A : Type 0} (xs : List A) → (ltb 0 (length xs) ≡ true) ↔ ((x : A) × In x xs)
some_item [] = (λ h. cc, λ i. absurd i.1)
some_item (x ∷ xs) = (λ h. (x, inl refl), λ i. ground arith)

-- Where lodash does what it documents: `in` says that some item is in both arrays, and `notIn` that
-- some item is in exactly one of them.
pub overlap_and_difference :
    {A : Type 0} (lodash : Lodash A)
    → KeepsItems lodash
    → (a b : List A)
    → ((contains_any lodash a b ≡ true) ↔ ((x : A) × In x a × In x b))
      × ((not_in lodash a b ≡ true) ↔ ((x : A) × ((In x a × ¬ In x b) ⊎ (In x b × ¬ In x a))))
unfolding contains_any not_in
overlap_and_difference lodash keeps a b =
    let both = some_item (lodash.intersection a b) in
    let one = some_item (lodash.xor a b) in
    (
      (
        λ h.
            let i = both.0 h in
            let there = (keeps.of_both a b i.0).0 i.1 in (i.0, there.0, there.1),
        λ i. both.1 (i.0, (keeps.of_both a b i.0).1 (i.1, i.2)),
      ),
      (
        λ h. let i = one.0 h in (i.0, (keeps.of_one a b i.0).0 i.1),
        λ i. one.1 (i.0, (keeps.of_one a b i.0).1 i.1),
      ),
    )

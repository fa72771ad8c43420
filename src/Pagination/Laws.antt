-- ===== src/Pagination/Laws.antt =====
-- The pages of a listing, taken together.
use native.Mathlib.Nat.{mul-le-mul, mul_comm}
use native.Mathlib.Omega.{div_fact, mod_fact}
use openapi_nestjs_auth_mong.Prelude.{
  some-inj, pos-inj, sym, ◌∙◌, ℤ, negsuc, Bool-cases, ltb, length, take, drop, pos, ℕ, zero, suc,
  ◌+◌, ◌*◌, ◌/◌, ◌≤◌, ◌≡◌, Option, some, List, [], ◌∷◌, ◌++◌, refl, arith, inl, inr, String, Any,
  ap, includes_iff,
}
use openapi_nestjs_auth_mong.Pagination.{
  skip, total_page, pagination_page, pagination_per_page, pagination_sort, b_sort, or_text,
}
use openapi_nestjs_auth_mong.Helper.Split.{split_first}

-- A page of the query is at most 20 and a page size at most 100, and what is skipped for a page that
-- is not below 1 is at most 1900.
pub skip_bounds :
    (page per_page : ℕ)
    → 1 ≤ page
    → (n : ℕ) × (skip
          (pagination_page 1 (some (pos page)))
          (pagination_per_page 10 (some (pos per_page)))
        ≡ pos n)
      × (n ≤ 1900)
unfolding skip pagination_page pagination_per_page
skip_bounds zero per_page h = ground arith
skip_bounds (suc page) zero h = elim (Bool-cases (ltb 20 (suc page))) [
  | inl a ↦ (190, ground arith, ground arith)
  | inr b ↦ (page * 10, ground arith, ground arith)
]
skip_bounds (suc page) (suc q) h = elim (Bool-cases (ltb 20 (suc page))) [
  | inl a ↦ elim (Bool-cases (ltb 100 (suc q))) [
    | inl c ↦ (1900, ground arith, ground arith)
    | inr d ↦ (19 * suc q, ground arith, ground arith)
  ]
  | inr b ↦ elim (Bool-cases (ltb 100 (suc q))) [
    | inl c ↦ (page * 100, ground arith, ground arith)
    | inr d ↦
        let few : page ≤ 19 = ground arith in
        let small : suc q ≤ 100 = ground arith in
        (page * suc q, ground arith, ground (arith, mul-le-mul few small))
  ]
]

pub skip_here :
    (k per_page : ℕ)
    → suc k ≤ 20
    → per_page ≤ 100
    → skip (pos (suc k)) (pos per_page) ≡ pos (k * per_page)
unfolding skip
skip_here k per_page h l = ground arith

-- A quotient that is rounded up covers the number.
covered : (n q : ℕ) → n ≤ (n + q) / suc q * suc q
covered n q =
    omega (arith, div_fact (n + q) q, mod_fact (n + q) q, mul_comm ((n + q) / suc q) (suc q))

module _ {A : Type 0} where
  take_same : {m n : ℕ} (xs : List A) → m ≡ n → take m xs ≡ take n xs
  take_same xs e = ap (λ k. take k xs) e

  take_none : (n : ℕ) → take {A = A} n [] ≡ []
  take_none zero = refl
  take_none (suc n) = refl

  take-add : (m n : ℕ) (xs : List A) → take (m + n) xs ≡ take m xs ++ take n (drop m xs)
  take-add zero n xs = take_same xs (omega arith)
  take-add (suc m) zero [] = take_none (suc m + zero)
  take-add (suc m) (suc n) [] = take_none (suc m + suc n)
  take-add (suc m) n (x ∷ xs) =
      take_same {m = suc m + n} {n = suc (m + n)} (x ∷ xs) (omega arith)
      ∙ ap (λ ys. x ∷ ys) (take-add m n xs)

  take_all : (n : ℕ) (xs : List A) → length xs ≤ n → take n xs ≡ xs
  take_all zero [] h = refl
  take_all zero (x ∷ xs) h = ground arith
  take_all (suc n) [] h = refl
  take_all (suc n) (x ∷ xs) h = ap (λ ys. x ∷ ys) (take_all n xs (omega arith))

  -- The documents of a query that skips s and is limited to l.
  abbrev pub limited : ℕ → ℤ → List A → List A
  limited l (pos s) xs = take l (drop s xs)
  limited l (negsuc s) xs = []

  -- The first pages, one after the other, each with the limit and the skip of the list requests.
  abbrev pub first_pages : ℕ → ℕ → List A → List A
  first_pages zero per_page xs = []
  first_pages (suc k) per_page xs =
      first_pages k per_page xs ++ limited per_page (skip (pos (suc k)) (pos per_page)) xs

  first_pages-take :
      (k per_page : ℕ) (xs : List A)
      → k ≤ 20
      → per_page ≤ 100
      → first_pages k per_page xs ≡ take (k * per_page) xs
  unfolding skip
  first_pages-take zero per_page xs h l = take_same {m = 0} xs (omega arith)
  first_pages-take (suc k) per_page xs h l =
      ap (λ ys. ys ++ limited per_page (skip (pos (suc k)) (pos per_page)) xs)
        (first_pages-take k per_page xs (omega arith) l)
      ∙ ap (λ s. take (k * per_page) xs ++ limited per_page s xs) (skip_here k per_page h l)
      ∙ sym (take-add (k * per_page) per_page xs)
      ∙ take_same {n = suc k * per_page} xs (grind arith)

  -- If the pages of a listing are at most 20 and their size at most 100, the pages up to the total
  -- that the answer reports hold every document, each once and in order.
  pub first_pages-total_page :
      (xs : List A) (per_page k : ℕ)
      → total_page (length xs) (pos per_page) ≡ some (pos k)
      → k ≤ 20
      → per_page ≤ 100
      → first_pages k per_page xs ≡ xs
  unfolding total_page
  first_pages-total_page xs zero k e h l = ground arith
  first_pages-total_page xs (suc q) k e h l =
      first_pages-take k (suc q) xs h l
      ∙ take_all (k * suc q) xs (rw (sym (pos-inj (some-inj e))) (covered (length xs) q))

-- The field of the sort is one that the listing offers, or createdAt.
pub pagination_sort_field :
    (sort : String) (available_sort : List String) (value : Option String)
    → Any (λ f. f ≡ (pagination_sort sort available_sort value).0) (b_sort ∷ available_sort)
unfolding pagination_sort
pagination_sort_field sort available_sort value =
    ground (arith, includes_iff available_sort (split_first b'@' (or_text value sort)))

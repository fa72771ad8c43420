-- ===== src/Sample/Store.antt =====
-- A collection kept as a list, and the laws that the theorems ask of one.
use openapi_nestjs_auth_mong.Prelude.{
  ℤ, if◌then◌else◌, Bool-cases, Option-cases, is_some, length, take, drop, every, any, keep,
  includes, pos, String, ◌≡◌, ap, ◌∙◌, subst, inl, inr, Bool, true, false, not, ◌&&◌, ◌||◌, Option,
  none, some, List, [], ◌∷◌, ◌++◌, arith, ◌==◌, find?, eq_iff,
}
use openapi_nestjs_auth_mong.Database.{
  Term, text, flag, Condition, equals, like, within, among, outside, Filter, Collection, IsKeyed,
}

-- what a condition asks of a field of text, of a flag, or of one that is missing
abbrev meets : Option Term → Condition → Bool
meets (some (text t)) (equals (text s)) = t == s
meets (some (text t)) (like s) = is_some (find? t s)
meets (some (text t)) (among ts) = includes ts t
meets (some (text t)) (outside ids) = not (includes ids t)
meets (some (flag b)) (within bs) = any (λ c. (b && c) || (not b && not c)) bs
meets _ _ = false

module _ {D : Type 0} (id : D → String) (field : String → D → Option Term) where
  abbrev all_meet : List (String × Condition) → D → Bool
  all_meet cs d = every (λ c. meets (field c.0 d) c.1) cs

  abbrev pub matches : Filter → D → Bool
  matches f d =
      all_meet f.fields d
      && elim f.alternatives [ none ↦ true | some ors ↦ any (λ cs. all_meet cs d) ors ]

  abbrev pub first : String → List D → Option D
  first i [] = none
  first i (d ∷ ds) = if id d == i then some d else first i ds

  abbrev remove : String → List D → List D
  remove i [] = []
  remove i (d ∷ ds) = elim (id d == i) [ true ↦ remove i ds | false ↦ d ∷ remove i ds ]

  -- the first of the items, as they are stored, that matches
  abbrev take_match : Filter → Option D → Option D → Option D
  take_match f none rest = rest
  take_match f (some e) rest = if matches f e then some e else rest

  abbrev scan : Filter → List D → List D → Option D
  scan f ds [] = none
  scan f ds (d ∷ rest) = take_match f (first (id d) ds) (scan f ds rest)

  abbrev cut : Option ℤ → Option ℤ → List D → List D
  cut (some (pos l)) (some (pos s)) ds = take l (drop s ds)
  cut _ _ ds = ds

  abbrev pub listed : Collection D
  listed = record {
    find_by_id = first;
    find_one = λ f ds. scan f ds ds;
    find = λ f o ds. cut o.limit o.skip (keep (matches f) ds);
    count_documents = λ f ds. length (keep (matches f) ds);
    exists = λ f ds. is_some (scan f ds ds);
    save = λ d ds. some (d ∷ remove (id d) ds);
    find_by_id_and_delete = remove;
    find_one_and_delete = λ f ds. elim (scan f ds ds) [ none ↦ ds | some d ↦ remove (id d) ds ];
    insert_many = λ es ds. some (ds ++ es);
    delete_many = λ f ds. keep (λ d. not (matches f d)) ds;
  }

  first-id : (i : String) (ds : List D) {d : D} → first i ds ≡ some d → id d ≡ i
  first-id i [] h = cc
  first-id i (e ∷ ds) h = elim (Bool-cases (id e == i)) [
    | inl hit ↦ ground (arith, eq_iff (id e) i)
    | inr miss ↦ first-id i ds (ground arith)
  ]

  first-remove :
      (i : String) (ds : List D) (j : String)
      → first j (remove i ds) ≡ (if i == j then none else first j ds)
  first-remove i [] j = ground arith
  first-remove i (d ∷ ds) j =
      ground (arith, first-remove i ds j, eq_iff (id d) i, eq_iff (id d) j, eq_iff i j)

  scan_stored :
      (f : Filter) (ds rest : List D) {d : D} → scan f ds rest ≡ some d → first (id d) ds ≡ some d
  scan_stored f ds [] h = cc
  scan_stored f ds (e ∷ rest) {d} h = elim (Option-cases (first (id e) ds)) [
    | inl gone ↦ scan_stored f ds rest (ground arith)
    | inr (v, found) ↦ elim (Bool-cases (matches f v)) [
      | inl hit ↦
          let is : v ≡ d = ground arith in
          subst (λ u. first (id u) ds ≡ some u) is
            (ap (λ i. first i ds) (first-id (id e) ds found) ∙ found)
      | inr miss ↦ scan_stored f ds rest (ground arith)
    ]
  ]

  pub no_match :
      (f : Filter) (ds rest : List D) (j : String) (u v : D)
      → scan f ds rest ≡ none
      → first j rest ≡ some v
      → first j ds ≡ some u
      → matches f u ≡ false
  no_match f ds [] j u v h found kept_as = cc
  no_match f ds (e ∷ rest) j u v h found kept_as = elim (Bool-cases (id e == j)) [
    | inl hit ↦
        let here : first (id e) ds ≡ some u =
          ap (λ i. first i ds) ((eq_iff (id e) j).0 hit) ∙ kept_as in
        elim (Bool-cases (matches f u)) [ inl it_is ↦ ground arith | inr not_it ↦ not_it ]
    | inr miss ↦ elim (Option-cases (first (id e) ds)) [
      | inl gone ↦ no_match f ds rest j u v (ground arith) (ground arith) kept_as
      | inr (w, is) ↦ no_match f ds rest j u v (ground arith) (ground arith) kept_as
    ]
  ]

  -- the list of a schema whose casts change what is stored
  abbrev pub listed_cast : (D → D) → Collection D
  listed_cast cast = record listed { save = λ d ds. some (cast d ∷ remove (id d) ds) }

  pub listed_cast-IsKeyed :
      (cast : D → D) → ((d : D) → id (cast d) ≡ id d) → IsKeyed id cast (listed_cast cast)
  listed_cast-IsKeyed cast same = record {
    id_found = first-id;
    one_stored = λ f ds. scan_stored f ds ds;
    saved = λ d ds h i. ground (arith, first-remove (id d) ds i, same d);
    deleted = first-remove;
  }

  pub listed-IsKeyed : IsKeyed id (λ d. d) listed
  listed-IsKeyed = record {
    id_found = first-id;
    one_stored = λ f ds. scan_stored f ds ds;
    saved = λ d ds h i. ground (arith, first-remove (id d) ds i);
    deleted = first-remove;
  }

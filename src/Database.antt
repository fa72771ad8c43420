-- ===== src/Database.antt =====
-- The Mongoose models that the services are given (`Model<...>` of mongoose, not under src/): a
-- collection is the list of its documents, and what the driver does with it is a parameter.
use openapi_nestjs_auth_mong.Prelude.{
  if◌then◌else◌, ℤ, ℕ, String, ◌≡◌, Bool, Option, none, some, List, ◌==◌,
}

-- The filters that the services write: `{ field: condition, ... }` with an optional `$or`.
pub data Term : Type 0 where
  text : String → Term
  flag : Bool → Term
  -- { field: undefined }
  undefined : Term

pub data Condition : Type 0 where
  -- { field: value }
  equals : Term → Condition
  -- { field: { $regex: new RegExp(pattern), $options: 'i' } }
  like : String → Condition
  -- { field: { $in: values } }
  within : List Bool → Condition
  -- { field: { $in: texts } }
  among : List String → Condition
  -- { field: { $nin: ids } }
  outside : List String → Condition

pub record Filter : Type 0 where
  pub fields : List (String × Condition)
  -- each object of the `$or` array is a list of conditions
  pub alternatives : Option (List (List (String × Condition)))

-- A filter with no `$or`.
abbrev pub where_all : List (String × Condition) → Filter
where_all fields = record { fields = fields; alternatives = none }

-- IDatabaseFindAllOptions: `sort` is a field and a direction.
pub record FindAllOptions : Type 0 where
  pub limit : Option ℤ
  pub skip : Option ℤ
  pub sort : Option (String × Bool)

-- Limit and skip are applied only together.
abbrev pub paged : FindAllOptions → FindAllOptions
paged o = elim o.limit [
  | none ↦ record o { skip = none; limit = none }
  | some l ↦ elim o.skip [ none ↦ record o { skip = none; limit = none } | some s ↦ o ]
]

pub record Collection (D : Type 0) : Type 0 where
  pub find_by_id : String → List D → Option D
  pub find_one : Filter → List D → Option D
  pub find : Filter → FindAllOptions → List D → List D
  pub count_documents : Filter → List D → ℕ
  pub exists : Filter → List D → Bool
  -- none: the document is refused (validation, a unique index)
  pub save : D → List D → Option (List D)
  pub find_by_id_and_delete : String → List D → List D
  pub find_one_and_delete : Filter → List D → List D
  -- none: one of the documents is refused
  pub insert_many : List D → List D → Option (List D)
  pub delete_many : Filter → List D → List D

-- What the theorems rely on: a document that is read has the id that was asked for; one that a
-- filter finds is there under its id; a saved
-- document is read back under its id as its schema casts it, and the other documents stay as they
-- were; a deleted document is gone, and no other is.
pub record IsKeyed {D : Type 0} (id : D → String) (cast : D → D) (c : Collection D) : Type 0 where
  pub id_found : (i : String) (ds : List D) {d : D} → c.find_by_id i ds ≡ some d → id d ≡ i
  pub one_stored :
      (f : Filter) (ds : List D) {d : D}
      → c.find_one f ds ≡ some d
      → c.find_by_id (id d) ds ≡ some d
  pub saved :
      (d : D) (ds : List D) {es : List D}
      → c.save d ds ≡ some es
      → (i : String) → c.find_by_id i es ≡ (if id d == i then some (cast d) else c.find_by_id i ds)
  pub deleted :
      (i : String) (ds : List D) (j : String)
      → c.find_by_id j (c.find_by_id_and_delete i ds) ≡ (if i == j then none else c.find_by_id j ds)

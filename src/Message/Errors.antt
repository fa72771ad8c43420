-- ===== src/Message/Errors.antt =====
-- What class-validator reports, and the loop of MessageService.getRequestErrorsMessage that looks for
-- the constraints of a nested error.
pub mod Laws
use openapi_nestjs_auth_mong.Prelude.{
  ℕ, zero, suc, String, Option, none, some, List, Bool, true, false,
}
use openapi_nestjs_auth_mong.Helper.Text.{◌&◌}

-- ValidationError: the property, its value, the names of its constraints, if it has any, and its
-- children, of which `undefined` and an empty array are one to the code.
mutual
  pub data ValidationError : Type 0 where
    validation_error : String → String → Option (List String) → ValidationErrors → ValidationError

  pub data ValidationErrors : Type 0 where
    nil : ValidationErrors
    cons : ValidationError → ValidationErrors → ValidationErrors

-- `constraints`, `property` and `propertyValue`; the loop's fourth variable is `children`.
pub record Found : Type 0 where
  pub constraints : List String
  pub property : String
  pub property_value : String

-- `${property}.${child.property}`
abbrev pub inside : String → Found → Found
inside name s = record s { property = s.property & "." & name }

-- The inner loop over `children`, from a place of it to its `break`, or to its end, where `children`
-- stays as it was.
abbrev pub for_child : ValidationErrors → ValidationErrors → Found → ValidationErrors × Found
for_child children nil s = (children, s)
for_child children (cons (validation_error name value constraints (cons c cs)) rest) s =
    (cons c cs, inside name s)
for_child children (cons (validation_error name value (some names) nil) rest) s =
    (nil, record (inside name s) { constraints = names; property_value = value })
for_child children (cons (validation_error name value none nil) rest) s =
    for_child children rest (inside name s)

-- `while (children.length > 0)`; none: the fuel has run out
unfoldable pub while_children : ℕ → ValidationErrors × Found → Option Found
while_children fuel (nil, s) = some s
while_children zero (cons c cs, s) = none
while_children (suc fuel) (cons c cs, s) = while_children fuel (for_child (cons c cs) (cons c cs) s)

-- ===== src/Definition.antt =====
-- src/engine/engine.cpp, src/dao/contactdetailschema.cpp and
-- src/engine/detaildefinitionfetchrequest.cpp: the definitions of details.
--
-- A definition is known by its name and a number for its content. The table of the ontology, which
-- gives the schema of each contact type, is a parameter. The schema's definitions are computed anew
-- where the code keeps them.
use qtcontacts_tracker.Base.{
  ℕ, suc, Bool, true, false, not, if◌then◌else◌, Text, List, [], ◌∷◌, Option, none, some, is_empty,
  nat_eq, text_eq, lookup, insert, remove,
}
use qtcontacts_tracker.Request.{
  Error, no_error, invalid_contact_type_error, permissions_error, does_not_exist_error,
}
pub mod Store
pub mod Changes
mod Tests

pub record Definition : Type 0 where
  pub name : Text
  pub content : ℕ

-- A detail of the schema: its definition, and whether it is internal.
pub record Detail : Type 0 where
  pub definition : Definition
  pub is_internal : Bool

abbrev pub Definitions : Type 0
Definitions = List (Text × Definition)

pub record Schema : Type 0 where
  pub details : List Detail
  pub base_definitions : List Definition

-- The first loop of `QTrackerContactDetailSchema::detailDefinitions`.
unfoldable pub add_details : List Detail → Definitions → Definitions
unfolding insert
add_details [] found = found
add_details (d ∷ ds) found =
    add_details ds (if d.is_internal then found else insert d.definition.name d.definition found)

-- The second loop: base definitions that are not replaced.
unfoldable pub add_base : List Definition → Definitions → Definitions
unfolding lookup insert
add_base [] found = found
add_base (d ∷ ds) found =
    add_base ds (elim (lookup d.name found) [ none ↦ insert d.name d found | some e ↦ found ])

unfoldable pub schema_definitions : Schema → Definitions
unfolding add_details add_base
schema_definitions s = add_base s.base_definitions (add_details s.details [])

-- `m_customDetails`: by contact type, the custom definitions by name.
abbrev pub Custom : Type 0
Custom = List (Text × Definitions)

-- The loop that adds custom definitions, which replace others of their name.
unfoldable pub add_custom : Definitions → Definitions → Definitions
unfolding insert
add_custom [] found = found
add_custom ((name, d) ∷ ds) found = add_custom ds (insert name d found)

abbrev pub custom_of : Text → Custom → Definitions
custom_of type custom = elim (lookup type custom) [ none ↦ [] | some ds ↦ ds ]

-- What a fetch request has found: definitions, errors by position, and its last error.
pub record Fetched : Type 0 where
  pub definitions : Definitions
  pub error_map : List (ℕ × Error)
  pub last_error : Error

-- The loop over the names, from a position on.
unfoldable pub find_definitions : Definitions → ℕ → List Text → Fetched → Fetched
unfolding lookup insert
find_definitions known i [] f = f
find_definitions known i (name ∷ names) f =
    find_definitions known (suc i) names (elim (lookup name known) [
      | none ↦ record f {
        error_map = insert i does_not_exist_error f.error_map;
        last_error = does_not_exist_error;
      }
      | some d ↦ record f { definitions = insert name d f.definitions }
    ])

module _ (schemas : List (Text × Schema)) where
  unfoldable pub detail_definitions : Text → Custom → Definitions × Error
  unfolding lookup schema_definitions add_custom
  detail_definitions type custom = elim (lookup type schemas) [
    | none ↦ ([], invalid_contact_type_error)
    | some schema ↦ (add_custom (custom_of type custom) (schema_definitions schema), no_error)
  ]

  unfoldable pub detail_definition : Text → Text → Custom → Option Definition × Error
  unfolding lookup schema_definitions
  detail_definition name type custom = elim (lookup type schemas) [
    | none ↦ (none, invalid_contact_type_error)
    | some schema ↦ elim (lookup name (schema_definitions schema)) [
      | some d ↦ (some d, no_error)
      | none ↦ elim (lookup name (custom_of type custom)) [
        | some d ↦ (some d, no_error)
        | none ↦ (none, does_not_exist_error)
      ]
    ]
  ]

  unfoldable pub save_detail_definition : Definition → Text → Custom → Custom × Bool × Error
  unfolding lookup insert schema_definitions
  save_detail_definition d type custom = elim (lookup type schemas) [
    | none ↦ (custom, false, invalid_contact_type_error)
    | some schema ↦ elim (lookup d.name (schema_definitions schema)) [
      | some e ↦ (custom, false, permissions_error)
      | none ↦ (insert type (insert d.name d (custom_of type custom)) custom, true, no_error)
    ]
  ]

  unfoldable pub remove_detail_definition : Text → Text → Custom → Custom × Bool × Error
  unfolding lookup insert remove schema_definitions
  remove_detail_definition name type custom = elim (lookup type schemas) [
    | none ↦ (custom, false, invalid_contact_type_error)
    | some schema ↦ elim (lookup name (schema_definitions schema)) [
      | some e ↦ (custom, false, permissions_error)
      | none ↦ elim (lookup name (custom_of type custom)) [
        | none ↦ (custom, true, does_not_exist_error)
        | some d ↦ (insert type (remove name (custom_of type custom)) custom, true, no_error)
      ]
    ]
  ]

  -- `QTrackerDetailDefinitionFetchRequest::run`.
  unfoldable pub fetch_definitions : Text → List Text → Fetched
  unfolding lookup schema_definitions find_definitions
  fetch_definitions type names = elim (lookup type schemas) [
    | none ↦ record { definitions = []; error_map = []; last_error = invalid_contact_type_error }
    | some schema ↦
        let known = schema_definitions schema in
        let all : Fetched = record { definitions = known; error_map = []; last_error = no_error } in
        if is_empty names
        then all
        else find_definitions known 0 names (record all { definitions = [] })
  ]

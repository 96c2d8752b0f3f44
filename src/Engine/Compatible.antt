-- ===== src/Engine/Compatible.antt =====
-- src/engine/engine.cpp: `compatibleContact`.
--
-- A contact is its details in order, each with the key by which Qt Mobility knows it and its values
-- by the names of fields. Whether a field can convert a value for storage is a test of the schema.
use qtcontacts_tracker.Base.{
  ℕ, Bool, true, ◌==◌, if◌then◌else◌, Text, same_text, List, [], ◌∷◌, Option, none, some, select,
}

pub record Detail : Type 0 where
  pub key : ℕ
  pub definition_name : Text
  pub values : List (Text × Text)

-- The definition of a detail: no test is given for a custom field.
pub record Definition : Type 0 where
  pub name : Text
  pub is_unique : Bool
  pub make_value : Text → Option (Text → Bool)

abbrev pub has_name : Text → Detail → Bool
has_name name d = same_text d.definition_name name

-- `QContact::details` of a name, `removeDetail` and `saveDetail` of a detail that is there.
abbrev pub details_of : Text → List Detail → List Detail
details_of name ds = select (has_name name) ds

-- `removeDetail` of a detail that the engine may remove: none has a constraint against it.
unfoldable pub remove_detail : ℕ → List Detail → List Detail
remove_detail key [] = []
remove_detail key (d ∷ ds) = if d.key == key then ds else d ∷ remove_detail key ds

unfoldable pub save_detail : Detail → List Detail → List Detail
save_detail d [] = d ∷ []
save_detail d (c ∷ ds) = if c.key == d.key then d ∷ ds else c ∷ save_detail d ds

-- The loop that removes the odd details of a name.
unfoldable pub remove_all : List Detail → List Detail → List Detail
unfolding remove_detail
remove_all [] ds = ds
remove_all (odd ∷ odds) ds = remove_all odds (remove_detail odd.key ds)

abbrev pub odd_details : List Detail → List Detail
odd_details [] = []
odd_details (d ∷ odds) = odds

unfoldable pub drop_odd_details : List Definition → List Detail → List Detail
unfolding remove_all
drop_odd_details [] ds = ds
drop_odd_details (definition ∷ schema) ds = drop_odd_details schema (
    if definition.is_unique
    then remove_all (odd_details (details_of definition.name ds)) ds
    else ds)

abbrev pub can_store : Definition → Text → Text → Bool
can_store definition field value = elim (definition.make_value field) [
  | none ↦ true
  | some test ↦ test value
]

-- The loop over the values of a detail: it ends with the first one that is removed.
unfoldable pub prune_values : Definition → List (Text × Text) → List (Text × Text)
prune_values definition [] = []
prune_values definition ((field, value) ∷ values) =
    if can_store definition field value
    then (field, value) ∷ prune_values definition values
    else values

unfoldable pub prune_details : Definition → List Detail → List Detail → List Detail
unfolding prune_values save_detail
prune_details definition [] ds = ds
prune_details definition (d ∷ rest) ds =
    prune_details definition rest
      (save_detail (record d { values = prune_values definition d.values }) ds)

unfoldable pub check_fields : List Definition → List Detail → List Detail
unfolding prune_details
check_fields [] ds = ds
check_fields (definition ∷ schema) ds =
    check_fields schema (prune_details definition (details_of definition.name ds) ds)

-- `compatibleContact`, which never reports an error.
unfoldable pub compatible_contact : List Definition → List Detail → List Detail
unfolding drop_odd_details check_fields
compatible_contact schema ds = check_fields schema (drop_odd_details schema ds)

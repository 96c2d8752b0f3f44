-- ===== src/Update.antt =====
-- src/engine/contactsaverequest.cpp: `UpdateBuilder`, which collects the statements of an update.
--
-- `QString::number` is a parameter. A value of a field is a leaf, or a list of texts or of leaves.
use qtcontacts_tracker.Base.{
  ℕ, suc, Bool, true, false, not, ◌&&◌, ◌||◌, ◌==◌, any, if◌then◌else◌, Text, same_text, codes,
  List, [], ◌∷◌, ◌++◌, Option, none, some, is_empty, text_eq, lookup, insert,
}
pub mod Names
pub mod Reading
pub mod Custom
pub mod Affiliations
pub mod Chain
mod Tests

-- A `QVariant` that is no list: null, a text, or another value known by a number.
pub data Leaf : Type 0 where
  null : Leaf
  text : Text → Leaf
  scalar : ℕ → Leaf

pub data Variant : Type 0 where
  leaf : Leaf → Variant
  text_list : List Text → Variant
  list : List Leaf → Variant

-- Equality without the conversions of `QVariant`, as for two texts.
unfoldable pub same_leaf : Leaf → Leaf → Bool
same_leaf null null = true
same_leaf (text a) (text b) = same_text a b
same_leaf (scalar m) (scalar n) = m == n
same_leaf _ _ = false

abbrev pub is_null : Leaf → Bool
is_null null = true
is_null _ = false

-- The nodes of a statement: `ResourceValue`, `BlankValue`, `Variable` and `LiteralValue`.
pub data Value : Type 0 where
  resource : Text → Value
  blank : Text → Value
  variable : Text → Value
  literal : Leaf → Value

-- The predicates that the builder itself names, and those of properties, by their IRI.
pub data Predicate : Type 0 where
  rdf_type has_property property_name property_value : Predicate
  label has_affiliation : Predicate
  predicate_of : Text → Predicate

pub record Pattern : Type 0 where
  pub subject : Value
  pub predicate : Predicate
  pub object : Value

-- The state that these operations change: `m_explicitInsertStatements`, `m_affiliations` and
-- `m_variableCounter`.
pub record Builder : Type 0 where
  pub statements : List Pattern
  pub affiliations : List (Text × Value)
  pub variable_counter : ℕ

unfoldable pub init : Builder
init = record { statements = []; affiliations = []; variable_counter = 1 }

-- `insertValue` with `EnforceNewValue`.
unfoldable pub insert_value : Value → Predicate → Value → Builder → Builder
insert_value s p o b = record b {
  statements = b.statements ++ (record { subject = s; predicate = p; object = o } ∷ []);
}

abbrev underscore : ℕ
underscore = 95

-- `name`.
unfoldable pub joined_name : Text → Text → Text
joined_name prefix suffix = if is_empty suffix then prefix else prefix ++ (underscore ∷ suffix)

-- The values that are stored as custom ones.
abbrev pub contains_leaf : List Leaf → Leaf → Bool
contains_leaf xs x = any (λ y. same_leaf y x) xs

abbrev pub custom_texts : List Leaf → List Text → List Leaf
custom_texts allowable [] = []
custom_texts allowable (t ∷ ts) =
    let rest = custom_texts allowable ts in
    if not (is_empty t) && not (contains_leaf allowable (text t)) then text t ∷ rest else rest

abbrev pub custom_leaves : List Leaf → List Leaf → List Leaf
custom_leaves allowable [] = []
custom_leaves allowable (x ∷ xs) =
    let rest = custom_leaves allowable xs in
    if not (is_null x) && not (contains_leaf allowable x) then x ∷ rest else rest

unfoldable pub custom_values : List Leaf → Variant → List Leaf
unfolding same_leaf
custom_values allowable (text_list ts) = custom_texts allowable ts
custom_values allowable (list xs) = custom_leaves allowable xs
custom_values allowable (leaf x) = custom_leaves allowable (x ∷ [])

module _ (number : ℕ → Text) where
  -- `makeUniqueName`.
  unfoldable pub make_unique_name : Text → Builder → Text × Builder
  make_unique_name basename b = (
    basename ++ number b.variable_counter,
    record b { variable_counter = suc b.variable_counter },
  )

  -- `lookupAffiliation`: the value of a context, made when it is needed first.
  unfoldable pub lookup_affiliation : Text → Builder → Value × Builder
  unfolding make_unique_name joined_name lookup insert
  lookup_affiliation context b =
      let (fresh, b') = make_unique_name (joined_name (codes "Affiliation") context) b in
      elim (lookup context b.affiliations) [
        | some value ↦ (value, b)
        | none ↦
            (blank fresh, record b' { affiliations = insert context (blank fresh) b'.affiliations })
      ]

  -- One turn of the second loop of `insertCustomValues`.
  unfoldable pub insert_property : Value → Text → Text → Leaf → Builder → Builder
  unfolding make_unique_name insert_value joined_name
  insert_property subject detail_name field_name element b =
      let (fresh, b') = make_unique_name (joined_name detail_name field_name) b in
      let property = blank fresh in
      let b1 = insert_value subject rdf_type (resource (codes "nie:InformationElement")) b' in
      let b2 = insert_value subject has_property property b1 in
      let b3 = insert_value property rdf_type (resource (codes "nao:Property")) b2 in
      let b4 = insert_value property property_name (literal (text field_name)) b3 in
      insert_value property property_value (literal element) b4

  unfoldable pub insert_properties : Value → Text → Text → List Leaf → Builder → Builder
  unfolding insert_property
  insert_properties subject detail_name field_name [] b = b
  insert_properties subject detail_name field_name (x ∷ xs) b =
      insert_properties subject detail_name field_name xs
        (insert_property subject detail_name field_name x b)

  unfoldable pub insert_custom_values :
      Value → Text → Text → Variant → List Leaf → Builder → Builder
  unfolding custom_values insert_properties
  insert_custom_values subject detail_name field_name value allowable b =
      insert_properties subject detail_name field_name (custom_values allowable value) b

  -- The loop of `insertCustomDetail` over the fields.
  unfoldable pub insert_fields : Value → Text → List (Text × Variant) → Builder → Builder
  unfolding insert_custom_values
  insert_fields property detail_name [] b = b
  insert_fields property detail_name ((field, value) ∷ fields) b =
      insert_fields property detail_name fields
        (insert_custom_values property detail_name field value [] b)

  unfoldable pub insert_custom_detail : Value → Text → List (Text × Variant) → Builder → Builder
  unfolding make_unique_name insert_value insert_fields
  insert_custom_detail subject detail_name fields b =
      let (fresh, b') = make_unique_name detail_name b in
      let property = blank fresh in
      let b1 = insert_value subject has_property property b' in
      let b2 = insert_value property rdf_type (resource (codes "nao:Property")) b1 in
      let b3 = insert_value property property_name (literal (text detail_name)) b2 in
      insert_fields property detail_name fields b3

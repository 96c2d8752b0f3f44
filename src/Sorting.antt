-- ===== src/Sorting.antt =====
-- src/dao/scalarquerybuilder.cpp: the sort orders that a query can express.
--
-- What the schema knows of details and fields is a parameter. The predicate chain of a field and the
-- patterns on it are known by their parts.
use qtcontacts_tracker.Base.{
  Bool, true, false, not, ◌||◌, if◌then◌else◌, Text, List, [], ◌∷◌, ◌++◌, Option, none, some,
  is_empty,
}
use qtcontacts_tracker.Request.{Error, no_error, not_supported_error}
mod Supported
mod Tests

-- `QContactSortOrder`.
pub record SortOrder : Type 0 where
  pub definition_name : Text
  pub field_name : Text
  pub is_ascending : Bool
  pub blanks_first : Bool
  pub case_insensitive : Bool

pub record Field : Type 0 where
  pub property_chain : List Text
  pub is_synthesized : Bool
  pub has_sub_types : Bool
  pub is_without_mapping : Bool

pub record Detail : Type 0 where
  pub has_context : Bool
  pub field : Text → Option Field

pub record Schema : Type 0 where
  pub is_synthetic_detail : Text → Bool
  pub detail : Text → Option Detail

-- What a comparator selects: the value of a custom detail, or the end of a chain from the contact
-- or its affiliation, or a custom field there.
pub data Selected : Type 0 where
  custom_detail : Text → Text → Selected
  chain_end : Bool → List Text → Selected
  custom_field : Bool → List Text → Text → Selected

pub record OrderComparator : Type 0 where
  pub selected : Selected
  pub is_ascending : Bool

unfoldable pub find_field : Detail → Text → Option Field
find_field d name = if is_empty name then none else d.field name

module _ (schema : Schema) where
  -- What one turn of the loop selects, or none where it returns `NotSupportedError`.
  unfoldable pub select_field : Detail → SortOrder → Option Selected
  select_field d o = elim (find_field d o.field_name) [
    | none ↦ none
    | some field ↦
        if field.is_synthesized || field.has_sub_types
        then none
        else some (
            if field.is_without_mapping
            then custom_field d.has_context field.property_chain o.field_name
            else chain_end d.has_context field.property_chain)
  ]

  unfoldable pub select_order : SortOrder → Option Selected
  select_order o =
      if not o.blanks_first
      then none
      else (if not o.case_insensitive
          then none
          else (if schema.is_synthetic_detail o.definition_name
              then none
              else elim (schema.detail o.definition_name) [
                | none ↦ some (custom_detail o.definition_name o.field_name)
                | some d ↦ select_field d o
              ]))

  -- The loop: the error, and the comparators that were appended.
  unfoldable pub bind_sort_orders :
      List SortOrder → List OrderComparator → Error × List OrderComparator
  bind_sort_orders [] result = (no_error, result)
  bind_sort_orders (o ∷ orders) result = elim (select_order o) [
    | none ↦ (not_supported_error, result)
    | some selected ↦
        bind_sort_orders orders
          (result ++ (record { selected = selected; is_ascending = o.is_ascending } ∷ []))
  ]

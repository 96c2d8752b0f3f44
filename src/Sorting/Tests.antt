-- ===== src/Sorting/Tests.antt =====
-- src/dao/scalarquerybuilder.cpp: sort orders over a schema with one detail.
use qtcontacts_tracker.Base.{
  Bool, true, false, if◌then◌else◌, Text, List, [], ◌∷◌, some, none, codes, same_text,
}
use qtcontacts_tracker.Sorting.{SortOrder, Schema}

abbrev order : Text → Text → Bool → SortOrder
order name field up = record {
  definition_name = name;
  field_name = field;
  is_ascending = up;
  blanks_first = true;
  case_insensitive = true;
}

abbrev schema : Schema
schema = record {
  is_synthetic_detail = λ name. same_text name (codes "DisplayLabel");
  detail = λ name.
      if same_text name (codes "Name")
      then some (record {
        has_context = false;
        field = λ field.
            if same_text field (codes "LastName")
            then some (record {
              property_chain = codes "nco:nameFamily" ∷ [];
              is_synthesized = false;
              has_sub_types = false;
              is_without_mapping = false;
            })
            else none;
      })
      else none;
}

-- The third order is on a synthetic detail.
abbrev orders : List SortOrder
orders =
    order (codes "Name") (codes "LastName") true
    ∷ order (codes "Custom") (codes "Value") false
    ∷ order (codes "DisplayLabel") (codes "Label") true
    ∷ order (codes "Name") (codes "LastName") true
    ∷ []

-- ===== src/Filter.antt =====
-- src/dao/scalarquerybuilder.cpp: which filters are supported, and the condition that a filter
-- binds on a contact.
--
-- The conditions of the Cubi library and what they mean are an interface, `Cubi`. A `Filter()` that
-- is left as it was is `no_restriction`. `QContactManagerEngine::canonicalizedFilter` is a
-- parameter, and so are the conditions of filters on one field of a detail. The calls nest as deep
-- as the filter: that is the fuel, and `none` says that it has run out.
use qtcontacts_tracker.Base.{
  ℕ, zero, suc, ◌+◌, Bool, true, false, not, ◌&&◌, ◌||◌, ◌==◌, leb, any, if◌then◌else◌, Text,
  same_text, List, [], ◌∷◌, ◌++◌, map, Option, none, some, is_empty, ◌≡◌, codes,
}
use qtcontacts_tracker.Request.{Error, not_supported_error, bad_argument_error}
pub mod Matches
mod Leaves
pub mod Bound
pub mod Supported
mod Tests

pub data EventType : Type 0 where
  event_added event_changed event_removed : EventType

pub data Role : Type 0 where
  first_role second_role either_role : Role

-- A filter on a detail, or on one field of it: the value and the flags, or the range, are one
-- number, which only the conditions of fields read.
pub record DetailFilter : Type 0 where
  pub definition_name : Text
  pub field_name : Text
  pub is_range : Bool
  pub value : Text
  pub match_flags : ℕ

mutual
  pub data Filter : Type 0 where
    invalid_filter default_filter action_filter : Filter
    local_id_filter : List ℕ → Filter
    detail_filter : DetailFilter → Filter
    change_log_filter : EventType → ℕ → Filter
    -- The type, the manager and the local id of the related contact, and its role.
    relationship_filter : Text → Text → ℕ → Role → Filter
    intersection_filter : Filters → Filter
    union_filter : Filters → Filter

  pub data Filters : Type 0 where
    no_filters : Filters
    add_filter : Filter → Filters → Filters

-- Cubi's conditions on a contact, and when one holds. A contact has a tracker id, maybe times of
-- creation and of change, the groups it belongs to, and the contacts that belong to it.
pub record Cubi (C X : Type 0) : Type 0 where
  pub holds : C → X → Bool
  pub tracker_id : X → ℕ
  pub content_created : X → Option ℕ
  pub content_last_modified : X → Option ℕ
  pub groups_of : X → List ℕ
  pub members_of : X → List ℕ
  pub no_restriction : C
  pub literal : Bool → C
  pub id_in : List ℕ → C
  pub created_since : ℕ → C
  pub modified_since : ℕ → C
  pub belongs_to_group : ℕ → C
  pub has_member : ℕ → C
  pub all_of : List C → C
  pub any_of : List C → C

abbrev pub since : ℕ → Option ℕ → Bool
since t none = false
since t (some t') = leb t t'

-- What the documentation of SPARQL says of these conditions.
pub record CubiLaws {C X : Type 0} (cubi : Cubi C X) : Type 0 where
  pub holds-no_restriction : (x : X) → cubi.holds cubi.no_restriction x ≡ true
  pub holds-literal : (b : Bool) (x : X) → cubi.holds (cubi.literal b) x ≡ b
  pub holds-id_in :
      (ids : List ℕ) (x : X)
      → cubi.holds (cubi.id_in ids) x ≡ any (λ id. id == cubi.tracker_id x) ids
  pub holds-created_since :
      (t : ℕ) (x : X) → cubi.holds (cubi.created_since t) x ≡ since t (cubi.content_created x)
  pub holds-modified_since :
      (t : ℕ) (x : X)
      → cubi.holds (cubi.modified_since t) x ≡ since t (cubi.content_last_modified x)
  pub holds-belongs_to_group :
      (id : ℕ) (x : X)
      → cubi.holds (cubi.belongs_to_group id) x ≡ any (λ g. g == id) (cubi.groups_of x)
  pub holds-has_member :
      (id : ℕ) (x : X) → cubi.holds (cubi.has_member id) x ≡ any (λ m. m == id) (cubi.members_of x)
  pub holds-all_of_nil : (x : X) → cubi.holds (cubi.all_of []) x ≡ true
  pub holds-all_of :
      (c : C) (cs : List C) (x : X)
      → cubi.holds (cubi.all_of (c ∷ cs)) x ≡ cubi.holds c x && cubi.holds (cubi.all_of cs) x
  pub holds-any_of_nil : (x : X) → cubi.holds (cubi.any_of []) x ≡ false
  pub holds-any_of :
      (c : C) (cs : List C) (x : X)
      → cubi.holds (cubi.any_of (c ∷ cs)) x ≡ cubi.holds c x || cubi.holds (cubi.any_of cs) x

-- What a call of `bindFilter` returns, with its result.
pub data Bind (A : Type 0) : Type 0 where
  bound : A → Bind A
  failed : Error → Bind A

abbrev pub is_first : Role → Bool
is_first second_role = false
is_first _ = true

abbrev pub is_second : Role → Bool
is_second first_role = false
is_second _ = true

abbrev pub type_definition : Text
type_definition = codes "Type"

abbrev pub has_member_type : Text
has_member_type = codes "HasMember"

-- The support of filters: `isCompoundFilterSupported` over any test of the parts.
abbrev pub compound_supported : (Filter → Option Bool) → Filters → Option Bool
compound_supported test no_filters = some true
compound_supported test (add_filter f fs) = elim (test f) [
  | some true ↦ compound_supported test fs
  | other ↦ other
]

-- `isCanonicalFilterSupported`.
unfoldable pub is_canonical_filter_supported : (Filter → Option Bool) → Filter → Option Bool
is_canonical_filter_supported test (intersection_filter fs) = compound_supported test fs
is_canonical_filter_supported test (union_filter fs) = compound_supported test fs
is_canonical_filter_supported test action_filter = some false
is_canonical_filter_supported test _ = some true

module _ (canonicalized : Filter → Filter) where
  unfoldable pub is_filter_supported : ℕ → Filter → Option Bool
  is_filter_supported zero f = none
  is_filter_supported (suc n) f =
      is_canonical_filter_supported (is_filter_supported n) (canonicalized f)

-- The loop over the parts of an intersection or a union, which stops at the first error.
abbrev pub bind_all : {C : Type 0} → (Filter → Option (Bind C)) → Filters → Option (Bind (List C))
bind_all bind no_filters = some (bound [])
bind_all bind (add_filter f fs) = elim (bind f) [
  | none ↦ none
  | some (failed e) ↦ some (failed e)
  | some (bound c) ↦ elim (bind_all bind fs) [
    | none ↦ none
    | some (failed e) ↦ some (failed e)
    | some (bound cs) ↦ some (bound (c ∷ cs))
  ]
]

abbrev pub map_bound : {A B : Type 0} → (A → B) → Option (Bind A) → Option (Bind B)
map_bound g none = none
map_bound g (some (failed e)) = some (failed e)
map_bound g (some (bound a)) = some (bound (g a))

module _ {C X : Type 0} (cubi : Cubi C X) where
  unfoldable pub bind_local_ids : List ℕ → Bind C
  bind_local_ids ids = if is_empty ids then failed bad_argument_error else bound (cubi.id_in ids)

  unfoldable pub bind_change_log : EventType → ℕ → Bind C
  bind_change_log event_added t = bound (cubi.created_since t)
  bind_change_log event_changed t = bound (cubi.modified_since t)
  bind_change_log event_removed t = failed not_supported_error

  unfoldable pub bind_relationship : Text → Text → Text → ℕ → Role → Bind C
  bind_relationship manager_uri type manager id role =
      if same_text type has_member_type
      then (if same_text manager manager_uri
          then (let restrictions =
                (if is_first role then cubi.belongs_to_group id ∷ [] else [])
                ++ (if is_second role then cubi.has_member id ∷ [] else []) in
              bound
                (if is_empty restrictions then cubi.no_restriction else cubi.any_of restrictions))
          else bound (cubi.literal false))
      else failed not_supported_error

-- `bindDetailFilterForAnyField`: the union of the filters on each field.
abbrev pub any_field : DetailFilter → List Text → Filters
any_field d [] = no_filters
any_field d (field ∷ fields) =
    add_filter (detail_filter (record d { field_name = field })) (any_field d fields)

-- What the query builder knows: its schema's contact type and fields, its manager, and the
-- conditions of filters on a field.
pub record Builder (C : Type 0) : Type 0 where
  pub contact_type : Text
  pub fields : Text → Option (List Text)
  pub manager_uri : Text
  pub field_condition : DetailFilter → Bind C

-- Whether a filter on a detail is one on the contact's type.
abbrev pub is_type_filter : DetailFilter → Bool
is_type_filter d =
    not d.is_range
    && (same_text d.definition_name type_definition && same_text d.field_name type_definition)

-- The fields to go through, if the filter is on any field of a detail of the schema.
abbrev pub fields_to_try : {C : Type 0} → Builder C → DetailFilter → Option (List Text)
fields_to_try b d = if is_empty d.field_name then b.fields d.definition_name else none

module _ {C X : Type 0} (cubi : Cubi C X) (b : Builder C) where
  -- The filters on details: of the type, of any field, and of one field.
  unfoldable pub bind_detail_filter : (Filter → Option (Bind C)) → DetailFilter → Option (Bind C)
  bind_detail_filter bind d =
      if is_type_filter d
      then some (bound (cubi.literal (same_text b.contact_type d.value)))
      else elim (fields_to_try b d) [
        | some fields ↦ map_bound cubi.any_of (bind_all bind (any_field d fields))
        | none ↦ some (b.field_condition d)
      ]

  -- The `switch` of `bindFilter`.
  unfoldable pub bind_canonical : (Filter → Option (Bind C)) → Filter → Option (Bind C)
  unfolding bind_local_ids bind_change_log bind_relationship bind_detail_filter
  bind_canonical bind (local_id_filter ids) = some (bind_local_ids cubi ids)
  bind_canonical bind (intersection_filter fs) = map_bound cubi.all_of (bind_all bind fs)
  bind_canonical bind (union_filter fs) = map_bound cubi.any_of (bind_all bind fs)
  bind_canonical bind (detail_filter d) = bind_detail_filter bind d
  bind_canonical bind (change_log_filter event t) = some (bind_change_log cubi event t)
  bind_canonical bind (relationship_filter type manager id role) =
      some (bind_relationship cubi b.manager_uri type manager id role)
  bind_canonical bind default_filter = some (bound cubi.no_restriction)
  bind_canonical bind invalid_filter = some (bound (cubi.literal false))
  bind_canonical bind action_filter = some (failed not_supported_error)

module _ {C X : Type 0} (cubi : Cubi C X) (b : Builder C) (canonicalized : Filter → Filter) where
  unfoldable pub bind_filter : ℕ → Filter → Option (Bind C)
  unfolding bind_canonical
  bind_filter zero f = none
  bind_filter (suc n) f = bind_canonical cubi b (bind_filter n) (canonicalized f)

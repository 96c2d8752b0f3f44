-- ===== src/Update/Chain.antt =====
-- src/engine/contactsaverequest.cpp: `insertDetailField`, the statements for one field of a detail.
--
-- `qctMakeCubiValue`, the IRIs that a property makes of a value, and conversions are parameters. A
-- value is valid, as `makeValue` gives it.
use qtcontacts_tracker.Base.{
  ℕ, Bool, true, false, not, ◌&&◌, ◌||◌, if◌then◌else◌, Text, same_text, codes, List, [], ◌∷◌, ◌++◌,
  Option, none, some, is_empty, ◌==◌, Eq, text_eq, list_beq, list_beq_iff, lookup, insert,
}
use qtcontacts_tracker.Update.{
  Leaf, null, text, Variant, leaf, text_list, list, Value, resource, blank, variable, Predicate,
  rdf_type, predicate_of, Pattern, Builder, same_leaf, insert_value, joined_name, make_unique_name,
  insert_custom_values,
}
pub mod Path
pub mod Stored
pub mod Walked
mod Repeated
mod Tests

pub record Property : Type 0 where
  pub iri : Text
  pub is_inverse : Bool
  pub is_read_only : Bool
  pub is_foreign_key : Bool
  pub is_case_sensitive : Bool
  pub scheme : ℕ
  pub is_content_scheme : Bool

-- The field that selects a subtype: what it gives for a value, and the property for each value.
pub record SubTypeField : Type 0 where
  pub name : Text
  pub permits_custom_values : Bool
  pub default_value : Leaf
  pub allowable_values : List Leaf
  pub properties : List (Leaf × Text)

pub record Field : Type 0 where
  pub name : Text
  pub property_chain : List Property
  pub is_without_mapping : Bool
  pub has_literal_value : Bool
  pub permits_custom_values : Bool
  pub allowable_values : List Leaf
  pub computed_properties : List (Text × (Variant → Option Variant))

pub record Detail : Type 0 where
  pub definition_name : Text
  pub detail_uri : Text
  pub detail_uri_scheme : ℕ
  pub field_value : Text → Variant
  pub sub_type_field : Option SubTypeField

-- A restriction for an object that is found by its key.
pub record Restriction : Type 0 where
  pub subject : Value
  pub predicate : Text
  pub object : Value
  pub is_case_sensitive : Bool

instance abbrev pub chain_eq : Eq (List Text)
chain_eq = record { beq = list_beq text_eq; beq_iff = list_beq_iff text_eq }

-- The builder, the cache of the detail's objects by their chain, the end of the axis, the chain so
-- far, and whether the value is still to be stored.
pub record Walk : Type 0 where
  pub builder : Builder
  pub object_cache : List (List Text × Value)
  pub axis : Value
  pub predicate_chain : List Text
  pub literal_value_pending : Bool

-- The statement of a property between a node of the axis and its object.
abbrev pub link : Property → Value → Value → Pattern
link p axis object =
    if p.is_inverse
    then record { subject = object; predicate = predicate_of p.iri; object = axis }
    else record { subject = axis; predicate = predicate_of p.iri; object = object }

abbrev pub insert_pattern : Pattern → Builder → Builder
insert_pattern p b = insert_value p.subject p.predicate p.object b

-- All types of a chain.
abbrev pub types_at : List Text → List (List Text × Text) → List Text
types_at chain [] = []
types_at chain ((c, iri) ∷ types) =
    let rest = types_at chain types in if list_beq text_eq c chain then iri ∷ rest else rest

unfoldable pub insert_types : Value → List Text → Builder → Builder
unfolding insert_value
insert_types object [] b = b
insert_types object (iri ∷ iris) b =
    insert_types object iris (insert_value object rdf_type (resource iri) b)

-- `findSubTypeValue`: null if it is of no use.
unfoldable pub find_sub_type_value : Detail → SubTypeField → Leaf
find_sub_type_value detail f =
    let usable : Leaf → Leaf = λ x. elim x [ text t ↦ text t | _ ↦ null ] in
    if is_empty f.properties then null else elim (detail.field_value f.name) [
      | text_list [] ↦ usable f.default_value
      | text_list (t ∷ ts) ↦ text t
      | leaf x ↦ usable x
      | list xs ↦ null
    ]

abbrev pub property_for : Leaf → List (Leaf × Text) → Option Text
property_for x [] = none
property_for x ((y, iri) ∷ rest) = if same_leaf y x then some iri else property_for x rest

-- `findSubTypePredicate`: the predicate for the value, or the given last one of the chain.
unfoldable pub find_sub_type_predicate : Detail → Text → Text
unfolding find_sub_type_value same_leaf
find_sub_type_predicate detail last = elim detail.sub_type_field [
  | none ↦ last
  | some f ↦ elim (find_sub_type_value detail f) [
    | null ↦ last
    | x ↦ elim (property_for x f.properties) [ none ↦ last | some iri ↦ iri ]
  ]
]

-- The end of the chain is one property on, and that is a foreign key.
abbrev pub is_key_next : List Property → Bool
is_key_next (n ∷ []) = n.is_foreign_key
is_key_next _ = false

abbrev pub has_types : List Property → Bool
has_types [] = true
has_types (n ∷ more) = not n.is_foreign_key

abbrev pub last_of : List Property → Option Property
last_of [] = none
last_of (p ∷ []) = some p
last_of (p ∷ q ∷ ps) = last_of (q ∷ ps)

unfoldable pub first_is_read_only : List Property → Bool
first_is_read_only [] = false
first_is_read_only (p ∷ ps) = p.is_read_only

module _ (number : ℕ → Text) (cubi_value : Variant → Value)
    (make_resource_iri : Property → Variant → Text) where
  -- `makeSubjectIri` for a property that is the tail of the chain, or not.
  unfoldable pub make_subject_iri : Detail → Property → Bool → Variant → Text
  make_subject_iri detail p is_tail value =
      let own = if is_tail && p.scheme == detail.detail_uri_scheme then detail.detail_uri else [] in
      if p.is_content_scheme then (if is_empty own then make_resource_iri p value else own) else []

  -- The subject IRI of the next property, if that is no foreign key.
  unfoldable pub next_subject_iri : Detail → List Property → Variant → Text
  unfolding make_subject_iri
  next_subject_iri detail [] value = []
  next_subject_iri detail (n ∷ more) value =
      if n.is_foreign_key then [] else make_subject_iri detail n (is_empty more) value

  -- A new object, behind which `rest` is left of the chain.
  unfoldable pub make_object :
      Detail → Field → Variant → List Property → Builder → Value × Bool × Builder
  unfolding next_subject_iri make_unique_name joined_name
  make_object detail field value rest b =
      let iri = next_subject_iri detail rest value in
      let (fresh, b') =
        make_unique_name number (joined_name detail.definition_name (codes "Resource")) b in
      let node =
        if not field.is_without_mapping && is_key_next rest then variable fresh else blank fresh in
      if not (is_empty iri)
      then (resource iri, false, b)
      else (if not (is_empty rest) || field.is_without_mapping
          then (node, false, b')
          else (cubi_value value, true, b))

  -- The object of a property, from the cache or new with its types.
  unfoldable pub find_object :
      Detail
      → Field
      → Variant
      → List (List Text × Text)
      → Property
      → List Property
      → Walk
      → Value × Walk
  unfolding make_object insert_types lookup insert
  find_object detail field value types p rest w =
      let chain = w.predicate_chain ++ (p.iri ∷ []) in
      let (object, stored, b) = make_object detail field value rest w.builder in
      let typed = if has_types rest then insert_types object (types_at chain types) b else b in
      elim (lookup chain w.object_cache) [
        | some object' ↦ (object', record w { predicate_chain = chain })
        | none ↦ (
          object,
          record w {
            builder = typed;
            object_cache = insert chain object w.object_cache;
            predicate_chain = chain;
            literal_value_pending = w.literal_value_pending && not stored;
          },
        )
      ]

  -- The loop over the chain: `whole` tells whether it goes to the last property.
  unfoldable pub walk_chain :
      Detail → Field → Variant → List (List Text × Text) → Bool → List Property → Walk → Walk
  unfolding find_object insert_value
  walk_chain detail field value types whole [] w = w
  walk_chain detail field value types whole (p ∷ rest) w =
      let (object, w') = find_object detail field value types p rest w in
      let linked = record w' {
        builder = insert_pattern (link p w.axis object) w'.builder;
        axis = object;
      } in
      let further = walk_chain detail field value types whole rest linked in
      if (not whole && is_empty rest) || p.is_read_only then w else further

  -- The values of computed properties; a conversion that fails gives none.
  unfoldable pub insert_computed :
      Value → Variant → List (Text × (Variant → Option Variant)) → Builder → Builder
  unfolding insert_value
  insert_computed axis value [] b = b
  insert_computed axis value ((iri, convert) ∷ rest) b =
      insert_computed axis value rest (elim (convert value) [
        | none ↦ b
        | some v ↦ insert_value axis (predicate_of iri) (cubi_value v) b
      ])

  -- The value itself: restricted by its key, or stored if the loop has not stored it.
  unfoldable pub insert_last :
      Detail → Field → Variant → Property → Walk → List Restriction → Builder × List Restriction
  unfolding find_sub_type_predicate insert_value
  insert_last detail field value last w restrictions =
      let key : Restriction = record {
        subject = w.axis;
        predicate = last.iri;
        object = cubi_value value;
        is_case_sensitive = last.is_case_sensitive;
      } in
      let chosen = record last { iri = find_sub_type_predicate detail last.iri } in
      let stored = insert_pattern (link chosen w.axis (cubi_value value)) w.builder in
      if field.is_without_mapping
      then (w.builder, restrictions)
      else (if last.is_foreign_key
          then (w.builder, restrictions ++ (key ∷ []))
          else (if w.literal_value_pending
              then (stored, restrictions)
              else (w.builder, restrictions)))

  -- The custom values of the subtype field.
  unfoldable pub insert_sub_types : Detail → Value → Builder → Builder
  insert_sub_types detail axis b = elim detail.sub_type_field [
    | none ↦ b
    | some f ↦
        let inserted =
          insert_custom_values number axis detail.definition_name f.name (detail.field_value f.name)
            f.allowable_values b in
        if f.permits_custom_values then inserted else b
  ]

  unfoldable pub insert_detail_field :
      Value
      → Detail
      → Field
      → Variant
      → List (List Text × Text)
      → List (List Text × Value)
      → Builder
      → List Restriction
      → Builder × List Restriction × List (List Text × Value)
  unfolding walk_chain insert_last insert_sub_types insert_computed first_is_read_only
  insert_detail_field subject detail field value types cache b restrictions =
      let start : Walk = record {
        builder = b;
        object_cache = cache;
        axis = subject;
        predicate_chain = [];
        literal_value_pending = true;
      } in
      let whole = field.is_without_mapping || not field.has_literal_value in
      let w = walk_chain detail field value types whole field.property_chain start in
      let w' = record w { builder = insert_sub_types detail w.axis w.builder } in
      elim (last_of field.property_chain) [
        | none ↦ (b, restrictions, cache)
        | some last ↦
            let (b1, restrictions') = insert_last detail field value last w' restrictions in
            let b2 = insert_computed w.axis value field.computed_properties b1 in
            let b3 =
              insert_custom_values number w.axis detail.definition_name field.name value
                field.allowable_values b2 in
            if first_is_read_only field.property_chain
            then (b, restrictions, cache)
            else (if field.permits_custom_values then b3 else b2, restrictions', w.object_cache)
      ]

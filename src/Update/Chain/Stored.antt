-- ===== src/Update/Chain/Stored.antt =====
-- src/engine/contactsaverequest.cpp: where the value of a field is stored.
use qtcontacts_tracker.Base.{
  ℕ, true, false, not, ◌||◌, Text, List, [], some, text_eq, ◌≡◌, arith, inl, inr, Bool-cases,
}
use mathlib.Core.Path.{subst}
use qtcontacts_tracker.Update.{Variant, Value, Builder, insert_value, insert_custom_values}
use qtcontacts_tracker.Update.Chain.{
  Property, Field, Detail, Restriction, chain_eq, Walk, link, walk_chain, find_sub_type_predicate,
  last_of, insert_last, insert_computed, insert_sub_types, first_is_read_only, insert_detail_field,
}
use qtcontacts_tracker.Update.Chain.Path.{
  In, IsPath, visited, Extends, Extends-trans, In-append_last, In-Extends, IsPath-Extends,
  insert_value-Extends, walk_chain-IsPath, walk_chain-pending, insert_sub_types-Extends,
  insert_computed-Extends, insert_custom_values-Extends,
}

-- The last property with the predicate of the subtype, if there is one.
abbrev pub chosen : Detail → Property → Property
chosen detail last = record last { iri = find_sub_type_predicate detail last.iri }

module _ (number : ℕ → Text) (cubi_value : Variant → Value)
    (make_resource_iri : Property → Variant → Text) where
  pub insert_last-stores :
      (detail : Detail) (field : Field) (value : Variant) (last : Property) (w : Walk)
      (restrictions : List Restriction)
      → field.is_without_mapping ≡ false
      → last.is_foreign_key ≡ false
      → w.literal_value_pending ≡ true
      → let b =
          (insert_last number cubi_value make_resource_iri detail field value last w
            restrictions).0 in
        Extends w.builder b × In (link (chosen detail last) w.axis (cubi_value value)) b.statements
  unfolding insert_last
  insert_last-stores detail field value last w restrictions mapped plain pending =
      let stored = link (chosen detail last) w.axis (cubi_value value) in
      rw (mapped, plain, pending)
        (
          insert_value-Extends stored.subject stored.predicate stored.object w.builder,
          unfold insert_value in In-append_last stored w.builder.statements,
        )

  -- A literal value of a field is stored: from the subject of the detail the statements lead along
  -- the properties of the field's chain, up to the first read-only one and without the last, to a
  -- node that has the value, under the last property, or the one that the subtype selects. This
  -- holds whatever the cache knows already. The conditions: the field has a mapping, its value is a
  -- literal, and the last property is no foreign key, and the first one not read-only.
  pub insert_detail_field-stores :
      (subject : Value) (detail : Detail) (field : Field) (value : Variant)
      (types : List (List Text × Text)) (cache : List (List Text × Value)) (b : Builder)
      (restrictions : List Restriction) (last : Property)
      → field.is_without_mapping ≡ false
      → field.has_literal_value ≡ true
      → last_of field.property_chain ≡ some last
      → last.is_foreign_key ≡ false
      → first_is_read_only field.property_chain ≡ false
      → let sts =
          (insert_detail_field number cubi_value make_resource_iri subject detail field value types
            cache b restrictions).0.statements in
        (node : Value) × IsPath sts subject (visited false field.property_chain) node
        × In (link (chosen detail last) node (cubi_value value)) sts
  unfolding insert_detail_field
  insert_detail_field-stores subject detail field value types cache b restrictions last mapped
        literal ends plain writable =
      let whole = field.is_without_mapping || not field.has_literal_value in
      let e : whole ≡ false = ground (arith, mapped, literal) in
      let chain = field.property_chain in
      let start : Walk = record {
        builder = b;
        object_cache = cache;
        axis = subject;
        predicate_chain = [];
        literal_value_pending = true;
      } in
      let w =
        walk_chain number cubi_value make_resource_iri detail field value types whole chain start in
      let (_, path) =
        walk_chain-IsPath number cubi_value make_resource_iri detail field value types whole chain
          start in
      let pending : w.literal_value_pending ≡ true = rw e (
        walk_chain-pending number cubi_value make_resource_iri detail field value types chain
          start) in
      let path' =
        subst (λ x. IsPath w.builder.statements subject (visited x chain) w.axis) e path in
      let b1 = insert_sub_types number cubi_value make_resource_iri detail w.axis w.builder in
      let w' = record w { builder = b1 } in
      let stored = link (chosen detail last) w.axis (cubi_value value) in
      let b2 =
        (insert_last number cubi_value make_resource_iri detail field value last w'
          restrictions).0 in
      let last_lem =
        insert_last-stores detail field value last w' restrictions mapped plain pending in
      let b3 =
        insert_computed number cubi_value make_resource_iri w.axis value field.computed_properties
          b2 in
      let b4 =
        insert_custom_values number w.axis detail.definition_name field.name value
          field.allowable_values b3 in
      let e1 =
        insert_sub_types-Extends number cubi_value make_resource_iri detail w.axis w.builder in
      let e3 =
        insert_computed-Extends number cubi_value make_resource_iri w.axis value
          field.computed_properties b2 in
      let e4 =
        insert_custom_values-Extends number cubi_value make_resource_iri w.axis
          detail.definition_name field.name value field.allowable_values b3 in
      let to3 = Extends-trans w.builder b1 b3 e1 (Extends-trans b1 b2 b3 last_lem.0 e3) in
      let at3 = In-Extends stored b2 b3 e3 last_lem.1 in
      rw (ends, insert_detail_field)
        (rw writable (elim (Bool-cases field.permits_custom_values) [
          | inr n ↦ rw n (
            w.axis,
            IsPath-Extends w.builder b3 subject (visited false chain) w.axis to3 path',
            at3,
          )
          | inl y ↦ rw y (
            w.axis,
            IsPath-Extends w.builder b4 subject (visited false chain) w.axis
                (Extends-trans w.builder b3 b4 to3 e4) path',
            In-Extends stored b3 b4 e4 at3,
          )
        ]))

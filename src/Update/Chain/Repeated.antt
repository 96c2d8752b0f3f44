-- ===== src/Update/Chain/Repeated.antt =====
-- src/engine/contactsaverequest.cpp: a field that is stored for two contexts of its detail.
use qtcontacts_tracker.Base.{
  ℕ, true, false, not, ◌||◌, Text, List, [], ◌∷◌, some, text_eq, lookup, ◌≡◌, refl, ap, ◌∙◌, arith,
  inl, inr, Bool-cases,
}
use mathlib.Core.Path.{subst}
use qtcontacts_tracker.Update.{Variant, Value, Builder, insert_custom_values}
use qtcontacts_tracker.Update.Chain.{
  Property, Field, Detail, Restriction, chain_eq, Walk, link, walk_chain, last_of, insert_last,
  insert_computed, insert_sub_types, first_is_read_only, insert_detail_field,
}
use qtcontacts_tracker.Update.Chain.Path.{
  In, In-Extends, insert_computed-Extends, insert_custom_values-Extends,
}
use qtcontacts_tracker.Update.Chain.Stored.{chosen, insert_last-stores}
use qtcontacts_tracker.Update.Chain.Walked.{iris, AreWritable, walked, walked-cached, walked-new}

module _ (number : ℕ → Text) (cubi_value : Variant → Value)
    (make_resource_iri : Property → Variant → Text) (detail : Detail) (field : Field)
    (value : Variant) (types : List (List Text × Text)) (p : Property) (rest : List Property)
    (last : Property) (mapped : field.is_without_mapping ≡ false)
    (resourceful : field.has_literal_value ≡ false) (chain : field.property_chain ≡ p ∷ rest)
    (ends : last_of (p ∷ rest) ≡ some last) (plain : last.is_foreign_key ≡ false)
    (writable : AreWritable (p ∷ rest)) where
  abbrev start : Value → List (List Text × Value) → Builder → Walk
  start subject cache b = record {
    builder = b;
    object_cache = cache;
    axis = subject;
    predicate_chain = [];
    literal_value_pending = true;
  }

  -- The loop of `insertDetailField`.
  loop : Value → List (List Text × Value) → Builder → Walk
  loop subject cache b =
      walk_chain number cubi_value make_resource_iri detail field value types
        (field.is_without_mapping || not field.has_literal_value) field.property_chain
        (start subject cache b)

  whole_walk : Value → List (List Text × Value) → Builder → Walk
  whole_walk subject cache b =
      walked number cubi_value make_resource_iri detail field value types (p ∷ rest)
        (start subject cache b)

  loop-whole_walk :
      (subject : Value) (cache : List (List Text × Value)) (b : Builder)
      → loop subject cache b ≡ whole_walk subject cache b
  unfolding loop whole_walk
  loop-whole_walk subject cache b =
      let whole : (field.is_without_mapping || not field.has_literal_value) ≡ true =
        ground (arith, mapped, resourceful) in
      ap
        (λ x.
          walk_chain number cubi_value make_resource_iri detail field value types x
            field.property_chain (start subject cache b))
        whole
      ∙ ap
          (λ c.
            walk_chain number cubi_value make_resource_iri detail field value types true c
              (start subject cache b))
          chain

  last_of-chain : last_of field.property_chain ≡ some last
  last_of-chain = ap last_of chain ∙ ends

  not_read_only : first_is_read_only field.property_chain ≡ false
  unfolding first_is_read_only
  not_read_only = ap first_is_read_only chain ∙ writable.0

  -- After the first context the cache knows the value itself as the object of the chain.
  insert_detail_field-caches :
      (subject : Value) (b : Builder) (restrictions : List Restriction)
      → let (_, _, cache) =
          insert_detail_field number cubi_value make_resource_iri subject detail field value types
            [] b restrictions in
        lookup (iris (p ∷ rest)) cache ≡ some (cubi_value value)
  unfolding insert_detail_field loop whole_walk lookup
  insert_detail_field-caches subject b restrictions =
      let known =
        ap (λ w. lookup (iris (p ∷ rest)) w.object_cache) (loop-whole_walk subject [] b)
        ∙ walked-new number cubi_value make_resource_iri detail field value types p rest
            (start subject [] b) mapped writable refl in
      rw (last_of-chain, insert_detail_field) (rw not_read_only known)

  -- In the second context the value is inserted once more, with itself as the subject.
  insert_detail_field-again :
      (subject v : Value) (cache : List (List Text × Value)) (b : Builder)
      (restrictions : List Restriction)
      → lookup (iris (p ∷ rest)) cache ≡ some v
      → In
          (link (chosen detail last) v (cubi_value value))
          (insert_detail_field number cubi_value make_resource_iri subject detail field value types
            cache b restrictions).0.statements
  unfolding insert_detail_field loop whole_walk
  insert_detail_field-again subject v cache b restrictions h =
      let w = loop subject cache b in
      let eq = loop-whole_walk subject cache b in
      let (axis, pending) =
        walked-cached number cubi_value make_resource_iri detail field value types p rest
          (start subject cache b) v writable h in
      let axis' : w.axis ≡ v = ap (λ x. x.axis) eq ∙ axis in
      let pending' : w.literal_value_pending ≡ true =
        ap (λ x. x.literal_value_pending) eq ∙ pending in
      let b1 = insert_sub_types number cubi_value make_resource_iri detail w.axis w.builder in
      let w' = record w { builder = b1 } in
      let b2 =
        (insert_last number cubi_value make_resource_iri detail field value last w'
          restrictions).0 in
      let (_, here) =
        insert_last-stores number cubi_value make_resource_iri detail field value last w'
          restrictions mapped plain pending' in
      let here' =
        subst (λ x. In (link (chosen detail last) x (cubi_value value)) b2.statements) axis' here in
      let stored = link (chosen detail last) v (cubi_value value) in
      let b3 =
        insert_computed number cubi_value make_resource_iri w.axis value field.computed_properties
          b2 in
      let b4 =
        insert_custom_values number w.axis detail.definition_name field.name value
          field.allowable_values b3 in
      let e3 =
        insert_computed-Extends number cubi_value make_resource_iri w.axis value
          field.computed_properties b2 in
      let e4 =
        insert_custom_values-Extends number cubi_value make_resource_iri w.axis
          detail.definition_name field.name value field.allowable_values b3 in
      let at3 = In-Extends stored b2 b3 e3 here' in
      rw (last_of-chain, insert_detail_field)
        (rw not_read_only (elim (Bool-cases field.permits_custom_values) [
          | inr n ↦ rw n at3
          | inl y ↦ rw y (In-Extends stored b3 b4 e4 at3)
        ]))

  -- A field whose value is no literal is stored wrongly for the second context of its detail: besides
  -- the statement about the second context, there is one whose subject is the value itself, and
  -- whose object is the value, too. The properties of the chain are not read-only, the last one is
  -- no foreign key, and the field has a mapping.
  pub insert_detail_field-repeats :
      (first second : Value) (b : Builder) (restrictions : List Restriction)
      → let (b1, restrictions1, cache) =
          insert_detail_field number cubi_value make_resource_iri first detail field value types []
            b restrictions in
        In
          (link (chosen detail last) (cubi_value value) (cubi_value value))
          (insert_detail_field number cubi_value make_resource_iri second detail field value types
            cache b1 restrictions1).0.statements
  insert_detail_field-repeats first second b restrictions =
      let (b1, restrictions1, cache) =
        insert_detail_field number cubi_value make_resource_iri first detail field value types [] b
          restrictions in
      insert_detail_field-again second (cubi_value value) cache b1 restrictions1
        (insert_detail_field-caches first b restrictions)

-- ===== src/Update/Chain/Path.antt =====
-- src/engine/contactsaverequest.cpp: the path of statements from a contact to the value of a field.
use qtcontacts_tracker.Base.{
  ℕ, Bool, false, not, ◌&&◌, ◌||◌, if◌then◌else◌, Text, List, [], ◌∷◌, ◌++◌, Option, is_empty,
  text_eq, lookup, ◌≡◌, ◌⊎◌, refl, sym, ap, ◌∙◌, arith, inl, inr, Bool-cases, Option-cases,
}
use mathlib.Core.List.{append_assoc, append-nil}
use qtcontacts_tracker.Update.{
  Leaf, Variant, Value, resource, Predicate, rdf_type, Pattern, Builder, insert_value,
  insert_custom_values, insert_properties, insert_property, make_unique_name, blank, joined_name,
  custom_values,
}
use qtcontacts_tracker.Update.Reading.{added, insert_property-statements}
use qtcontacts_tracker.Update.Chain.{
  Property, Field, Detail, chain_eq, Walk, link, insert_pattern, types_at, insert_types,
  make_object, find_object, has_types, walk_chain, insert_computed, insert_sub_types,
}

abbrev pub In : Pattern → List Pattern → Type 0
In p [] = ⊥
In p (q ∷ qs) = (p ≡ q) ⊎ In p qs

-- The statements lead from a node to another one along properties.
abbrev pub IsPath : List Pattern → Value → List Property → Value → Type 0
IsPath statements node [] end = node ≡ end
IsPath statements node (p ∷ ps) end =
    (object : Value) × In (link p node object) statements × IsPath statements object ps end

-- The properties that the loop visits.
unfoldable pub visited : Bool → List Property → List Property
visited whole [] = []
visited whole (p ∷ rest) =
    let more = visited whole rest in
    if (not whole && is_empty rest) || p.is_read_only then [] else p ∷ more

-- Statements are only added.
unfoldable pub Extends : Builder → Builder → Type 0
Extends b b' = (qs : List Pattern) × (b'.statements ≡ b.statements ++ qs)

pub Extends-refl : (b : Builder) → Extends b b
unfolding Extends
Extends-refl b = ([], sym (append-nil b.statements))

pub Extends-trans : (a b c : Builder) → Extends a b → Extends b c → Extends a c
unfolding Extends
Extends-trans a b c (ps, e) (qs, f) =
    (ps ++ qs, f ∙ ap (λ l. l ++ qs) e ∙ append_assoc a.statements ps qs)

In-append : (p : Pattern) (ps qs : List Pattern) → In p ps → In p (ps ++ qs)
In-append p [] qs h = absurd h
In-append p (x ∷ ps) qs (inl e) = inl e
In-append p (x ∷ ps) qs (inr h) = inr (In-append p ps qs h)

pub In-append_last : (p : Pattern) (ps : List Pattern) → In p (ps ++ (p ∷ []))
In-append_last p [] = inl refl
In-append_last p (x ∷ ps) = inr (In-append_last p ps)

pub In-Extends :
    (p : Pattern) (b b' : Builder) → Extends b b' → In p b.statements → In p b'.statements
unfolding Extends
In-Extends p b b' (qs, e) h = rw e (In-append p b.statements qs h)

pub IsPath-Extends :
    (b b' : Builder) (v : Value) (ps : List Property) (w : Value)
    → Extends b b'
    → IsPath b.statements v ps w
    → IsPath b'.statements v ps w
IsPath-Extends b b' v [] w x h = h
IsPath-Extends b b' v (p ∷ ps) w x (o, i, h) =
    (o, In-Extends (link p v o) b b' x i, IsPath-Extends b b' o ps w x h)

IsPath-append :
    (sts : List Pattern) (v w : Value) (ps : List Property) (p : Property) (o : Value)
    → IsPath sts v ps w
    → In (link p w o) sts
    → IsPath sts v (ps ++ (p ∷ [])) o
IsPath-append sts v w [] p o e h = (o, rw e h, refl)
IsPath-append sts v w (q ∷ ps) p o (x, i, t) h = (x, i, IsPath-append sts x w ps p o t h)

pub insert_value-Extends :
    (s : Value) (p : Predicate) (o : Value) (b : Builder) → Extends b (insert_value s p o b)
unfolding Extends insert_value
insert_value-Extends s p o b = (record { subject = s; predicate = p; object = o } ∷ [], refl)

insert_types-Extends :
    (v : Value) (iris : List Text) (b : Builder) → Extends b (insert_types v iris b)
unfolding insert_types
insert_types-Extends v [] b = Extends-refl b
insert_types-Extends v (iri ∷ iris) b =
    let b' = insert_value v rdf_type (resource iri) b in
    Extends-trans b b' (insert_types v iris b') (insert_value-Extends v rdf_type (resource iri) b)
      (insert_types-Extends v iris b')

same-Extends : (b b' : Builder) → b'.statements ≡ b.statements → Extends b b'
unfolding Extends
same-Extends b b' e = ([], e ∙ sym (append-nil b.statements))

module _ (number : ℕ → Text) (cubi_value : Variant → Value)
    (make_resource_iri : Property → Variant → Text) where
  make_object-statements :
      (detail : Detail) (field : Field) (value : Variant) (rest : List Property) (b : Builder)
      → (make_object number cubi_value make_resource_iri detail field value rest b).2.statements
        ≡ b.statements
  unfolding make_object make_unique_name
  make_object-statements detail field value rest b = ground arith

  find_object-Extends :
      (detail : Detail) (field : Field) (value : Variant) (types : List (List Text × Text))
      (p : Property) (rest : List Property) (w : Walk)
      → Extends w.builder
          (find_object number cubi_value make_resource_iri detail field value types p rest
            w).1.builder
  unfolding find_object
  find_object-Extends detail field value types p rest w =
      let chain = w.predicate_chain ++ (p.iri ∷ []) in
      let (object, _, b) =
        make_object number cubi_value make_resource_iri detail field value rest w.builder in
      let same : Extends w.builder b =
        same-Extends w.builder b (make_object-statements detail field value rest w.builder) in
      elim (Option-cases (lookup chain w.object_cache)) [
        | inr (o, e) ↦ rw (e, find_object) (Extends-refl w.builder)
        | inl n ↦
            rw (n, find_object)
              (elim (Bool-cases (has_types rest)) [
                | inl y ↦ rw y (
                    Extends-trans w.builder b (insert_types object (types_at chain types) b) same
                      (insert_types-Extends object (types_at chain types) b))
                | inr y ↦ rw y same
              ])
      ]

  -- What the loop over the chain does to a walk that began at a node.
  pub walk_chain-IsPath :
      (detail : Detail) (field : Field) (value : Variant) (types : List (List Text × Text))
      (whole : Bool) (ps : List Property) (w : Walk)
      → let w' =
          walk_chain number cubi_value make_resource_iri detail field value types whole ps w in
        Extends w.builder w'.builder
        × IsPath w'.builder.statements w.axis (visited whole ps) w'.axis
  unfolding walk_chain visited
  walk_chain-IsPath detail field value types whole [] w = (Extends-refl w.builder, refl)
  walk_chain-IsPath detail field value types whole (p ∷ rest) w =
      elim (Bool-cases ((not whole && is_empty rest) || p.is_read_only)) [
        | inl stop ↦ rw (stop, walk_chain) (Extends-refl w.builder, refl)
        | inr on ↦
            let (object, w1) =
              find_object number cubi_value make_resource_iri detail field value types p rest w in
            let b2 = insert_pattern (link p w.axis object) w1.builder in
            let w2 = record w1 { builder = b2; axis = object } in
            let (more, path) = walk_chain-IsPath detail field value types whole rest w2 in
            let found = find_object-Extends detail field value types p rest w in
            let inserted =
              insert_value-Extends (link p w.axis object).subject (link p w.axis object).predicate
                (link p w.axis object).object w1.builder in
            let here : In (link p w.axis object) b2.statements =
              unfold insert_value in In-append_last (link p w.axis object) w1.builder.statements in
            let end =
              (walk_chain number cubi_value make_resource_iri detail field value types whole rest
                w2).builder in
            rw (on, walk_chain)
              (
                Extends-trans w.builder w1.builder end found
                    (Extends-trans w1.builder b2 end inserted more),
                (object, In-Extends (link p w.axis object) b2 end more here, path),
              )
      ]

  pub find_object-pending :
      (detail : Detail) (field : Field) (value : Variant) (types : List (List Text × Text))
      (p q : Property) (qs : List Property) (w : Walk)
      → (find_object number cubi_value make_resource_iri detail field value types p
          (q ∷ qs)
          w).1.literal_value_pending
        ≡ w.literal_value_pending
  unfolding find_object make_object make_unique_name
  find_object-pending detail field value types p q qs w = ground arith

  -- The loop that stops before the last property does not store the value.
  pub walk_chain-pending :
      (detail : Detail) (field : Field) (value : Variant) (types : List (List Text × Text))
      (ps : List Property) (w : Walk)
      → (walk_chain number cubi_value make_resource_iri detail field value types false ps
          w).literal_value_pending
        ≡ w.literal_value_pending
  unfolding walk_chain
  walk_chain-pending detail field value types [] w = refl
  walk_chain-pending detail field value types (p ∷ []) w = refl
  walk_chain-pending detail field value types (p ∷ q ∷ qs) w = elim (Bool-cases p.is_read_only) [
    | inl stop ↦ rw (stop, walk_chain) refl
    | inr on ↦
        let (object, w1) =
          find_object number cubi_value make_resource_iri detail field value types p (q ∷ qs) w in
        let w2 = record w1 {
          builder = insert_pattern (link p w.axis object) w1.builder;
          axis = object;
        } in
        rw (on, walk_chain)
          (walk_chain-pending detail field value types (q ∷ qs) w2
            ∙ find_object-pending detail field value types p q qs w)
  ]

  insert_properties-Extends :
      (s : Value) (detail field : Text) (xs : List Leaf) (b : Builder)
      → Extends b (insert_properties number s detail field xs b)
  unfolding insert_properties Extends
  insert_properties-Extends s detail field [] b = Extends-refl b
  insert_properties-Extends s detail field (x ∷ xs) b =
      let b' = insert_property number s detail field x b in
      Extends-trans b b' (insert_properties number s detail field xs b')
        (
          added s (blank (joined_name detail field ++ number b.variable_counter)) field x,
          insert_property-statements number s detail field x b,
        )
        (insert_properties-Extends s detail field xs b')

  pub insert_custom_values-Extends :
      (s : Value) (detail field : Text) (value : Variant) (allowable : List Leaf) (b : Builder)
      → Extends b (insert_custom_values number s detail field value allowable b)
  unfolding insert_custom_values
  insert_custom_values-Extends s detail field value allowable b =
      insert_properties-Extends s detail field (custom_values allowable value) b

  pub insert_sub_types-Extends :
      (detail : Detail) (axis : Value) (b : Builder)
      → Extends b (insert_sub_types number cubi_value make_resource_iri detail axis b)
  unfolding insert_sub_types
  insert_sub_types-Extends detail axis b = elim (Option-cases detail.sub_type_field) [
    | inl n ↦ rw (n, insert_sub_types) (Extends-refl b)
    | inr (f, e) ↦
        rw (e, insert_sub_types)
          (elim (Bool-cases f.permits_custom_values) [
            | inl y ↦ rw y (
                insert_custom_values-Extends axis detail.definition_name f.name
                  (detail.field_value f.name) f.allowable_values b)
            | inr y ↦ rw y (Extends-refl b)
          ])
  ]

  pub insert_computed-Extends :
      (axis : Value) (value : Variant) (ps : List (Text × (Variant → Option Variant))) (b : Builder)
      → Extends b (insert_computed number cubi_value make_resource_iri axis value ps b)
  unfolding insert_computed
  insert_computed-Extends axis value [] b = Extends-refl b
  insert_computed-Extends axis value ((iri, convert) ∷ rest) b =
      elim (Option-cases (convert value)) [
        | inl n ↦ rw (n, insert_computed) (insert_computed-Extends axis value rest b)
        | inr (v, e) ↦
            rw (e, insert_computed)
              (Extends-trans b _ _ (insert_value-Extends axis _ (cubi_value v) b)
                (insert_computed-Extends axis value rest _))
      ]

-- ===== src/Definition/Changes.antt =====
-- src/engine/engine.cpp: what saving and removing a definition changes, and what a fetch finds.
use qtcontacts_tracker.Base.{
  true, false, ◌&&◌, if◌then◌else◌, Text, same_text, same_text_iff, List, [], ◌∷◌, Option, none,
  some, or_else, nat_eq, text_eq, lookup, insert, remove, lookup-insert, lookup-remove, ◌≡◌, ◌≢◌,
  ◌↔◌, refl, sym, ap, ◌∙◌, arith, inl, inr, Option-cases,
}
use qtcontacts_tracker.Request.{no_error, does_not_exist_error, is_no_error}
use qtcontacts_tracker.Definition.{
  Definition, Definitions, Schema, schema_definitions, Custom, custom_of, detail_definition,
  save_detail_definition, remove_detail_definition, find_definitions, fetch_definitions,
}
use qtcontacts_tracker.Definition.Store.{custom_of-insert, IsFixed}

none-ne-some : {d : Definition} → ◌≢◌ {A = Option Definition} none (some d)
none-ne-some h = cc h

none-ne-schema : {s : Schema} → ◌≢◌ {A = Option Schema} none (some s)
none-ne-schema h = cc h

module _ (schemas : List (Text × Schema)) where
  -- The definition that is seen under a contact type and a name.
  unfoldable pub seen : Text → Text → Custom → Option Definition
  seen type name custom = (detail_definition schemas name type custom).0

  seen-unknown :
      (type name : Text) (custom : Custom)
      → lookup type schemas ≡ none
      → seen type name custom ≡ none
  unfolding seen detail_definition
  seen-unknown type name custom n = rw (n, seen, detail_definition) refl

  seen-known :
      (type name : Text) (custom : Custom) (schema : Schema)
      → lookup type schemas ≡ some schema
      → seen type name custom
        ≡ or_else (lookup name (schema_definitions schema)) (lookup name (custom_of type custom))
  unfolding seen detail_definition
  seen-known type name custom schema e =
      rw (e, seen, detail_definition)
        (elim (Option-cases (lookup name (schema_definitions schema))) [
          | inr (d, k) ↦ rw k refl
          | inl k ↦ elim (Option-cases (lookup name (custom_of type custom))) [
            | inl l ↦ rw (k, l) refl
            | inr (d, l) ↦ rw (k, l) refl
          ]
        ])

  unequal :
      (type t : Text) (schema : Schema)
      → lookup type schemas ≡ some schema
      → lookup t schemas ≡ none
      → same_text type t ≡ false
  unequal type t schema e n = ground (arith, same_text_iff type t)

  -- A list of custom definitions of one contact type is replaced by one that differs in one name.
  seen-insert :
      (type name : Text) (ds : Definitions) (o : Option Definition) (custom : Custom)
      (schema : Schema)
      → lookup type schemas ≡ some schema
      → lookup name (schema_definitions schema) ≡ none
      → ((n : Text)
          → lookup n ds ≡ (if same_text name n then o else lookup n (custom_of type custom)))
      → (t n : Text)
      → seen t n (insert type ds custom)
        ≡ (if same_text type t && same_text name n then o else seen t n custom)
  seen-insert type name ds o custom schema e free changed t n =
      elim (Option-cases (lookup t schemas)) [
        | inl none_known ↦
            let other : same_text type t ≡ false = unequal type t schema e none_known in
            rw
              (
                seen-unknown t n (insert type ds custom) none_known,
                seen-unknown t n custom none_known,
                other,
              )
              refl
        | inr (schema', e') ↦
            rw (seen-known t n (insert type ds custom) schema' e', seen-known t n custom schema' e')
              (ground (
                arith,
                custom_of-insert t type ds custom,
                same_text_iff type t,
                same_text_iff name n,
                changed n,
                e,
                e',
                free,
                Option-cases (lookup n (schema_definitions schema')),
              ))
      ]

  -- A known contact type without a fixed definition of the name.
  unfoldable pub IsFree : Text → Text → Type 0
  IsFree name type =
      (schema : Schema) × (lookup type schemas ≡ some schema)
      × (lookup name (schema_definitions schema) ≡ none)

  known-IsFree :
      (name type : Text) (schema : Schema)
      → lookup type schemas ≡ some schema
      → lookup name (schema_definitions schema) ≡ none
      → IsFree name type
  unfolding IsFree
  known-IsFree name type schema e free = (schema, e, free)

  unknown-not-IsFree : (name type : Text) → lookup type schemas ≡ none → ¬ IsFree name type
  unfolding IsFree
  unknown-not-IsFree name type k (schema, e, free) = none-ne-schema (sym k ∙ e)

  fixed-not-IsFree :
      (name type : Text) (schema : Schema) (f : Definition)
      → lookup type schemas ≡ some schema
      → lookup name (schema_definitions schema) ≡ some f
      → ¬ IsFree name type
  unfolding IsFree
  fixed-not-IsFree name type schema f e g (schema', e', free) =
      let same : schema ≡ schema' = cc (e, e') in
      none-ne-some (sym free ∙ ap (λ s. lookup name (schema_definitions s)) (sym same) ∙ g)

  -- Saving a definition succeeds, without an error, exactly if its contact type is known and has no
  -- fixed definition of its name. If it succeeds, the definition is seen from then on under its
  -- contact type and name; whatever is seen elsewhere stays, and all of it does if it fails.
  pub save_detail_definition_lem :
      (d : Definition) (type : Text) (custom : Custom) (t n : Text)
      → let (custom', success, error) = save_detail_definition schemas d type custom in
        ((success ≡ true) ↔ IsFree d.name type)
        × (success ≡ is_no_error error)
        × (seen t n custom' ≡ (
            if success && (same_text type t && same_text d.name n)
            then some d
            else seen t n custom))
  unfolding save_detail_definition
  save_detail_definition_lem d type custom t n = elim (Option-cases (lookup type schemas)) [
    | inl k ↦
        rw (k, save_detail_definition)
          ((λ h. cc h, λ free. absurd (unknown-not-IsFree d.name type k free)), refl, refl)
    | inr (schema, e) ↦ elim (Option-cases (lookup d.name (schema_definitions schema))) [
      | inr (f, g) ↦
          rw (e, g, save_detail_definition)
            (
              (λ h. cc h, λ free. absurd (fixed-not-IsFree d.name type schema f e g free)),
              refl,
              refl,
            )
      | inl free ↦
          rw (e, free, save_detail_definition)
            (
              (λ h. known-IsFree d.name type schema e free, λ h. refl),
              refl,
              seen-insert type d.name (insert d.name d (custom_of type custom)) (some d) custom
                  schema e free (λ m. lookup-insert d.name m d (custom_of type custom)) t n,
            )
    ]
  ]

  -- Removing a definition that is none of the fixed ones of a known contact type returns success, and
  -- the definition is not seen any more; but there is an error, `DoesNotExistError`, exactly if none
  -- was seen before. In all other cases it fails, and what is seen stays.
  pub remove_detail_definition_lem :
      (name type : Text) (custom : Custom) (t n : Text)
      → let (custom', success, error) = remove_detail_definition schemas name type custom in
        (success ≡ true
          → (is_no_error error ≡ (elim (seen type name custom) [ none ↦ false | some d ↦ true ]))
            × (is_no_error error ≡ false → error ≡ does_not_exist_error))
        × (seen t n custom'
            ≡ (if success && (same_text type t && same_text name n) then none else seen t n custom))
  unfolding remove_detail_definition
  remove_detail_definition_lem name type custom t n = elim (Option-cases (lookup type schemas)) [
    | inl k ↦ rw (k, remove_detail_definition) (λ h. cc h, refl)
    | inr (schema, e) ↦ elim (Option-cases (lookup name (schema_definitions schema))) [
      | inr (f, g) ↦ rw (e, g, remove_detail_definition) (λ h. cc h, refl)
      | inl free ↦ elim (Option-cases (lookup name (custom_of type custom))) [
        | inl k ↦
            let v : seen type name custom ≡ none =
              seen-known type name custom schema e ∙ rw (free, k) refl in
            rw (e, free, k, remove_detail_definition)
              (
                λ h. (rw v refl, λ b. refl),
                ground (arith, v, same_text_iff type t, same_text_iff name n),
              )
        | inr (d, k) ↦
            let v : seen type name custom ≡ some d =
              seen-known type name custom schema e ∙ rw (free, k) refl in
            rw (e, free, k, remove_detail_definition)
              (
                λ h. (rw v refl, λ b. cc b),
                seen-insert type name (remove name (custom_of type custom)) none custom schema e
                    free (λ m. lookup-remove name m (custom_of type custom)) t n,
              )
      ]
    ]
  ]

  -- A fetch request does not find custom definitions: one that `detailDefinition` gives without an
  -- error, and that is no fixed one, is reported by the request as `DoesNotExistError`.
  pub fetch_definitions-custom :
      (name type : Text) (custom : Custom) (d : Definition)
      → detail_definition schemas name type custom ≡ (some d, no_error)
      → ¬ IsFixed schemas type name d
      → let f = fetch_definitions schemas type (name ∷ []) in
        (f.last_error ≡ does_not_exist_error) × (f.definitions ≡ [])
  unfolding fetch_definitions find_definitions seen
  fetch_definitions-custom name type custom d found free =
      elim (Option-cases (lookup type schemas)) [
        | inl k ↦
            absurd (none-ne-some (sym (seen-unknown type name custom k) ∙ ap (λ p. p.0) found))
        | inr (schema, e) ↦ elim (Option-cases (lookup name (schema_definitions schema))) [
          | inl k ↦ rw (e, fetch_definitions) (rw (k, find_definitions) (refl, refl))
          | inr (f, k) ↦
              let same : f ≡ d =
                cc (seen-known type name custom schema e, k, ap (λ p. p.0) found) in
              absurd (free (schema, e, k ∙ ap some same))
        ]
      ]

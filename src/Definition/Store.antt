-- ===== src/Definition/Store.antt =====
-- src/engine/engine.cpp: the store of custom definitions, next to the fixed ones of the schemas.
use qtcontacts_tracker.Base.{
  if◌then◌else◌, Text, same_text, same_text_iff, List, [], ◌∷◌, Option, none, some, or_else, nat_eq,
  text_eq, lookup, insert, remove, lookup-insert, lookup-remove, ◌≡◌, refl, ◌∙◌, arith, inl, inr,
  Bool-cases, Option-cases,
}
use qtcontacts_tracker.Request.{Error, no_error, invalid_contact_type_error, does_not_exist_error}
use qtcontacts_tracker.Definition.{
  Definition, Definitions, Schema, schema_definitions, Custom, custom_of, add_custom,
  detail_definitions, detail_definition, save_detail_definition, remove_detail_definition,
}

-- Each name is there once.
abbrev Distinct : Definitions → Type 0
Distinct [] = Unit
Distinct ((k, d) ∷ ds) = (lookup k ds ≡ none) × Distinct ds

insert-Distinct :
    (n : Text) (d : Definition) (ds : Definitions) → Distinct ds → Distinct (insert n d ds)
unfolding insert lookup
insert-Distinct n d [] h = (refl, tt)
insert-Distinct n d ((k, e) ∷ ds) (a, h) = elim (Bool-cases (same_text k n)) [
  | inl y ↦ rw (y, insert) (let same : k ≡ n = (same_text_iff k n).0 y in rw (← same) a, h)
  | inr y ↦
      rw (y, insert)
        (
          ground (arith, lookup-insert n k d ds, same_text_iff n k, same_text_iff k n, a, y),
          insert-Distinct n d ds h,
        )
]

remove-Distinct : (n : Text) (ds : Definitions) → Distinct ds → Distinct (remove n ds)
unfolding remove lookup
remove-Distinct n [] h = tt
remove-Distinct n ((k, e) ∷ ds) (a, h) = elim (Bool-cases (same_text k n)) [
  | inl y ↦ rw (y, remove) (remove-Distinct n ds h)
  | inr y ↦ rw (y, remove) (ground (arith, lookup-remove n k ds, a), remove-Distinct n ds h)
]

lookup-add_custom :
    (n : Text) (ds found : Definitions)
    → Distinct ds
    → lookup n (add_custom ds found) ≡ or_else (lookup n ds) (lookup n found)
unfolding add_custom lookup
lookup-add_custom n [] found h = refl
lookup-add_custom n ((k, d) ∷ ds) found (a, h) =
    lookup-add_custom n ds (insert k d found) h ∙ elim (Bool-cases (same_text k n)) [
      | inl y ↦
          let same : k ≡ n = (same_text_iff k n).0 y in
          ground (arith, lookup-insert k n d found, a, same, y)
      | inr y ↦ ground (arith, lookup-insert k n d found, y)
    ]

pub custom_of-insert :
    (t type : Text) (ds : Definitions) (custom : Custom)
    → custom_of t (insert type ds custom) ≡ (if same_text type t then ds else custom_of t custom)
custom_of-insert t type ds custom = ground (arith, lookup-insert type t ds custom)

-- The definition of a name, by a list of all of them.
abbrev pub by_name : Text → Definitions × Error → Option Definition × Error
by_name name (ds, error) = elim (lookup name ds) [
  | some d ↦ (some d, no_error)
  | none ↦ (none, elim error [ no_error ↦ does_not_exist_error | e ↦ e ])
]

module _ (schemas : List (Text × Schema)) where
  -- A fixed definition of a contact type.
  abbrev pub IsFixed : Text → Text → Definition → Type 0
  IsFixed type name d =
      (schema : Schema) × (lookup type schemas ≡ some schema)
      × (lookup name (schema_definitions schema) ≡ some d)

  -- No custom definition has the name of a fixed one.
  record IsStore (custom : Custom) : Type 0 where
    distinct : (type : Text) → Distinct (custom_of type custom)
    apart :
        (type name : Text) (d : Definition)
        → IsFixed type name d
        → lookup name (custom_of type custom) ≡ none

  init-IsStore : IsStore []
  unfolding lookup
  init-IsStore = record { distinct = λ type. tt; apart = λ type name d h. refl }

  -- A replaced list of custom definitions.
  insert-IsStore :
      (type : Text) (ds : Definitions) (custom : Custom)
      → IsStore custom
      → Distinct ds
      → ((name : Text) (d : Definition) → IsFixed type name d → lookup name ds ≡ none)
      → IsStore (insert type ds custom)
  insert-IsStore type ds custom s h apart = record {
    distinct = λ t.
        rw (custom_of-insert t type ds custom)
          (elim (Bool-cases (same_text type t)) [ inl y ↦ rw y h | inr y ↦ rw y (s.distinct t) ]);
    apart = λ t name d fixed.
        rw (custom_of-insert t type ds custom) (elim (Bool-cases (same_text type t)) [
          | inl y ↦
              let same : type ≡ t = (same_text_iff type t).0 y in
              rw y (apart name d (rw same fixed))
          | inr y ↦ rw y (s.apart t name d fixed)
        ]);
  }

  save-IsStore :
      (d : Definition) (type : Text) (custom : Custom)
      → IsStore custom
      → IsStore (save_detail_definition schemas d type custom).0
  unfolding save_detail_definition
  save-IsStore d type custom s = elim (Option-cases (lookup type schemas)) [
    | inl n ↦ rw (n, save_detail_definition) s
    | inr (schema, e) ↦ elim (Option-cases (lookup d.name (schema_definitions schema))) [
      | inr (f, g) ↦ rw (e, g, save_detail_definition) s
      | inl free ↦
          rw (e, free, save_detail_definition)
            (insert-IsStore type (insert d.name d (custom_of type custom)) custom s
              (insert-Distinct d.name d (custom_of type custom) (s.distinct type))
              (λ name f (schema', e', g). ground (
                arith,
                lookup-insert d.name name d (custom_of type custom),
                same_text_iff d.name name,
                s.apart type name f (schema', e', g),
                e,
                e',
                g,
                free,
              )))
    ]
  ]

  remove-IsStore :
      (name type : Text) (custom : Custom)
      → IsStore custom
      → IsStore (remove_detail_definition schemas name type custom).0
  unfolding remove_detail_definition
  remove-IsStore name type custom s = elim (Option-cases (lookup type schemas)) [
    | inl n ↦ rw (n, remove_detail_definition) s
    | inr (schema, e) ↦ elim (Option-cases (lookup name (schema_definitions schema))) [
      | inr (f, g) ↦ rw (e, g, remove_detail_definition) s
      | inl free ↦ elim (Option-cases (lookup name (custom_of type custom))) [
        | inl n ↦ rw (e, free, n, remove_detail_definition) s
        | inr (d, k) ↦
            rw (e, free, k, remove_detail_definition)
              (insert-IsStore type (remove name (custom_of type custom)) custom s
                (remove-Distinct name (custom_of type custom) (s.distinct type))
                (λ n f fixed.
                  ground
                    (arith, lookup-remove name n (custom_of type custom), s.apart type n f fixed)))
      ]
    ]
  ]

  -- The engine's store after any saves and removals.
  pub data Reach : Custom → Type 0 where
    here : Reach []
    saved :
        {custom : Custom} (d : Definition) (type : Text)
        → Reach custom
        → Reach (save_detail_definition schemas d type custom).0
    removed :
        {custom : Custom} (name type : Text)
        → Reach custom
        → Reach (remove_detail_definition schemas name type custom).0

  Reach-IsStore : {custom : Custom} → Reach custom → IsStore custom
  Reach-IsStore here = init-IsStore
  Reach-IsStore (saved {custom} d type r) = save-IsStore d type custom (Reach-IsStore r)
  Reach-IsStore (removed {custom} name type r) = remove-IsStore name type custom (Reach-IsStore r)

  detail_definitions-unknown :
      (type : Text) (custom : Custom)
      → lookup type schemas ≡ none
      → detail_definitions schemas type custom ≡ ([], invalid_contact_type_error)
  unfolding detail_definitions
  detail_definitions-unknown type custom n = rw (n, detail_definitions)

  detail_definitions-known :
      (type : Text) (custom : Custom) (schema : Schema)
      → lookup type schemas ≡ some schema
      → detail_definitions schemas type custom
        ≡ (add_custom (custom_of type custom) (schema_definitions schema), no_error)
  unfolding detail_definitions
  detail_definitions-known type custom schema e = rw (e, detail_definitions)

  -- After any saves and removals of custom definitions, the definition of a name is the one that the
  -- list of all definitions of the contact type has under this name, if that has one. There is no
  -- error then. Otherwise the error is the list's, or `DoesNotExistError` if it has none.
  pub detail_definition-detail_definitions :
      {custom : Custom} (name type : Text)
      → Reach custom
      → detail_definition schemas name type custom
        ≡ by_name name (detail_definitions schemas type custom)
  unfolding detail_definition lookup
  detail_definition-detail_definitions {custom} name type r =
      let s = Reach-IsStore r in
      elim (Option-cases (lookup type schemas)) [
        | inl n ↦ rw (detail_definitions-unknown type custom n, n, detail_definition) refl
        | inr (schema, e) ↦
            let fixed = schema_definitions schema in
            rw (detail_definitions-known type custom schema e, e, detail_definition)
              (rw (lookup-add_custom name (custom_of type custom) fixed (s.distinct type), by_name)
                (elim (Option-cases (lookup name fixed)) [
                  | inr (d, k) ↦ rw (k, s.apart type name d (schema, e, k)) refl
                  | inl k ↦ elim (Option-cases (lookup name (custom_of type custom))) [
                    | inl l ↦ rw (k, l) refl
                    | inr (d, l) ↦ rw (k, l) refl
                  ]
                ]))
      ]

-- ===== src/Engine/Pruned.antt =====
-- src/engine/engine.cpp: `compatibleContact` without keys.
use qtcontacts_tracker.Base.{
  ℕ, ◌-◌, ◌==◌, ==_iff, false, not, Text, List, [], ◌∷◌, select, All, length, map, ◌≡◌, refl, arith,
  ap, sym, ◌∙◌, Bool-cases, inl, inr,
}
use mathlib.Core.Path.{subst}
use qtcontacts_tracker.Engine.Compatible.{
  Detail, Definition, has_name, details_of, save_detail, can_store, prune_values, prune_details,
  check_fields, compatible_contact,
}
use qtcontacts_tracker.Engine.Unique.{
  OtherKey, Distinct, keep_unique, prune_detail, prune_all, select-All,
  drop_odd_details-keep_unique,
}

module _ (definition : Definition) where
  prune_details-other :
      (rest : List Detail) (d : Detail) (ds : List Detail)
      → All (OtherKey d.key) rest
      → prune_details definition rest (d ∷ ds) ≡ d ∷ prune_details definition rest ds
  unfolding prune_details save_detail
  prune_details-other [] d ds a = refl
  prune_details-other (r ∷ rest) d ds a =
      let differ : (d.key == r.key) ≡ false = ground (arith, a.0) in
      let r' : Detail = record r { values = prune_values definition r.values } in
      rw differ (prune_details-other rest d (save_detail r' ds) a.1)

  save_detail_first :
      (d d' : Detail) (ds : List Detail) → d.key ≡ d'.key → save_detail d' (d ∷ ds) ≡ d' ∷ ds
  unfolding save_detail
  save_detail_first d d' ds e = ground (arith, e, ==_iff d.key d'.key)

  prune_details-map :
      (ds : List Detail)
      → Distinct ds
      → prune_details definition (details_of definition.name ds) ds
        ≡ map (prune_detail definition) ds
  unfolding prune_details
  prune_details-map [] u = refl
  prune_details-map (d ∷ ds) u =
      let name = definition.name in
      let d' : Detail = record d { values = prune_values definition d.values } in
      let others = select-All (OtherKey d.key) (has_name name) ds u.0 in
      elim (Bool-cases (has_name name d)) [
        | inl h ↦ rw h (
            ap (prune_details definition (details_of name ds)) (save_detail_first d d' ds refl)
            ∙ prune_details-other (details_of name ds) d' ds others
            ∙ ap (◌∷◌ d') (prune_details-map ds u.1))
        | inr h ↦ rw h (
            prune_details-other (details_of name ds) d ds others
            ∙ ap (◌∷◌ d) (prune_details-map ds u.1))
      ]

  prune_detail-key : (d : Detail) → (prune_detail definition d).key ≡ d.key
  prune_detail-key d = elim (Bool-cases (has_name definition.name d)) [
    | inl h ↦ rw h refl
    | inr h ↦ rw h refl
  ]

  map-All :
      (key : ℕ) (ds : List Detail)
      → All (OtherKey key) ds
      → All (OtherKey key) (map (prune_detail definition) ds)
  map-All key [] a = tt
  map-All key (d ∷ ds) a = (ap (λ k. k == key) (prune_detail-key d) ∙ a.0, map-All key ds a.1)

  map-Distinct : (ds : List Detail) → Distinct ds → Distinct (map (prune_detail definition) ds)
  map-Distinct [] u = tt
  map-Distinct (d ∷ ds) u = (
    subst (λ k. All (OtherKey k) (map (prune_detail definition) ds)) (sym (prune_detail-key d))
        (map-All d.key ds u.0),
    map-Distinct ds u.1,
  )

check_fields-prune_all :
    (schema : List Definition) (ds : List Detail)
    → Distinct ds
    → check_fields schema ds ≡ prune_all schema ds
unfolding check_fields
check_fields-prune_all [] ds u = refl
check_fields-prune_all (definition ∷ schema) ds u =
    ap (check_fields schema) (prune_details-map definition ds u)
    ∙ check_fields-prune_all schema (map (prune_detail definition) ds)
        (map-Distinct definition ds u)

-- Where every detail has its own key, the removals and replacements by key that make a contact
-- compatible come to this: of each detail that must be unique the first one is kept, and of the
-- values of each detail the first one that cannot be stored is left out; all else stays, in order.
pub compatible_contact-prune_all :
    (schema : List Definition) (ds : List Detail)
    → Distinct ds
    → compatible_contact schema ds ≡ prune_all schema (keep_unique schema ds)
unfolding compatible_contact
compatible_contact-prune_all schema ds u =
    let (e, u') = drop_odd_details-keep_unique schema ds u in
    ap (check_fields schema) e ∙ check_fields-prune_all schema (keep_unique schema ds) u'

-- The values of a detail that cannot be stored.
abbrev pub unfit : Definition → List (Text × Text) → List (Text × Text)
unfit definition values = select (λ v. not (can_store definition v.0 v.1)) values

-- Only one value of a detail is removed: of those that cannot be stored, all but one stay. The
-- values that can be stored all stay.
pub prune_values-unfit :
    (definition : Definition) (values : List (Text × Text))
    → (length (unfit definition (prune_values definition values))
        ≡ length (unfit definition values) - 1)
      × (select (λ v. can_store definition v.0 v.1) (prune_values definition values)
          ≡ select (λ v. can_store definition v.0 v.1) values)
unfolding prune_values
prune_values-unfit definition [] = (omega arith, refl)
prune_values-unfit definition ((field, value) ∷ values) =
    let (l, e) = prune_values-unfit definition values in
    elim (Bool-cases (can_store definition field value)) [
      | inl h ↦ rw h (rw h (l, ap (◌∷◌ (field, value)) e))
      | inr h ↦ rw h (omega arith, refl)
    ]

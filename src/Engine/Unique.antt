-- ===== src/Engine/Unique.antt =====
-- src/engine/engine.cpp: which details of `compatibleContact` are kept.
use qtcontacts_tracker.Base.{
  ℕ, ◌==◌, ==_iff, Bool, false, not, if◌then◌else◌, Text, List, [], ◌∷◌, select, All, map, ◌≡◌,
  refl, arith, ap, ◌∙◌, Bool-cases, inl, inr,
}
use qtcontacts_tracker.Engine.Compatible.{
  Detail, Definition, has_name, details_of, remove_detail, remove_all, odd_details,
  drop_odd_details, prune_values,
}

abbrev pub OtherKey : ℕ → Detail → Type 0
OtherKey key d = (d.key == key) ≡ false

-- Every detail has its own key.
abbrev pub Distinct : List Detail → Type 0
Distinct [] = Unit {0}
Distinct (d ∷ ds) = All (OtherKey d.key) ds × Distinct ds

-- The reference: no keys, and one pass over the details for each definition.
abbrev pub without : Text → List Detail → List Detail
without name ds = select (λ d. not (has_name name d)) ds

abbrev pub keep_first : Text → List Detail → List Detail
keep_first name [] = []
keep_first name (d ∷ ds) = if has_name name d then d ∷ without name ds else d ∷ keep_first name ds

abbrev pub keep_unique : List Definition → List Detail → List Detail
keep_unique [] ds = ds
keep_unique (definition ∷ schema) ds =
    keep_unique schema (if definition.is_unique then keep_first definition.name ds else ds)

abbrev pub prune_detail : Definition → Detail → Detail
prune_detail definition d =
    if has_name definition.name d then record d { values = prune_values definition d.values } else d

abbrev pub prune_all : List Definition → List Detail → List Detail
prune_all [] ds = ds
prune_all (definition ∷ schema) ds = prune_all schema (map (prune_detail definition) ds)

pub select-All :
    (P : Detail → Type 0) (p : Detail → Bool) (ds : List Detail) → All P ds → All P (select p ds)
select-All P p [] a = tt
select-All P p (d ∷ ds) a = elim (Bool-cases (p d)) [
  | inl h ↦ rw h (a.0, select-All P p ds a.1)
  | inr h ↦ rw h (select-All P p ds a.1)
]

-- A detail whose key none of the others has is passed by.
remove_all-other :
    (odds : List Detail) (d : Detail) (ds : List Detail)
    → All (OtherKey d.key) odds
    → remove_all odds (d ∷ ds) ≡ d ∷ remove_all odds ds
unfolding remove_all remove_detail
remove_all-other [] d ds a = refl
remove_all-other (odd ∷ odds) d ds a =
    let differ : (d.key == odd.key) ≡ false = ground (arith, a.0) in
    rw differ (remove_all-other odds d (remove_detail odd.key ds) a.1)

remove_detail_first : (d : Detail) (ds : List Detail) → remove_detail d.key (d ∷ ds) ≡ ds
unfolding remove_detail
remove_detail_first d ds = ground (arith, ==_iff d.key d.key)

remove_all-details_of :
    (name : Text) (ds : List Detail)
    → Distinct ds
    → remove_all (details_of name ds) ds ≡ without name ds
unfolding remove_all remove_detail
remove_all-details_of name [] u = refl
remove_all-details_of name (d ∷ ds) u =
    let others = select-All (OtherKey d.key) (has_name name) ds u.0 in
    elim (Bool-cases (has_name name d)) [
      | inl h ↦ rw h (
          ap (remove_all (details_of name ds)) (remove_detail_first d ds)
          ∙ remove_all-details_of name ds u.1)
      | inr h ↦ rw h (
          remove_all-other (details_of name ds) d ds others
          ∙ ap (◌∷◌ d) (remove_all-details_of name ds u.1))
    ]

remove_all-keep_first :
    (name : Text) (ds : List Detail)
    → Distinct ds
    → remove_all (odd_details (details_of name ds)) ds ≡ keep_first name ds
unfolding remove_all
remove_all-keep_first name [] u = refl
remove_all-keep_first name (d ∷ ds) u =
    let others = select-All (OtherKey d.key) (has_name name) ds u.0 in
    elim (Bool-cases (has_name name d)) [
      | inl h ↦ rw h (
          remove_all-other (details_of name ds) d ds others
          ∙ ap (◌∷◌ d) (remove_all-details_of name ds u.1))
      | inr h ↦ rw h (pass_odds (details_of name ds) others (remove_all-keep_first name ds u.1))
    ]
  where
    pass_odds :
        (odds : List Detail)
        → All (OtherKey d.key) odds
        → remove_all (odd_details odds) ds ≡ keep_first name ds
        → remove_all (odd_details odds) (d ∷ ds) ≡ d ∷ keep_first name ds
    pass_odds [] a e = ap (◌∷◌ d) e
    pass_odds (odd ∷ odds) a e = remove_all-other odds d ds a.1 ∙ ap (◌∷◌ d) e

keep_first-All :
    (P : Detail → Type 0) (name : Text) (ds : List Detail) → All P ds → All P (keep_first name ds)
keep_first-All P name [] a = tt
keep_first-All P name (d ∷ ds) a = elim (Bool-cases (has_name name d)) [
  | inl h ↦ rw h (a.0, select-All P (λ e. not (has_name name e)) ds a.1)
  | inr h ↦ rw h (a.0, keep_first-All P name ds a.1)
]

select-Distinct : (p : Detail → Bool) (ds : List Detail) → Distinct ds → Distinct (select p ds)
select-Distinct p [] u = tt
select-Distinct p (d ∷ ds) u = elim (Bool-cases (p d)) [
  | inl h ↦ rw h (select-All (OtherKey d.key) p ds u.0, select-Distinct p ds u.1)
  | inr h ↦ rw h (select-Distinct p ds u.1)
]

keep_first-Distinct : (name : Text) (ds : List Detail) → Distinct ds → Distinct (keep_first name ds)
keep_first-Distinct name [] u = tt
keep_first-Distinct name (d ∷ ds) u = elim (Bool-cases (has_name name d)) [
  | inl h ↦ rw h (
    select-All (OtherKey d.key) (λ e. not (has_name name e)) ds u.0,
    select-Distinct (λ e. not (has_name name e)) ds u.1,
  )
  | inr h ↦ rw h (keep_first-All (OtherKey d.key) name ds u.0, keep_first-Distinct name ds u.1)
]

pub drop_odd_details-keep_unique :
    (schema : List Definition) (ds : List Detail)
    → Distinct ds
    → (drop_odd_details schema ds ≡ keep_unique schema ds) × Distinct (keep_unique schema ds)
unfolding drop_odd_details
drop_odd_details-keep_unique [] ds u = (refl, u)
drop_odd_details-keep_unique (definition ∷ schema) ds u =
    let name = definition.name in
    elim (Bool-cases definition.is_unique) [
      | inl h ↦
          let (e, u') =
            drop_odd_details-keep_unique schema (keep_first name ds)
              (keep_first-Distinct name ds u) in
          rw h (ap (drop_odd_details schema) (remove_all-keep_first name ds u) ∙ e, u')
      | inr h ↦ rw h (drop_odd_details-keep_unique schema ds u)
    ]

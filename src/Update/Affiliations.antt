-- ===== src/Update/Affiliations.antt =====
-- src/engine/contactsaverequest.cpp: the affiliations of contexts.
use qtcontacts_tracker.Base.{
  ℕ, suc, ◌<◌, if◌then◌else◌, Text, same_text, same_text_iff, text_eq, codes, List, [], ◌∷◌, ◌++◌,
  none, some, lookup, insert, lookup-insert, ◌≡◌, ◌≢◌, ◌⊎◌, All, refl, sym, ◌∙◌, arith, inl, inr,
  Bool-cases, Option-cases,
}
use qtcontacts_tracker.Update.{
  Value, blank, Builder, init, joined_name, make_unique_name, lookup_affiliation,
}
use qtcontacts_tracker.Update.Names.{Numbers, IsStem, unique_names}

abbrev pub affiliation_name : Text → Text
affiliation_name context = joined_name (codes "Affiliation") context

-- The affiliation of a context has a name that was made for it, and a context whose name ends in no
-- digit.
abbrev pub AreNamed : (ℕ → Text) → Builder → Type 0
AreNamed number b =
    (context : Text) (value : Value)
    → lookup context b.affiliations ≡ some value
    → IsStem (affiliation_name context)
      × ((n : ℕ) × (n < b.variable_counter)
          × (value ≡ blank (affiliation_name context ++ number n)))

lookup_affiliation-cases :
    (number : ℕ → Text) (context : Text) (b : Builder)
    → let (value, b') = lookup_affiliation number context b in
      ((lookup context b.affiliations ≡ some value) × (b' ≡ b))
      ⊎ ((lookup context b.affiliations ≡ none)
          × (value ≡ blank (affiliation_name context ++ number b.variable_counter))
          × (b'.affiliations ≡ insert context value b.affiliations)
          × (b'.variable_counter ≡ suc b.variable_counter))
unfolding lookup_affiliation make_unique_name
lookup_affiliation-cases number context b = elim (Option-cases (lookup context b.affiliations)) [
  | inl n ↦ rw (n, lookup_affiliation) (inr (refl, refl, refl, refl))
  | inr (value, e) ↦ rw (e, lookup_affiliation) (inl (refl, refl))
]

joined_name-empty : (c : ℕ) (cs : Text) → affiliation_name [] ≢ affiliation_name (c ∷ cs)
unfolding joined_name
joined_name-empty c cs h = cc h

affiliation_name-inj : (c d : Text) → affiliation_name c ≡ affiliation_name d → c ≡ d
unfolding joined_name
affiliation_name-inj [] [] h = refl
affiliation_name-inj [] (d ∷ ds) h = absurd (joined_name-empty d ds h)
affiliation_name-inj (c ∷ cs) [] h = absurd (joined_name-empty c cs (sym h))
affiliation_name-inj (c ∷ cs) (d ∷ ds) h = cc h

-- The contexts of a list are looked up one after the other.
abbrev pub lookup_all : (ℕ → Text) → List Text → Builder → Builder
lookup_all number [] b = b
lookup_all number (c ∷ cs) b = lookup_all number cs (lookup_affiliation number c b).1

lookup_affiliation-AreNamed :
    (number : ℕ → Text) (context : Text) (b : Builder)
    → IsStem (affiliation_name context)
    → AreNamed number b
    → AreNamed number (lookup_affiliation number context b).1
lookup_affiliation-AreNamed number context b stem named =
    let (value, b') = lookup_affiliation number context b in
    elim (lookup_affiliation-cases number context b) [
      | inl (e, same) ↦ rw same named
      | inr (new, made, affiliations, counter) ↦ λ c v h.
          let found : (if same_text context c then some value else lookup c b.affiliations)
              ≡ some v =
            sym (lookup-insert context c value b.affiliations) ∙ rw (← affiliations) h in
          elim (Bool-cases (same_text context c)) [
            | inl same ↦
                let e : context ≡ c = (same_text_iff context c).0 same in
                let here : value ≡ v = cc (found, same) in
                rw (← e) (stem, (b.variable_counter, omega (arith, counter), sym here ∙ made))
            | inr other ↦
                let (st, (n, lt, eq)) = named c v (rw other at found) in
                (st, (n, omega (arith, lt, counter), eq))
          ]
    ]

insert-keeps :
    (context c : Text) (value v : Value) (m : List (Text × Value))
    → lookup context m ≡ none
    → lookup c m ≡ some v
    → lookup c (insert context value m) ≡ some v
insert-keeps context c value v m new h =
    lookup-insert context c value m ∙ elim (Bool-cases (same_text context c)) [
      | inl same ↦ let e : context ≡ c = (same_text_iff context c).0 same in cc (e, new, h)
      | inr other ↦ rw other h
    ]

lookup_affiliation-keeps :
    (number : ℕ → Text) (context : Text) (b : Builder) (c : Text) (v : Value)
    → lookup c b.affiliations ≡ some v
    → lookup c (lookup_affiliation number context b).1.affiliations ≡ some v
lookup_affiliation-keeps number context b c v h =
    let value = (lookup_affiliation number context b).0 in
    elim (lookup_affiliation-cases number context b) [
      | inl (e, same) ↦ rw same h
      | inr (new, made, affiliations, counter) ↦
          rw affiliations (insert-keeps context c value v b.affiliations new h)
    ]

lookup_all-AreNamed :
    (number : ℕ → Text) (cs : List Text) (b : Builder)
    → All (λ c. IsStem (affiliation_name c)) cs
    → AreNamed number b
    → AreNamed number (lookup_all number cs b)
lookup_all-AreNamed number [] b h named = named
lookup_all-AreNamed number (c ∷ cs) b (st, h) named =
    lookup_all-AreNamed number cs (lookup_affiliation number c b).1 h
      (lookup_affiliation-AreNamed number c b st named)

lookup_all-keeps :
    (number : ℕ → Text) (cs : List Text) (b : Builder) (c : Text) (v : Value)
    → lookup c b.affiliations ≡ some v
    → lookup c (lookup_all number cs b).affiliations ≡ some v
lookup_all-keeps number [] b c v h = h
lookup_all-keeps number (d ∷ cs) b c v h =
    lookup_all-keeps number cs (lookup_affiliation number d b).1 c v
      (lookup_affiliation-keeps number d b c v h)

-- However many contexts are looked up in a new builder, whose names end in no digit, and in
-- whatever order: two of them have the same affiliation only if they are the same context, and a
-- context that has an affiliation keeps it whatever contexts are looked up then.
pub lookup_all-separate :
    {number : ℕ → Text} (numbers : Numbers number) (cs ds : List Text) (c d : Text) (v : Value)
    → All (λ c. IsStem (affiliation_name c)) cs
    → let b = lookup_all number cs init in
      lookup c b.affiliations ≡ some v
      → (lookup d b.affiliations ≡ some v → c ≡ d)
        × (lookup c (lookup_all number ds b).affiliations ≡ some v)
unfolding init lookup
lookup_all-separate {number} numbers cs ds c d v stems h =
    let b = lookup_all number cs init in
    let named = lookup_all-AreNamed number cs init stems (λ c v h. cc h) in
    let (st, (m, _, e)) = named c v h in
    (
      λ k.
          let (st', (n, _, e')) = named d v k in
          affiliation_name-inj c d (unique_names numbers _ _ m n st st' (cc (sym e ∙ e'))).0,
      lookup_all-keeps number ds b c v h,
    )

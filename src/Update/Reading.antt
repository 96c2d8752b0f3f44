-- ===== src/Update/Reading.antt =====
-- src/engine/contactsaverequest.cpp: what the statements of an update say of custom values.
use qtcontacts_tracker.Base.{
  ℕ, ◌≤◌, Bool, true, false, ◌&&◌, if◌then◌else◌, Text, same_text, same_text_iff, codes, List, [],
  ◌∷◌, ◌++◌, All, ◌≡◌, refl, sym, ap, ◌∙◌, arith, inl, inr, Bool-cases,
}
use mathlib.Core.List.{append_assoc, append-nil}
use qtcontacts_tracker.Update.{
  Leaf, text, Value, resource, blank, variable, literal, Predicate, rdf_type, has_property,
  property_name, property_value, Pattern, Builder, insert_value, joined_name, make_unique_name,
  insert_property,
}
use qtcontacts_tracker.Update.Names.{IsStem}

-- A test on the nodes that can be subjects.
abbrev pub same_node : Value → Value → Bool
same_node (resource a) (resource b) = same_text a b
same_node (blank a) (blank b) = same_text a b
same_node (variable a) (variable b) = same_text a b
same_node _ _ = false

abbrev pub is_has_property : Predicate → Bool
is_has_property has_property = true
is_has_property _ = false

abbrev pub is_property_value : Predicate → Bool
is_property_value property_value = true
is_property_value _ = false

-- The values that the statements give to a property.
unfoldable pub values_at : Value → List Pattern → List Value
values_at property [] = []
values_at property (p ∷ ps) =
    let rest = values_at property ps in
    if is_property_value p.predicate && same_node p.subject property then p.object ∷ rest else rest

-- The values of all properties that a list of statements gives to a subject, by what the second
-- list says of the properties.
unfoldable pub read_from : Value → List Pattern → List Pattern → List Value
unfolding values_at
read_from subject [] all = []
read_from subject (p ∷ ps) all =
    let rest = read_from subject ps all in
    if is_has_property p.predicate && same_node p.subject subject
    then values_at p.object all ++ rest
    else rest

unfoldable pub read_values : Value → Builder → List Value
unfolding read_from
read_values subject b = read_from subject b.statements b.statements

module _ (number : ℕ → Text) where
  -- A node that was made before: no blank value that is still to be made.
  abbrev pub IsOld : ℕ → Value → Type 0
  IsOld counter v =
      (base : Text) (n : ℕ)
      → IsStem base
      → counter ≤ n
      → same_node v (blank (base ++ number n)) ≡ false

  -- The statements are about nodes that were made before.
  abbrev pub IsFresh : Builder → Type 0
  IsFresh b =
      All (λ p. IsOld b.variable_counter p.subject × IsOld b.variable_counter p.object) b.statements

pub values_at-append :
    (v : Value) (ps qs : List Pattern) → values_at v (ps ++ qs) ≡ values_at v ps ++ values_at v qs
unfolding values_at
values_at-append v [] qs = refl
values_at-append v (p ∷ ps) qs = ground (arith, values_at-append v ps qs)

pub read_from-append :
    (s : Value) (ps qs all : List Pattern)
    → read_from s (ps ++ qs) all ≡ read_from s ps all ++ read_from s qs all
unfolding read_from
read_from-append s [] qs all = refl
read_from-append s (p ∷ ps) qs all =
    elim (Bool-cases (is_has_property p.predicate && same_node p.subject s)) [
      | inl y ↦
          rw (y, read_from-append s ps qs all)
            (sym (append_assoc (values_at p.object all) (read_from s ps all) (read_from s qs all)))
      | inr n ↦ rw (n, read_from-append s ps qs all) refl
    ]

-- What one turn of the loop adds.
abbrev pub added : Value → Value → Text → Leaf → List Pattern
added s property field x =
    record { subject = s; predicate = rdf_type; object = resource (codes "nie:InformationElement") }
    ∷ record { subject = s; predicate = has_property; object = property }
    ∷ record { subject = property; predicate = rdf_type; object = resource (codes "nao:Property") }
    ∷ record { subject = property; predicate = property_name; object = literal (text field) }
    ∷ record { subject = property; predicate = property_value; object = literal x }
    ∷ []

pub insert_property-statements :
    (number : ℕ → Text) (s : Value) (detail field : Text) (x : Leaf) (b : Builder)
    → (insert_property number s detail field x b).statements
      ≡ b.statements
        ++ added s (blank (joined_name detail field ++ number b.variable_counter)) field x
unfolding insert_property insert_value make_unique_name
insert_property-statements number s detail field x b = simp append_assoc

same_node_comm : (v w : Value) → same_node v w ≡ same_node w v
same_node_comm (resource a) (resource b) = ground (arith, same_text_iff a b, same_text_iff b a)
same_node_comm (resource a) (blank b) = refl
same_node_comm (resource a) (variable y) = refl
same_node_comm (resource a) (literal y) = refl
same_node_comm (blank a) (resource b) = refl
same_node_comm (blank a) (blank b) = ground (arith, same_text_iff a b, same_text_iff b a)
same_node_comm (blank a) (variable y) = refl
same_node_comm (blank a) (literal y) = refl
same_node_comm (variable x) (resource b) = refl
same_node_comm (variable x) (blank b) = refl
same_node_comm (variable x) (variable y) = ground (arith, same_text_iff x y, same_text_iff y x)
same_node_comm (variable x) (literal y) = refl
same_node_comm (literal x) (resource b) = refl
same_node_comm (literal x) (blank b) = refl
same_node_comm (literal x) (variable y) = refl
same_node_comm (literal x) (literal y) = refl

pub values_at-added :
    (w s property : Value) (field : Text) (x : Leaf)
    → values_at w (added s property field x) ≡ (if same_node property w then literal x ∷ [] else [])
unfolding values_at
values_at-added w s property field x = refl

-- No statement is about a node that is still to be made.
pub values_at-new :
    (v : Value) (ps : List Pattern)
    → All (λ p. same_node p.subject v ≡ false) ps
    → values_at v ps ≡ []
unfolding values_at
values_at-new v [] h = refl
values_at-new v (p ∷ ps) (a, h) = ground (arith, a, values_at-new v ps h)

-- Nor does a statement about a new node change what was read before.
pub read_from-old :
    (s t property : Value) (field : Text) (x : Leaf) (ps all : List Pattern)
    → All (λ p. same_node p.object property ≡ false) ps
    → read_from s ps (all ++ added t property field x) ≡ read_from s ps all
unfolding read_from
read_from-old s t property field x [] all h = refl
read_from-old s t property field x (p ∷ ps) all (a, h) =
    let same : values_at p.object (all ++ added t property field x) ≡ values_at p.object all =
      values_at-append p.object all (added t property field x)
      ∙ ap (λ vs. values_at p.object all ++ vs)
          (values_at-added p.object t property field x
            ∙ ap (λ b. if b then literal x ∷ [] else []) (same_node_comm property p.object ∙ a))
      ∙ append-nil (values_at p.object all) in
    rw (same, read_from-old s t property field x ps all h) refl

pub All-map {ℓ κ μ} :
    {A : Type ℓ} (P : A → Type κ) (Q : A → Type μ) (f : (a : A) → P a → Q a) (xs : List A)
    → All P xs
    → All Q xs
All-map P Q f [] h = tt
All-map P Q f (x ∷ xs) (a, h) = (f x a, All-map P Q f xs h)

-- A subject that statements can be about, made before.
abbrev pub IsSubject : (ℕ → Text) → Builder → Value → Type 0
IsSubject number b s = (same_node s s ≡ true) × IsOld number b.variable_counter s

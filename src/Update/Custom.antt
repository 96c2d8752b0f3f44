-- ===== src/Update/Custom.antt =====
-- src/engine/contactsaverequest.cpp: custom values, stored as properties and read back.
use qtcontacts_tracker.Base.{
  ℕ, suc, ◌≤◌, true, false, if◌then◌else◌, Text, same_text_iff, codes, List, [], ◌∷◌, ◌++◌, All,
  All-append, map, ◌≡◌, refl, sym, ap, ◌∙◌, arith, inl, inr, Bool-cases,
}
use mathlib.Core.List.{append_assoc, append-nil}
use qtcontacts_tracker.Update.{
  Leaf, text, Variant, Value, resource, blank, literal, Pattern, Builder, insert_value, joined_name,
  make_unique_name, custom_values, insert_property, insert_properties, insert_custom_values,
}
use qtcontacts_tracker.Update.Names.{Numbers, IsStem, unique_names}
use qtcontacts_tracker.Update.Reading.{
  same_node, values_at, read_from, read_values, IsOld, IsFresh, values_at-append, read_from-append,
  added, insert_property-statements, values_at-added, values_at-new, read_from-old, All-map,
  IsSubject,
}

module _ {number : ℕ → Text} (numbers : Numbers number) (s : Value) (detail field : Text)
    (stem : IsStem (joined_name detail field)) where
  abbrev made : Builder → Value
  made b = blank (joined_name detail field ++ number b.variable_counter)

  made-new :
      (b : Builder) (v : Value) → IsOld number b.variable_counter v → same_node v (made b) ≡ false
  made-new b v old = old (joined_name detail field) b.variable_counter stem (omega arith)

  made_once :
      (b : Builder) (x : Leaf) → values_at (made b) (added s (made b) field x) ≡ literal x ∷ []
  made_once b x =
      let name = joined_name detail field ++ number b.variable_counter in
      values_at-added (made b) s (made b) field x
      ∙ ap (λ t. if t then literal x ∷ [] else []) ((same_text_iff name name).1 refl)

  read_from-added :
      (v : Value) (x : Leaf) (all : List Pattern)
      → same_node s s ≡ true
      → read_from s (added s v field x) all ≡ values_at v all ++ []
  unfolding read_from
  read_from-added v x all self = ap (λ t. if t then values_at v all ++ [] else []) self

  insert_property-read :
      (x : Leaf) (b : Builder)
      → IsFresh number b
      → IsSubject number b s
      → read_values s (insert_property number s detail field x b)
        ≡ read_values s b ++ (literal x ∷ [])
  unfolding read_values
  insert_property-read x b fresh (self, old) =
      let ps = b.statements in
      let v = made b in
      let new = added s v field x in
      let objects =
        All-map _ (λ p. same_node p.object v ≡ false) (λ p h. made-new b p.object h.1) ps fresh in
      let subjects =
        All-map _ (λ p. same_node p.subject v ≡ false) (λ p h. made-new b p.subject h.0) ps fresh in
      let here : values_at v (ps ++ new) ≡ literal x ∷ [] =
        values_at-append v ps new
        ∙ ap (λ vs. vs ++ values_at v new) (values_at-new v ps subjects)
        ∙ made_once b x in
      let last = read_from-added v x (ps ++ new) self ∙ ap (λ vs. vs ++ []) here in
      rw (insert_property-statements number s detail field x b) (
        read_from-append s ps new (ps ++ new)
        ∙ ap (λ vs. vs ++ read_from s new (ps ++ new)) (read_from-old s s v field x ps ps objects)
        ∙ ap (λ vs. read_from s ps ps ++ vs) last)

  later : {m n : ℕ} (v : Value) → m ≤ n → IsOld number m v → IsOld number n v
  later {m} {n} v h old base k st le = old base k st (omega (arith, h, le))

  made-old : (b : Builder) → IsOld number (suc b.variable_counter) (made b)
  made-old b base n st le = elim (Bool-cases (same_node (made b) (blank (base ++ number n)))) [
    | inr no' ↦ no'
    | inl same ↦
        let name = joined_name detail field ++ number b.variable_counter in
        let e = (same_text_iff name (base ++ number n)).0 same in
        let (_, same_number) =
          unique_names numbers (joined_name detail field) base b.variable_counter n stem st e in
        absurd (omega (arith, same_number, le))
  ]

  insert_property-counter :
      (x : Leaf) (b : Builder)
      → (insert_property number s detail field x b).variable_counter ≡ suc b.variable_counter
  unfolding insert_property insert_value make_unique_name
  insert_property-counter x b = refl

  -- Both ends of a statement were made before the counter had a value.
  abbrev AreOld : ℕ → Pattern → Type 0
  AreOld n p = IsOld number n p.subject × IsOld number n p.object

  resource-old : (iri : Text) (n : ℕ) → IsOld number n (resource iri)
  resource-old iri n base m st le = refl

  literal-old : (y : Leaf) (n : ℕ) → IsOld number n (literal y)
  literal-old y n base m st le = refl

  added-AreOld :
      (x : Leaf) (b : Builder)
      → IsOld number b.variable_counter s
      → All (AreOld (suc b.variable_counter)) (added s (made b) field x)
  added-AreOld x b old =
      let old' = later s (omega arith) old in
      let v = made-old b in
      let n = suc b.variable_counter in
      (
        (old', resource-old (codes "nie:InformationElement") n),
        (
          (old', v),
          (
            (v, resource-old (codes "nao:Property") n),
            ((v, literal-old (text field) n), ((v, literal-old x n), tt)),
          ),
        ),
      )

  insert_property-IsFresh :
      (x : Leaf) (b : Builder)
      → IsFresh number b
      → IsSubject number b s
      → IsFresh number (insert_property number s detail field x b)
        × IsSubject number (insert_property number s detail field x b) s
  insert_property-IsFresh x b fresh (self, old) =
      let n = b.variable_counter in
      let aged : All (AreOld (suc n)) b.statements =
        All-map (AreOld n) (AreOld (suc n))
          (λ p h. (later p.subject (omega arith) h.0, later p.object (omega arith) h.1))
          b.statements fresh in
      let all = All-append (AreOld (suc n)) b.statements _ aged (added-AreOld x b old) in
      rw (insert_property-counter x b, insert_property-statements number s detail field x b)
        (all, (self, later s (omega arith) old))

  insert_properties-read :
      (xs : List Leaf) (b : Builder)
      → IsFresh number b
      → IsSubject number b s
      → read_values s (insert_properties number s detail field xs b)
        ≡ read_values s b ++ map literal xs
  unfolding insert_properties
  insert_properties-read [] b fresh subject = sym (append-nil (read_values s b))
  insert_properties-read (x ∷ xs) b fresh subject =
      let (fresh', subject') = insert_property-IsFresh x b fresh subject in
      insert_properties-read xs (insert_property number s detail field x b) fresh' subject'
      ∙ ap (λ vs. vs ++ map literal xs) (insert_property-read x b fresh subject)
      ∙ append_assoc (read_values s b) (literal x ∷ []) (map literal xs)

-- Custom values are stored in such a way that they can be read back: whoever follows from a subject
-- each `nao:hasProperty` to its `nao:propertyValue` finds what was there before and then, in order,
-- the values of the field that are not null, no empty elements of a list of texts, and not among
-- the allowable ones. The conditions: the statements so far are about nodes that were made before,
-- and so is the subject; and neither the name of the detail nor that of the field, if there is one,
-- ends in a digit.
pub insert_custom_values-read :
    {number : ℕ → Text} (numbers : Numbers number) (s : Value) (detail field : Text)
    (value : Variant) (allowable : List Leaf) (b : Builder)
    → IsStem (joined_name detail field)
    → IsFresh number b
    → IsSubject number b s
    → read_values s (insert_custom_values number s detail field value allowable b)
      ≡ read_values s b ++ map literal (custom_values allowable value)
unfolding insert_custom_values
insert_custom_values-read numbers s detail field value allowable b stem fresh subject =
    insert_properties-read numbers s detail field stem (custom_values allowable value) b fresh
      subject

-- ===== src/Label/Shown.antt =====
-- src/engine/displaylabelgenerator.cpp: when a contact has a label, and that it is found.
use qtcontacts_tracker.Base.{
  suc, ℕ, Bool, true, false, not, if◌then◌else◌, Text, same_text, same_text_iff, List, [], ◌∷◌,
  ◌++◌, some, is_empty, ◌≡◌, ◌↔◌, ◌&&◌, ◌||◌, inl, inr, arith, All, Bool-cases, refl, ap,
}
use qtcontacts_tracker.Label.{
  Field, Contact, Generator, create_label, ListOptions, create_generators, LabelSettings,
  find_generators, create_display_label, joined, order_first_name, order_last_name,
  default_name_order, first_name, last_name, custom_label, middle_name, nickname_text,
  organization_name, presence_nickname, account_uri, email, number, web_address,
}

abbrev pub all_fields : List Field
all_fields =
    first_name ∷ last_name ∷ custom_label ∷ middle_name ∷ nickname_text ∷ organization_name
    ∷ presence_nickname ∷ account_uri ∷ email ∷ number ∷ web_address ∷ []

abbrev pub all_empty : List Generator → Contact → Bool
all_empty [] c = true
all_empty (g ∷ gs) c = is_empty (create_label g c) && all_empty gs c

label_empty :
    (label : Text) (gs : List Generator) (c : Contact)
    → is_empty label ≡ true
    → is_empty (create_display_label label gs c) ≡ all_empty gs c
unfolding create_display_label
label_empty label [] c e = e
label_empty label (g ∷ gs) c e = elim (Bool-cases (is_empty (create_label g c))) [
  | inl empty ↦ ground (arith, empty, label_empty (create_label g c) gs c empty)
  | inr some_text ↦ ground (arith, some_text)
]

append-empty : (a b : Text) → is_empty b ≡ false → is_empty (a ++ b) ≡ false
append-empty [] b e = e
append-empty (x ∷ a) b e = refl

joined-empty : (a b : Text) → is_empty (joined a b) ≡ (is_empty a && is_empty b)
joined-empty [] [] = refl
joined-empty (x ∷ a) [] = refl
joined-empty [] (y ∷ b) = refl
joined-empty (x ∷ a) (y ∷ b) = refl

-- A contact has the empty label exactly if all of the fields that labels are made of are empty,
-- whatever the options.
pub create_display_label_empty :
    (o : ListOptions) (c : Contact)
    → (is_empty (create_display_label [] (create_generators o) c) ≡ true)
      ↔ All (λ f. is_empty (c f) ≡ true) all_fields
unfolding create_generators create_label
create_display_label_empty o c = ground (
  arith,
  label_empty [] (create_generators o) c refl,
  joined-empty (c first_name) (c last_name),
  joined-empty (c last_name) (c first_name),
)

abbrev pub is_known : Text → Bool
is_known order = same_text order order_first_name || same_text order order_last_name

-- The order asked for if it is known, otherwise the configured one if that is, otherwise the
-- default.
abbrev pub effective_order : LabelSettings → Text → Text
effective_order s order =
    if is_known order
    then order
    else if is_known s.name_order
    then s.name_order
    else default_name_order

-- A text is not both of the known orders.
exclusive : (t : Text) → (same_text t order_first_name && same_text t order_last_name) ≡ false
exclusive t = elim (Bool-cases (same_text t order_first_name)) [
  | inl first ↦ rw ((same_text_iff t order_first_name).0 first)
  | inr other ↦ rw other
]

abbrev pub generators_of : LabelSettings → Text → List Generator
generators_of s order = create_generators (record {
  last_name_first = same_text order order_last_name;
  prefer_nickname = s.prefer_nickname;
})

differ : (a b : Text) → is_known a ≡ false → is_known b ≡ true → same_text a b ≡ false
differ a b unknown known = elim (Bool-cases (same_text a b)) [
  | inl same ↦
      let p : is_known a ≡ is_known b = ap is_known ((same_text_iff a b).0 same) in
      ground (arith, p, unknown, known)
  | inr other ↦ other
]

find_known :
    (n : ℕ) (s : LabelSettings) (order : Text)
    → is_known order ≡ true
    → find_generators (suc n) s order ≡ some (generators_of s order)
unfolding find_generators
find_known n s order known = elim (Bool-cases (same_text order order_first_name)) [
  | inl first ↦ rw ((same_text_iff order order_first_name).0 first)
  | inr other ↦ ground (arith, known, other)
]

find_unknown :
    (n : ℕ) (s : LabelSettings) (order : Text)
    → is_known order ≡ false
    → find_generators (suc n) s order ≡ (
        if not (same_text order s.name_order)
        then find_generators n s s.name_order
        else find_generators n s default_name_order)
unfolding find_generators
find_unknown n s order unknown = ground (arith, unknown)

-- Three calls are enough to find the generators, for every name order and all settings: they are
-- those of the order asked for if it is known, otherwise of the configured one if that is known,
-- and otherwise of the default order.
pub find_generators_total :
    (s : LabelSettings) (order : Text)
    → find_generators 3 s order ≡ some (generators_of s (effective_order s order))
find_generators_total s order = elim (Bool-cases (is_known order)) [
  | inl known ↦ rw (known, find_known 2 s order known)
  | inr unknown ↦ elim (Bool-cases (is_known s.name_order)) [
    | inl configured ↦
        let other : same_text order s.name_order ≡ false =
          differ order s.name_order unknown configured in
        rw (
          unknown,
          configured,
          find_unknown 2 s order unknown,
          other,
          find_known 1 s s.name_order configured,
        )
    | inr neither ↦ elim (Bool-cases (same_text order s.name_order)) [
      | inl same ↦ rw (
        unknown,
        neither,
        find_unknown 2 s order unknown,
        same,
        find_known 1 s default_name_order refl,
      )
      | inr other ↦ rw (
        unknown,
        neither,
        find_unknown 2 s order unknown,
        other,
        find_unknown 1 s s.name_order neither,
        (same_text_iff s.name_order s.name_order).1 refl,
        find_known 0 s default_name_order refl,
      )
    ]
  ]
]

-- ===== src/Label/Hint.antt =====
-- src/engine/engine.cpp: the details to fetch for a label.
use qtcontacts_tracker.Base.{
  Bool, true, if◌then◌else◌, Text, same_text, same_text_iff, List, [], ◌∷◌, ◌++◌, any, ◌≡◌, arith,
  All, refl, ap, ◌||◌, ◌∙◌, sym,
}
use mathlib.Core.Path.{subst}
use qtcontacts_tracker.Label.{
  Detail, detail_of, Contact, Generator, simple, first_name_last_name, last_name_first_name,
  create_label, create_display_label, required_detail, add_required, normalized_hint,
}

any-append :
    (t : Text) (xs ys : List Text)
    → any (same_text t) (xs ++ ys) ≡ (any (same_text t) xs || any (same_text t) ys)
any-append t [] ys = refl
any-append t (x ∷ xs) ys = ground (arith, any-append t xs ys)

module _ (definition_name : Detail → Text) where
  -- A contact as it is fetched: only the details of the hint.
  abbrev pub fetched : List Text → Contact → Contact
  fetched hint c f = if any (same_text (definition_name (detail_of f))) hint then c f else []

  abbrev pub has_required : List Text → Generator → Bool
  has_required hint g = any (same_text (definition_name (required_detail g))) hint

  abbrev with_required : List Text → Generator → List Text
  with_required hint g =
      if has_required hint g then hint else hint ++ definition_name (required_detail g) ∷ []

  add_required_step :
      (hint : List Text) (g : Generator) (gs : List Generator)
      → add_required definition_name hint (g ∷ gs)
        ≡ add_required definition_name (with_required hint g) gs
  unfolding add_required
  add_required_step hint g gs = ground arith

  with_required-has :
      (hint : List Text) (g : Generator) → has_required (with_required hint g) g ≡ true
  with_required-has hint g =
      let t = definition_name (required_detail g) in
      ground (arith, any-append t hint (t ∷ []), same_text_iff t t)

  -- What a hint has, it keeps.
  add_required-keeps :
      (t : Text) (hint : List Text) (gs : List Generator)
      → any (same_text t) hint ≡ true
      → any (same_text t) (add_required definition_name hint gs) ≡ true
  unfolding add_required
  add_required-keeps t hint [] e = e
  add_required-keeps t hint (g ∷ gs) e =
      let added = any-append t hint (definition_name (required_detail g) ∷ []) in
      let kept : any (same_text t) (with_required hint g) ≡ true = ground (arith, e, added) in
      ap (any (same_text t)) (add_required_step hint g gs)
      ∙ add_required-keeps t (with_required hint g) gs kept

  add_required_complete :
      (hint : List Text) (gs : List Generator)
      → All (λ g. has_required (add_required definition_name hint gs) g ≡ true) gs
  add_required_complete hint [] = tt
  add_required_complete hint (g ∷ gs) =
      let hint' = with_required hint g in
      let t = definition_name (required_detail g) in
      subst (λ h. All (λ g. has_required h g ≡ true) (g ∷ gs)) (sym (add_required_step hint g gs))
        (add_required-keeps t hint' gs (with_required-has hint g), add_required_complete hint' gs)

  -- A generator whose detail is fetched gives the same label.
  create_label-fetched :
      (hint : List Text) (c : Contact) (g : Generator)
      → has_required hint g ≡ true
      → create_label g (fetched hint c) ≡ create_label g c
  unfolding create_label required_detail
  create_label-fetched hint c (simple f) e = rw e
  create_label-fetched hint c first_name_last_name e = rw e
  create_label-fetched hint c last_name_first_name e = rw e

  create_display_label-fetched :
      (hint : List Text) (c : Contact) (label : Text) (gs : List Generator)
      → All (λ g. has_required hint g ≡ true) gs
      → create_display_label label gs (fetched hint c) ≡ create_display_label label gs c
  unfolding create_display_label
  create_display_label-fetched hint c label [] a = refl
  create_display_label-fetched hint c label (g ∷ gs) a = rw (
    create_label-fetched hint c g a.0,
    create_display_label-fetched hint c (create_label g c) gs a.1,
  )

  -- If a hint asks for the label, then the details of the normalized hint are enough for it: the
  -- contact that is fetched has the label of the whole contact.
  pub create_display_label-normalized_hint :
      (display_label : Text) (hint : List Text) (gs : List Generator) (c : Contact)
      → any (same_text display_label) hint ≡ true
      → create_display_label [] gs
          (fetched (normalized_hint definition_name display_label hint gs) c)
        ≡ create_display_label [] gs c
  unfolding normalized_hint
  create_display_label-normalized_hint display_label hint gs c e = rw e (
      create_display_label-fetched (add_required definition_name hint gs) c [] gs
        (add_required_complete hint gs))

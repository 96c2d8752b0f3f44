-- ===== src/Filter/Bound.antt =====
-- src/dao/scalarquerybuilder.cpp: the bound condition is what the filter means.
use qtcontacts_tracker.Base.{
  ℕ, zero, suc, ◌≤◌, Bool, true, false, ◌&&◌, ◌||◌, any, Text, same_text, List, [], ◌∷◌, Option,
  some, is_empty, ◌≡◌, refl, All, arith, Option-cases, inl, inr, ap, ◌∙◌,
}
use qtcontacts_tracker.Request.{not_supported_error}
use qtcontacts_tracker.Filter.{
  DetailFilter, Filter, invalid_filter, default_filter, action_filter, local_id_filter,
  detail_filter, change_log_filter, relationship_filter, intersection_filter, union_filter, Filters,
  no_filters, add_filter, Cubi, CubiLaws, Bind, bound, failed, Builder, is_type_filter,
  fields_to_try, type_definition, bind_all, map_bound, bind_local_ids, bind_change_log,
  bind_relationship, any_field, bind_detail_filter, bind_canonical, bind_filter,
}
use qtcontacts_tracker.Filter.Matches.{
  depth, depth_all, all, on_field, field_bindable, detail_bindable, bindable, all_bindable,
  field_matches, detail_matches, matches, all_match, any_match,
}
use qtcontacts_tracker.Filter.Leaves.{
  Right, Right-map, AllRight, bind_local_ids-Right, bind_change_log-Right, bind_relationship-Right,
  field-Right,
}

module _ {C X : Type 0} (cubi : Cubi C X) (laws : CubiLaws cubi) (b : Builder C) (x : X) where
  -- A call whose results are right for filters of a depth.
  abbrev RightTo : ℕ → (Filter → Option (Bind C)) → Type 0
  RightTo n bind =
      (f : Filter)
      → depth f ≤ n
      → (r : Bind C) × (bind f ≡ some r) × Right cubi x (bindable b f) (matches cubi b x f) r

  AllRight-cons :
      (bind : Filter → Option (Bind C)) (f : Filter) (fs : Filters) (bf mf bs every some_ : Bool)
      (r : Bind C) (rs : Bind (List C))
      → bind f ≡ some r
      → Right cubi x bf mf r
      → bind_all bind fs ≡ some rs
      → AllRight cubi x bs every some_ rs
      → (q : Bind (List C)) × (bind_all bind (add_filter f fs) ≡ some q)
        × AllRight cubi x (bf && bs) (mf && every) (mf || some_) q
  AllRight-cons bind f fs bf mf bs every some_ (failed e) rs h p h' p' =
      (failed e, ground (arith, h), ground (arith, p))
  AllRight-cons bind f fs bf mf bs every some_ (bound c) (failed e) h p h' p' =
      (failed e, ground (arith, h, h'), ground (arith, p'))
  AllRight-cons bind f fs bf mf bs every some_ (bound c) (bound cs) h p h' p' = (
    bound (c ∷ cs),
    ground (arith, h, h'),
    (
      ground (arith, laws.holds-all_of c cs x, p, p'.0),
      ground (arith, laws.holds-any_of c cs x, p, p'.1),
    ),
  )

  bind_all-AllRight :
      (n : ℕ) (bind : Filter → Option (Bind C))
      → RightTo n bind
      → (fs : Filters) → depth_all fs ≤ n
      → (rs : Bind (List C)) × (bind_all bind fs ≡ some rs)
        × AllRight cubi x (all_bindable b fs) (all_match cubi b x fs) (any_match cubi b x fs) rs
  unfolding depth bindable matches
  bind_all-AllRight n bind ih no_filters h =
      (bound [], refl, (laws.holds-all_of_nil x, laws.holds-any_of_nil x))
  bind_all-AllRight n bind ih (add_filter f fs) h =
      let (r, e, p) = ih f (omega (arith, h)) in
      let (rs, e', p') = bind_all-AllRight n bind ih fs (omega (arith, h)) in
      AllRight-cons bind f fs (bindable b f) (matches cubi b x f) (all_bindable b fs)
        (all_match cubi b x fs) (any_match cubi b x fs) r rs e p e' p'

  any_field_lem :
      (d : DetailFilter) (fields : List Text)
      → All (λ f. is_empty f ≡ false) fields
      → (depth_all (any_field d fields) ≤ 1)
        × (all_bindable b (any_field d fields)
            ≡ all (λ field. field_bindable b (on_field d field)) fields)
        × (any_match cubi b x (any_field d fields)
            ≡ any (λ field. field_matches cubi b x (on_field d field)) fields)
  unfolding depth bindable matches
  any_field_lem d [] a = (omega arith, refl, refl)
  any_field_lem d ([] ∷ fields) a = absurd (ground (arith, a.0))
  any_field_lem d ((c ∷ cs) ∷ fields) a =
      let (l, e, e') = any_field_lem d fields a.1 in
      let d' = on_field d (c ∷ cs) in
      (
        omega (arith, l),
        ap (λ (rest : Bool). field_bindable b d' && rest) e,
        ap (λ (rest : Bool). field_matches cubi b x d' || rest) e',
      )

  -- An intersection, or a union.
  all_of-Right :
      (rs : Bind (List C)) (bs every some_ : Bool)
      → AllRight cubi x bs every some_ rs
      → (r : Bind C) × (map_bound cubi.all_of (some rs) ≡ some r) × Right cubi x bs every r
  all_of-Right (failed e) bs every some_ p = (failed e, refl, p)
  all_of-Right (bound cs) bs every some_ p = (bound (cubi.all_of cs), refl, p.0)

  any_of-Right :
      (rs : Bind (List C)) (bs every some_ : Bool)
      → AllRight cubi x bs every some_ rs
      → (r : Bind C) × (map_bound cubi.any_of (some rs) ≡ some r) × Right cubi x bs some_ r
  any_of-Right (failed e) bs every some_ p = (failed e, refl, p)
  any_of-Right (bound cs) bs every some_ p = (bound (cubi.any_of cs), refl, p.1)

  empty_differs : (t : Text) → is_empty t ≡ true → same_text t type_definition ≡ false
  empty_differs [] h = refl
  empty_differs (c ∷ t) h = absurd (ground (arith, h))

  any_not_type :
      (d : DetailFilter) (fields : List Text)
      → fields_to_try b d ≡ some fields
      → is_type_filter d ≡ false
  any_not_type d fields e = ground (arith, e, empty_differs d.field_name)

  detail-Right :
      (n : ℕ) (bind : Filter → Option (Bind C)) (d : DetailFilter) (fields : List Text)
      → RightTo n bind
      → 1 ≤ n
      → All (λ f. is_empty f ≡ false) fields
      → fields_to_try b d ≡ some fields
      → (r : Bind C) × (bind_detail_filter cubi b bind d ≡ some r)
        × Right cubi x (detail_bindable b d) (detail_matches cubi b x d) r
  unfolding bind_detail_filter
  detail-Right n bind d fields ih one a e =
      let (l, e₁, e₂) = any_field_lem d fields a in
      let (rs, e₃, p) = bind_all-AllRight n bind ih (any_field d fields) (omega (arith, l, one)) in
      let (r, e₄, p') =
        any_of-Right rs (all_bindable b (any_field d fields))
          (all_match cubi b x (any_field d fields)) (any_match cubi b x (any_field d fields)) p in
      (
        r,
        ground (arith, e, e₃, e₄, any_not_type d fields e),
        Right-map cubi x r (all_bindable b (any_field d fields)) (detail_bindable b d)
            (any_match cubi b x (any_field d fields)) (detail_matches cubi b x d)
            (λ h. ground (arith, h, e, e₁)) (ground (arith, e, e₂)) p',
      )

  bind_canonical-Right :
      (n : ℕ) (bind : Filter → Option (Bind C))
      → RightTo n bind
      → ((name : Text) (fields : List Text)
          → b.fields name ≡ some fields
          → All (λ f. is_empty f ≡ false) fields)
      → (g : Filter) → depth g ≤ suc n
      → (r : Bind C) × (bind_canonical cubi b bind g ≡ some r)
        × Right cubi x (bindable b g) (matches cubi b x g) r
  unfolding bind_canonical depth bindable matches
  bind_canonical-Right n bind ih named invalid_filter h =
      (bound (cubi.literal false), refl, laws.holds-literal false x)
  bind_canonical-Right n bind ih named default_filter h =
      (bound cubi.no_restriction, refl, laws.holds-no_restriction x)
  bind_canonical-Right n bind ih named action_filter h = (failed not_supported_error, refl, refl)
  bind_canonical-Right n bind ih named (local_id_filter ids) h =
      (bind_local_ids cubi ids, refl, bind_local_ids-Right cubi laws b x ids)
  bind_canonical-Right n bind ih named (change_log_filter event t) h =
      (bind_change_log cubi event t, refl, bind_change_log-Right cubi laws b x event t)
  bind_canonical-Right n bind ih named (relationship_filter type manager id role) h = (
    bind_relationship cubi b.manager_uri type manager id role,
    refl,
    bind_relationship-Right cubi laws b x type manager id role,
  )
  bind_canonical-Right n bind ih named (intersection_filter fs) h =
      let (rs, e, p) = bind_all-AllRight n bind ih fs (omega (arith, h)) in
      let (r, e', p') =
        all_of-Right rs (all_bindable b fs) (all_match cubi b x fs) (any_match cubi b x fs) p in
      (r, ap (map_bound cubi.all_of) e ∙ e', p')
  bind_canonical-Right n bind ih named (union_filter fs) h =
      let (rs, e, p) = bind_all-AllRight n bind ih fs (omega (arith, h)) in
      let (r, e', p') =
        any_of-Right rs (all_bindable b fs) (all_match cubi b x fs) (any_match cubi b x fs) p in
      (r, ap (map_bound cubi.any_of) e ∙ e', p')
  bind_canonical-Right n bind ih named (detail_filter d) h =
      elim (Option-cases (fields_to_try b d)) [
        | inl e ↦
            let (r, e', p) = field-Right cubi laws b x d e bind in
            (
              r,
              e',
              Right-map cubi x r (field_bindable b d) (detail_bindable b d)
                  (field_matches cubi b x d) (detail_matches cubi b x d) (λ h. ground (arith, h, e))
                  (ground (arith, e)) p,
            )
        | inr (fields, e) ↦
            detail-Right n bind d fields ih (ground (arith, h, e))
              (named d.definition_name fields (ground (arith, e))) e
      ]

depth-positive : (f : Filter) → 1 ≤ depth f
unfolding depth
depth-positive invalid_filter = omega arith
depth-positive default_filter = omega arith
depth-positive action_filter = omega arith
depth-positive (local_id_filter ids) = omega arith
depth-positive (detail_filter d) = ground arith
depth-positive (change_log_filter event t) = omega arith
depth-positive (relationship_filter type manager id role) = omega arith
depth-positive (intersection_filter fs) = omega arith
depth-positive (union_filter fs) = omega arith

-- With fuel for its depth, a filter gets a result. If that is a condition, it holds of a contact
-- exactly if the contact matches the filter; if it is an error, some part of the filter cannot be
-- expressed: an action, the ids of no contact, removed contacts, relationships other than
-- `HasMember`, or a field whose own condition fails. The conditions: Cubi's laws; a canonical filter
-- means the same, is as expressible as before and not deeper; the fields of the schema have names.
pub bind_filter_lem :
    {C X : Type 0} (cubi : Cubi C X) (laws : CubiLaws cubi) (b : Builder C) (x : X)
    (canonicalized : Filter → Filter)
    → ((f : Filter) → matches cubi b x (canonicalized f) ≡ matches cubi b x f)
    → ((f : Filter) → bindable b f ≡ true → bindable b (canonicalized f) ≡ true)
    → ((f : Filter) → depth (canonicalized f) ≤ depth f)
    → ((name : Text) (fields : List Text)
        → b.fields name ≡ some fields
        → All (λ f. is_empty f ≡ false) fields)
    → (n : ℕ) (f : Filter) → depth f ≤ n
    → (r : Bind C) × (bind_filter cubi b canonicalized n f ≡ some r)
      × Right cubi x (bindable b f) (matches cubi b x f) r
unfolding bind_filter
bind_filter_lem cubi laws b x canonicalized keeps able shallow named zero f h =
    absurd (omega (arith, h, depth-positive f))
bind_filter_lem cubi laws b x canonicalized keeps able shallow named (suc n) f h =
    let bind = bind_filter cubi b canonicalized n in
    let ih = bind_filter_lem cubi laws b x canonicalized keeps able shallow named n in
    let (r, e, p) =
      bind_canonical-Right cubi laws b x n bind ih named (canonicalized f)
        (omega (arith, h, shallow f)) in
    (
      r,
      e,
      Right-map cubi x r (bindable b (canonicalized f)) (bindable b f)
          (matches cubi b x (canonicalized f)) (matches cubi b x f) (able f) (keeps f) p,
    )

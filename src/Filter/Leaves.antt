-- ===== src/Filter/Leaves.antt =====
-- src/dao/scalarquerybuilder.cpp: the conditions of filters that have no parts.
use qtcontacts_tracker.Base.{
  ℕ, Bool, true, false, ◌&&◌, ◌||◌, ◌==◌, any, if◌then◌else◌, Text, same_text, List, [], ◌∷◌, ◌++◌,
  Option, some, none, is_empty, ◌≡◌, refl, arith, Bool-cases, inl, inr, ◌∙◌,
}
use qtcontacts_tracker.Filter.{
  EventType, event_added, event_changed, event_removed, Role, first_role, second_role, either_role,
  DetailFilter, Filter, local_id_filter, change_log_filter, relationship_filter, Cubi, CubiLaws,
  Bind, bound, failed, is_first, is_second, has_member_type, Builder, is_type_filter, fields_to_try,
  bind_local_ids, bind_change_log, bind_relationship, bind_detail_filter,
}
use qtcontacts_tracker.Filter.Matches.{is_bound, field_bindable, bindable, field_matches, matches}

module _ {C X : Type 0} (cubi : Cubi C X) (x : X) where
  -- A bound condition holds of a contact exactly if `m`; a call only fails if not `b`.
  abbrev pub Right : Bool → Bool → Bind C → Type 0
  Right b m (bound c) = cubi.holds c x ≡ m
  Right b m (failed e) = b ≡ false

  pub Right-map :
      (r : Bind C) (b b' m m' : Bool)
      → (b' ≡ true → b ≡ true)
      → m ≡ m'
      → Right b m r
      → Right b' m' r
  Right-map (bound c) b b' m m' able same p = p ∙ same
  Right-map (failed e) b b' m m' able same p = elim (Bool-cases b') [
    | inl h ↦ absurd (ground (arith, able h, p))
    | inr h ↦ h
  ]

  abbrev pub AllRight : Bool → Bool → Bool → Bind (List C) → Type 0
  AllRight b every some_ (bound cs) =
      (cubi.holds (cubi.all_of cs) x ≡ every) × (cubi.holds (cubi.any_of cs) x ≡ some_)
  AllRight b every some_ (failed e) = b ≡ false

module _ {C X : Type 0} (cubi : Cubi C X) (laws : CubiLaws cubi) (b : Builder C) (x : X) where
  pub bind_local_ids-Right :
      (ids : List ℕ)
      → Right cubi x
          (bindable b (local_id_filter ids))
          (matches cubi b x (local_id_filter ids))
          (bind_local_ids cubi ids)
  unfolding bind_local_ids bindable matches
  bind_local_ids-Right [] = refl
  bind_local_ids-Right (id ∷ ids) = laws.holds-id_in (id ∷ ids) x

  pub bind_change_log-Right :
      (event : EventType) (t : ℕ)
      → Right cubi x
          (bindable b (change_log_filter event t))
          (matches cubi b x (change_log_filter event t))
          (bind_change_log cubi event t)
  unfolding bind_change_log bindable matches
  bind_change_log-Right event_added t = laws.holds-created_since t x
  bind_change_log-Right event_changed t = laws.holds-modified_since t x
  bind_change_log-Right event_removed t = refl

  either_of :
      (id : ℕ) (role : Role)
      → let restrictions =
          (if is_first role then cubi.belongs_to_group id ∷ [] else [])
          ++ (if is_second role then cubi.has_member id ∷ [] else []) in
        cubi.holds
          (if is_empty restrictions then cubi.no_restriction else cubi.any_of restrictions)
          x
        ≡ ((is_first role && any (λ g. g == id) (cubi.groups_of x))
            || (is_second role && any (λ m. m == id) (cubi.members_of x)))
  either_of id first_role = ground (
    arith,
    laws.holds-any_of (cubi.belongs_to_group id) [] x,
    laws.holds-any_of_nil x,
    laws.holds-belongs_to_group id x,
  )
  either_of id second_role = ground (
    arith,
    laws.holds-any_of (cubi.has_member id) [] x,
    laws.holds-any_of_nil x,
    laws.holds-has_member id x,
  )
  either_of id either_role = ground (
    arith,
    laws.holds-any_of (cubi.belongs_to_group id) (cubi.has_member id ∷ []) x,
    laws.holds-any_of (cubi.has_member id) [] x,
    laws.holds-any_of_nil x,
    laws.holds-belongs_to_group id x,
    laws.holds-has_member id x,
  )

  pub bind_relationship-Right :
      (type manager : Text) (id : ℕ) (role : Role)
      → Right cubi x
          (bindable b (relationship_filter type manager id role))
          (matches cubi b x (relationship_filter type manager id role))
          (bind_relationship cubi b.manager_uri type manager id role)
  unfolding bind_relationship bindable matches
  bind_relationship-Right type manager id role =
      elim (Bool-cases (same_text type has_member_type)) [
        | inr h ↦ rw h refl
        | inl h ↦ elim (Bool-cases (same_text manager b.manager_uri)) [
          | inr h' ↦ rw (h, h') (laws.holds-literal false x)
          | inl h' ↦ rw (h, h') (either_of id role)
        ]
      ]

  pub field-Right :
      (d : DetailFilter)
      → fields_to_try b d ≡ none
      → (bind : Filter → Option (Bind C))
      → (r : Bind C) × (bind_detail_filter cubi b bind d ≡ some r)
        × Right cubi x (field_bindable b d) (field_matches cubi b x d) r
  unfolding bind_detail_filter
  field-Right d e bind = elim (Bool-cases (is_type_filter d)) [
    | inl h ↦ (
      bound (cubi.literal (same_text b.contact_type d.value)),
      ground (arith, h),
      rw h (laws.holds-literal (same_text b.contact_type d.value) x),
    )
    | inr h ↦ (
      b.field_condition d,
      ground (arith, h, e),
      rw h (field_condition-Right (b.field_condition d)),
    )
  ]
    where
      field_condition-Right :
          (r : Bind C)
          → Right cubi x (is_bound r) (elim r [ bound c ↦ cubi.holds c x | failed e ↦ false ]) r
      field_condition-Right (bound c) = refl
      field_condition-Right (failed e) = refl

-- ===== src/Filter/Supported.antt =====
-- src/dao/scalarquerybuilder.cpp: which filters `isFilterSupported` promises.
use qtcontacts_tracker.Base.{
  ℕ, zero, suc, Bool, true, false, Text, same_text, Option, some, none, List, ◌≡◌, refl, arith,
  Option-cases, inl, inr,
}
use qtcontacts_tracker.Request.{not_supported_error}
use qtcontacts_tracker.Filter.{
  event_removed, Role, Filter, invalid_filter, default_filter, action_filter, local_id_filter,
  detail_filter, change_log_filter, relationship_filter, intersection_filter, union_filter, Filters,
  no_filters, add_filter, Cubi, Bind, bound, failed, has_member_type, Builder, compound_supported,
  is_canonical_filter_supported, is_filter_supported, bind_all, map_bound, bind_change_log,
  bind_relationship, bind_canonical, bind_filter,
}

both_bound :
    {C : Type 0} (bind : Filter → Option (Bind C)) (f : Filter) (fs : Filters) (cs : List C)
    → bind_all bind (add_filter f fs) ≡ some (bound cs)
    → (c : C) × (cs' : List C) × (bind f ≡ some (bound c)) × (bind_all bind fs ≡ some (bound cs'))
both_bound bind f fs cs h = elim (Option-cases (bind f)) [
  | inl e ↦ absurd (ground (arith, h, e))
  | inr (failed e', e) ↦ absurd (ground (arith, h, e))
  | inr (bound c, e) ↦ elim (Option-cases (bind_all bind fs)) [
    | inl e' ↦ absurd (ground (arith, h, e, e'))
    | inr (failed e'', e') ↦ absurd (ground (arith, h, e, e'))
    | inr (bound cs', e') ↦ (c, cs', e, e')
  ]
]

compound_supported-bound :
    {C : Type 0} (test : Filter → Option Bool) (bind : Filter → Option (Bind C))
    → ((f : Filter) (c : C) → bind f ≡ some (bound c) → test f ≡ some true)
    → (fs : Filters) (cs : List C) → bind_all bind fs ≡ some (bound cs)
    → compound_supported test fs ≡ some true
compound_supported-bound test bind ih no_filters cs h = refl
compound_supported-bound test bind ih (add_filter f fs) cs h =
    let (c, cs', e, e') = both_bound bind f fs cs h in
    ground (arith, ih f c e, compound_supported-bound test bind ih fs cs' e')

unmapped :
    {A B : Type 0} (g : A → B) (o : Option (Bind A)) (y : B)
    → map_bound g o ≡ some (bound y)
    → (a : A) × (o ≡ some (bound a))
unmapped g none y h = absurd (ground (arith, h))
unmapped g (some (failed e)) y h = absurd (ground (arith, h))
unmapped g (some (bound a)) y h = (a, refl)

module _ {C X : Type 0} (cubi : Cubi C X) (b : Builder C) where
  canonical_bound :
      (test : Filter → Option Bool) (bind : Filter → Option (Bind C))
      → ((f : Filter) (c : C) → bind f ≡ some (bound c) → test f ≡ some true)
      → (g : Filter) (c : C) → bind_canonical cubi b bind g ≡ some (bound c)
      → is_canonical_filter_supported test g ≡ some true
  unfolding bind_canonical is_canonical_filter_supported
  canonical_bound test bind ih (intersection_filter fs) c h =
      let (cs, e) = unmapped cubi.all_of (bind_all bind fs) c h in
      compound_supported-bound test bind ih fs cs e
  canonical_bound test bind ih (union_filter fs) c h =
      let (cs, e) = unmapped cubi.any_of (bind_all bind fs) c h in
      compound_supported-bound test bind ih fs cs e
  canonical_bound test bind ih action_filter c h = absurd (ground (arith, h))
  canonical_bound test bind ih invalid_filter c h = refl
  canonical_bound test bind ih default_filter c h = refl
  canonical_bound test bind ih (local_id_filter ids) c h = refl
  canonical_bound test bind ih (detail_filter d) c h = refl
  canonical_bound test bind ih (change_log_filter event t) c h = refl
  canonical_bound test bind ih (relationship_filter type manager id role) c h = refl

  -- Every filter for which a condition can be bound is one that `isFilterSupported` promises to
  -- support: if it says no, at whatever depth of the filter, then binding gives no condition.
  pub bound-is_filter_supported :
      (canonicalized : Filter → Filter) (n : ℕ) (f : Filter) (c : C)
      → bind_filter cubi b canonicalized n f ≡ some (bound c)
      → is_filter_supported canonicalized n f ≡ some true
  unfolding bind_filter is_filter_supported
  bound-is_filter_supported canonicalized zero f c h = absurd (ground (arith, h))
  bound-is_filter_supported canonicalized (suc n) f c h =
      canonical_bound (is_filter_supported canonicalized n) (bind_filter cubi b canonicalized n)
        (λ g d e. bound-is_filter_supported canonicalized n g d e) (canonicalized f) c h

  -- The converse fails. Filters on removed contacts and filters on relationships other than
  -- `HasMember` are said to be supported, but binding any of
  -- them returns `NotSupportedError`.
  pub supported_unbound :
      (canonicalized : Filter → Filter) (n t : ℕ) (type manager : Text) (id : ℕ) (role : Role)
      (f g : Filter)
      → canonicalized f ≡ change_log_filter event_removed t
      → canonicalized g ≡ relationship_filter type manager id role
      → same_text type has_member_type ≡ false
      → (is_filter_supported canonicalized (suc n) f ≡ some true)
        × (bind_filter cubi b canonicalized (suc n) f ≡ some (failed not_supported_error))
        × (is_filter_supported canonicalized (suc n) g ≡ some true)
        × (bind_filter cubi b canonicalized (suc n) g ≡ some (failed not_supported_error))
  unfolding bind_filter is_filter_supported bind_canonical is_canonical_filter_supported
      bind_change_log bind_relationship
  supported_unbound canonicalized n t type manager id role f g e e' h =
      (rw e refl, rw e refl, rw e' refl, rw (e', h) refl)

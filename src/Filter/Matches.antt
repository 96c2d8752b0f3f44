-- ===== src/Filter/Matches.antt =====
-- src/dao/scalarquerybuilder.cpp: what a filter means, apart from how it is bound.
use qtcontacts_tracker.Base.{
  ℕ, suc, Bool, true, false, not, ◌&&◌, ◌||◌, ◌==◌, any, if◌then◌else◌, same_text, Text, List, [],
  ◌∷◌, some, none, is_empty,
}
use Prim.Native.Nat.{max}
use qtcontacts_tracker.Filter.{
  EventType, event_added, event_changed, event_removed, Role, DetailFilter, Filter, invalid_filter,
  default_filter, action_filter, local_id_filter, detail_filter, change_log_filter,
  relationship_filter, intersection_filter, union_filter, Filters, no_filters, add_filter, Cubi,
  since, Bind, bound, failed, is_first, is_second, has_member_type, Builder, is_type_filter,
  fields_to_try,
}

-- How deep the calls for a filter nest. A filter on any field of a detail takes a level more.
unfoldable mutual
  pub depth : Filter → ℕ
  depth (intersection_filter fs) = suc (depth_all fs)
  depth (union_filter fs) = suc (depth_all fs)
  depth (detail_filter d) = if is_empty d.field_name then 2 else 1
  depth invalid_filter = 1
  depth default_filter = 1
  depth action_filter = 1
  depth (local_id_filter ids) = 1
  depth (change_log_filter event t) = 1
  depth (relationship_filter type manager id role) = 1

  pub depth_all : Filters → ℕ
  depth_all no_filters = 0
  depth_all (add_filter f fs) = max (depth f) (depth_all fs)

abbrev pub all : {A : Type 0} → (A → Bool) → List A → Bool
all p [] = true
all p (x ∷ xs) = p x && all p xs

abbrev pub is_bound : {A : Type 0} → Bind A → Bool
is_bound (bound a) = true
is_bound (failed e) = false

abbrev pub is_removed : EventType → Bool
is_removed event_removed = true
is_removed _ = false

abbrev pub on_field : DetailFilter → Text → DetailFilter
on_field d field = record d { field_name = field }

-- Whether every part of a filter is one that can be expressed.
module _ {C : Type 0} (b : Builder C) where
  abbrev pub field_bindable : DetailFilter → Bool
  field_bindable d = is_type_filter d || is_bound (b.field_condition d)

  abbrev pub detail_bindable : DetailFilter → Bool
  detail_bindable d = elim (fields_to_try b d) [
    | some fields ↦ all (λ field. field_bindable (on_field d field)) fields
    | none ↦ field_bindable d
  ]

  unfoldable mutual
    pub bindable : Filter → Bool
    bindable (intersection_filter fs) = all_bindable fs
    bindable (union_filter fs) = all_bindable fs
    bindable (detail_filter d) = detail_bindable d
    bindable invalid_filter = true
    bindable default_filter = true
    bindable action_filter = false
    bindable (local_id_filter ids) = not (is_empty ids)
    bindable (change_log_filter event t) = not (is_removed event)
    bindable (relationship_filter type manager id role) = same_text type has_member_type

    pub all_bindable : Filters → Bool
    all_bindable no_filters = true
    all_bindable (add_filter f fs) = bindable f && all_bindable fs

-- Whether a contact matches a filter. All contacts of a query have the type of the schema; a filter
-- on a field has the meaning of its condition.
module _ {C X : Type 0} (cubi : Cubi C X) (b : Builder C) (x : X) where
  abbrev pub field_matches : DetailFilter → Bool
  field_matches d =
      if is_type_filter d
      then same_text b.contact_type d.value
      else elim (b.field_condition d) [ bound c ↦ cubi.holds c x | failed e ↦ false ]

  abbrev pub detail_matches : DetailFilter → Bool
  detail_matches d = elim (fields_to_try b d) [
    | some fields ↦ any (λ field. field_matches (on_field d field)) fields
    | none ↦ field_matches d
  ]

  -- `HasMember` relationships to contacts of this manager: to a group, or to a member.
  abbrev pub related : Text → ℕ → Role → Bool
  related manager id role =
      same_text manager b.manager_uri
      && ((is_first role && any (λ g. g == id) (cubi.groups_of x))
          || (is_second role && any (λ m. m == id) (cubi.members_of x)))

  abbrev pub change_matches : EventType → ℕ → Bool
  change_matches event_added t = since t (cubi.content_created x)
  change_matches event_changed t = since t (cubi.content_last_modified x)
  change_matches event_removed t = false

  unfoldable mutual
    pub matches : Filter → Bool
    matches (intersection_filter fs) = all_match fs
    matches (union_filter fs) = any_match fs
    matches (detail_filter d) = detail_matches d
    matches invalid_filter = false
    matches default_filter = true
    matches action_filter = false
    matches (local_id_filter ids) = any (λ id. id == cubi.tracker_id x) ids
    matches (change_log_filter event t) = change_matches event t
    matches (relationship_filter type manager id role) =
        same_text type has_member_type && related manager id role

    pub all_match : Filters → Bool
    all_match no_filters = true
    all_match (add_filter f fs) = matches f && all_match fs

    pub any_match : Filters → Bool
    any_match no_filters = false
    any_match (add_filter f fs) = matches f || any_match fs

-- ===== src/Filter/Tests.antt =====
-- src/dao/scalarquerybuilder.cpp: filters over conditions that are tests on contacts.
use qtcontacts_tracker.Base.{
  ℕ, Bool, true, false, ◌&&◌, ◌||◌, ◌==◌, any, Text, codes, List, [], ◌∷◌, some, none, ◌≡◌, refl,
  ◌≤◌, arith,
}
use qtcontacts_tracker.Filter.{
  event_added, event_removed, first_role, either_role, Filter, local_id_filter, change_log_filter,
  relationship_filter, intersection_filter, union_filter, no_filters, add_filter, Cubi, CubiLaws,
  since, Bind, bound, has_member_type, Builder, is_filter_supported, bind_filter, bind_canonical,
  bind_local_ids,
}
use qtcontacts_tracker.Filter.Matches.{depth, matches, bindable}
use qtcontacts_tracker.Filter.Leaves.{Right}
use qtcontacts_tracker.Filter.Bound.{bind_filter_lem}
use qtcontacts_tracker.Filter.Supported.{bound-is_filter_supported}

-- A contact is its tracker id, its time of creation, and its groups.
abbrev Contact : Type 0
Contact = ℕ × ℕ × List ℕ

abbrev every : List (Contact → Bool) → Contact → Bool
every [] x = true
every (c ∷ cs) x = c x && every cs x

abbrev one_of : List (Contact → Bool) → Contact → Bool
one_of [] x = false
one_of (c ∷ cs) x = c x || one_of cs x

abbrev tests : Cubi (Contact → Bool) Contact
tests = record {
  holds = λ c x. c x;
  tracker_id = λ x. x.0;
  content_created = λ x. some x.1;
  content_last_modified = λ x. none;
  groups_of = λ x. x.2;
  members_of = λ x. [];
  no_restriction = λ x. true;
  literal = λ b x. b;
  id_in = λ ids x. any (λ id. id == x.0) ids;
  created_since = λ t x. since t (some x.1);
  modified_since = λ t x. false;
  belongs_to_group = λ id x. any (λ g. g == id) x.2;
  has_member = λ id x. false;
  all_of = every;
  any_of = one_of;
}

tests_lem : CubiLaws tests
tests_lem = record {
  holds-no_restriction = λ x. refl;
  holds-literal = λ b x. refl;
  holds-id_in = λ ids x. refl;
  holds-created_since = λ t x. refl;
  holds-modified_since = λ t x. refl;
  holds-belongs_to_group = λ id x. refl;
  holds-has_member = λ id x. refl;
  holds-all_of_nil = λ x. refl;
  holds-all_of = λ c cs x. refl;
  holds-any_of_nil = λ x. refl;
  holds-any_of = λ c cs x. refl;
}

abbrev own : Text
own = codes "tracker"

-- The one detail of the schema has no field.
abbrev builder : Builder (Contact → Bool)
builder = record {
  contact_type = codes "Contact";
  fields = λ name. none;
  manager_uri = own;
  field_condition = λ d. bound (λ x. x.1 == d.match_flags);
}

abbrev canonical : Filter → Filter
canonical f = f

-- The contacts 3 and 4 that are in the group 9, or were made since 100.
abbrev sample : Filter
sample = union_filter (
    add_filter
      (intersection_filter (
        add_filter (local_id_filter (3 ∷ 4 ∷ []))
          (add_filter (relationship_filter has_member_type own 9 first_role) no_filters)))
      (add_filter (change_log_filter event_added 100) no_filters))

abbrev contact : Contact
contact = (4, 7, 9 ∷ [])

depth-sample : depth sample ≤ 3
unfolding depth
depth-sample = omega arith

bind_filter_lem_example :
    (r : Bind (Contact → Bool)) × (bind_filter tests builder canonical 3 sample ≡ some r)
    × Right tests contact (bindable builder sample) (matches tests builder contact sample) r
bind_filter_lem_example =
    bind_filter_lem tests tests_lem builder contact canonical (λ f. refl) (λ f h. h)
      (λ f. omega arith) (λ name fields h. absurd (ground (arith, h))) 3 sample depth-sample

in_group : matches tests builder contact sample ≡ true
unfolding matches
in_group = refl

abbrev bound_id : Contact → Bool
bound_id x = any (λ id. id == x.0) (4 ∷ [])

bound-is_filter_supported_example :
    is_filter_supported canonical 1 (local_id_filter (4 ∷ [])) ≡ some true
unfolding bind_filter bind_canonical bind_local_ids
bound-is_filter_supported_example =
    bound-is_filter_supported tests builder canonical 1 (local_id_filter (4 ∷ [])) bound_id refl

abbrev removed : Filter
removed = change_log_filter event_removed 5

abbrev assistants : Filter
assistants = relationship_filter (codes "HasAssistant") own 9 either_role

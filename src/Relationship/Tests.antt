-- ===== src/Relationship/Tests.antt =====
-- src/engine/relationship*request.cpp: the theorems at concrete relationships.
use qtcontacts_tracker.Base.{
  ℕ, ◌≡◌, refl, true, Text, nat_eq, List, [], ◌∷◌, some, none, codes, lookup,
}
use qtcontacts_tracker.Request.{init, Answer, answers, invalid_relationship_error}
use qtcontacts_tracker.Relationship.{ContactId, Relationship, Membership, Wanted, Row, save}
use qtcontacts_tracker.Relationship.Verdicts.{save_lem}

abbrev member : Text
member = codes "HasMember"

abbrev uri : Text
uri = codes "tracker"

abbrev in_group : ℕ → Text → Relationship
in_group id manager = record {
  kind = member;
  first = record { manager_uri = uri; local_id = 1 };
  second = record { manager_uri = manager; local_id = id };
}

abbrev done : List Membership → Answer (Unit {0})
done qs = answers tt

abbrev rows : Wanted → Answer (List Row)
rows w = answers ((some 1, some 2) ∷ (some 1, none) ∷ [])

abbrev nobody : ContactId
nobody = record { manager_uri = []; local_id = 0 }

save_lem_example :
    let b = (save member uri true done init (in_group 2 [] ∷ in_group 1 uri ∷ [])).1 in
    (b.queries ≡ record { member = 2; group = 1 } ∷ [])
    × (lookup 1 b.error_map ≡ some invalid_relationship_error)
unfolding init
save_lem_example =
    save_lem member uri true done 1 init (in_group 2 [] ∷ in_group 1 uri ∷ []) refl refl

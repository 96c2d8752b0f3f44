-- ===== src/Listener/Tests.antt =====
-- src/lib/trackerchangelistener.cpp: the theorems at concrete notifications.
use qtcontacts_tracker.Base.{ℕ, ◌≡◌, true, false, List, [], ◌∷◌}
use qtcontacts_tracker.Listener.{
  Quad, TrackerIds, ignore_presence_changes, is_tagged, contains, process_notifications,
}
use qtcontacts_tracker.Listener.Classify.{process_notifications_lem}

abbrev ids : TrackerIds
ids = record {
  belongs_to_group = 1;
  contact_local_uid = 2;
  rdf_type = 3;
  content_last_modified = 4;
  graph = 5;
  contact_classes = 6 ∷ [];
}

-- Contact 9 in the graph of contactsd, 7.
abbrev typed : Quad
typed = record { graph = 7; subject = 9; predicate = 3; object = 6 }

abbrev named : Quad
named = record { graph = 7; subject = 9; predicate = 8; object = 10 }

abbrev presence : Quad
presence = record { graph = 7; subject = 9; predicate = 4; object = 10 }

process_notifications_example :
    let s = process_notifications ids ignore_presence_changes true (named ∷ presence ∷ []) [] in
    (contains s.additions_or_removals 9 ≡ false)
    × (contains s.relationship_changes 9 ≡ false)
    × (contains s.property_changes 9 ≡ false)
unfolding is_tagged contains
process_notifications_example =
    process_notifications_lem ids ignore_presence_changes true (named ∷ presence ∷ []) [] 9

abbrev resolved_ids : List ℕ
resolved_ids = 1 ∷ 2 ∷ 3 ∷ 4 ∷ 5 ∷ 6 ∷ []

-- ===== src/Presence/Tests.antt =====
-- src/lib/presenceutils.cpp: the theorems at concrete contacts.
use qtcontacts_tracker.Base.{ℕ, codes, List, [], ◌∷◌, none, some}
use qtcontacts_tracker.Presence.{PresenceState, available, away, Presence, Best}

abbrev account : ℕ → PresenceState → ℕ → Presence
account uri state timestamp = record {
  uri = uri ∷ [];
  state = some state;
  timestamp = some timestamp;
  nickname = some (codes "The Dude");
  custom_message = none;
  state_text = none;
  image_url = none;
}

abbrev accounts : List Presence
accounts = account 1 away 5 ∷ account 2 available 3 ∷ []

abbrev picked : Best
picked = record { most_available = account 2 available 3; most_recent = account 1 away 5 }

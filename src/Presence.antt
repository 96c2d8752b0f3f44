-- ===== src/Presence.antt =====
-- src/lib/presenceutils.cpp: the global presence of a contact, from its presence details.
--
-- A field of a detail is an optional value, `none` where its `QVariant` is null. A timestamp is a
-- number of milliseconds; a null timestamp reads as the invalid date, before every valid one.
use qtcontacts_tracker.Base.{
  ℕ, suc, Bool, true, false, ltb, ◌==◌, if◌then◌else◌, Text, list_beq, nat_eq, List, [], ◌∷◌,
  Option, none, some, or_else,
}
pub mod Choice
pub mod Global
mod Tests

pub data PresenceState : Type 0 where
  unknown available hidden busy away extended_away offline : PresenceState

-- `qctAvailabilityRank`.
unfoldable pub availability_rank : PresenceState → ℕ
availability_rank unknown = 0
availability_rank hidden = 1
availability_rank offline = 1
availability_rank away = 2
availability_rank extended_away = 2
availability_rank busy = 3
availability_rank available = 4

pub record Presence : Type 0 where
  pub uri : Text
  pub state : Option PresenceState
  pub timestamp : Option ℕ
  pub nickname : Option Text
  pub custom_message : Option Text
  pub state_text : Option Text
  pub image_url : Option Text

-- `timestamp()`, and the rank of `presenceState()`, which is unknown where it is null.
abbrev pub time_of : Presence → ℕ
time_of d = elim d.timestamp [ none ↦ 0 | some t ↦ suc t ]

abbrev pub rank_of : Presence → ℕ
rank_of d = elim d.state [ none ↦ availability_rank unknown | some s ↦ availability_rank s ]

-- The two details that the loop remembers.
pub record Best : Type 0 where
  pub most_available : Presence
  pub most_recent : Presence

abbrev pub recent_step : Presence → Best → Best
recent_step d b =
    if ltb (time_of b.most_recent) (time_of d) then record b { most_recent = d } else b

-- One turn of the loop.
unfoldable pub best_step : Presence → Best → Best
unfolding availability_rank
best_step d b = recent_step d (
    if ltb (rank_of b.most_available) (rank_of d)
    then record {
      most_available = d;
      most_recent = if time_of d == time_of b.most_recent then d else b.most_recent;
    }
    else b)

unfoldable pub best_from : Best → List Presence → Best
best_from b [] = b
best_from b (d ∷ ds) = best_from (best_step d b) ds

-- The loop goes through the first detail, with which it starts, as well.
unfoldable pub best : List Presence → Option Best
unfolding best_from
best [] = none
best (d ∷ ds) = some (best_from (record { most_available = d; most_recent = d }) (d ∷ ds))

-- The global presence detail of a contact.
pub record GlobalPresence : Type 0 where
  pub linked_uris : List Text
  pub nickname : Option Text
  pub timestamp : Option ℕ
  pub custom_message : Option Text
  pub state : Option PresenceState
  pub state_text : Option Text
  pub image_url : Option Text

abbrev pub empty_global : GlobalPresence
empty_global = record {
  linked_uris = [];
  nickname = none;
  timestamp = none;
  custom_message = none;
  state = none;
  state_text = none;
  image_url = none;
}

abbrev pub or_empty : Option GlobalPresence → GlobalPresence
or_empty none = empty_global
or_empty (some g) = g

-- A `QSet` of the two URIs.
abbrev pub linked : Best → List Text
linked b =
    if list_beq nat_eq b.most_recent.uri b.most_available.uri
    then b.most_recent.uri ∷ []
    else b.most_recent.uri ∷ b.most_available.uri ∷ []

-- `transfer` takes over a value that is not null.
abbrev pub transferred : Best → GlobalPresence → GlobalPresence
transferred b g = record {
  linked_uris = linked b;
  nickname = or_else b.most_recent.nickname g.nickname;
  timestamp = or_else b.most_recent.timestamp g.timestamp;
  custom_message = or_else b.most_recent.custom_message g.custom_message;
  state = or_else b.most_available.state g.state;
  state_text = or_else b.most_available.state_text g.state_text;
  image_url = or_else b.most_available.image_url g.image_url;
}

abbrev pub with_best : Option Best → Option GlobalPresence → Option GlobalPresence
with_best none global = none
with_best (some b) global = some (transferred b (or_empty global))

-- `qctUpdateGlobalPresence`: the contact's global presence afterwards, `none` where it is removed.
unfoldable pub update_global_presence :
    List Presence → Option GlobalPresence → Option GlobalPresence
unfolding best
update_global_presence ds global = with_best (best ds) global

-- ===== src/Settings/Tests.antt =====
-- src/lib/settings.cpp: the working copy at concrete inputs.
use qtcontacts_tracker.Base.{
  ℕ, if◌then◌else◌, Text, List, [], ◌∷◌, some, ◌≡◌, refl, nat_eq, text_eq, lookup, insert,
  same_text,
}
use qtcontacts_tracker.Settings.{
  Settings, value_of, value_or, set_value, on_stored_settings_changed, changed_loop,
}
use qtcontacts_tracker.Settings.Changed.{Unique, seen}
use qtcontacts_tracker.Settings.Replay.{
  Event, registered, written, file_changed, run, run-seen, set_value_lem,
}

abbrev avatar_size : Text
avatar_size = 65 ∷ []

abbrev name_order : Text
name_order = 66 ∷ []

abbrev two_settings : Settings ℕ
two_settings = record {
  stored_settings = [];
  local_settings = (avatar_size, 128) ∷ (name_order, 1) ∷ [];
  values_changed = [];
}

abbrev new_file : List (Text × ℕ) → List (Text × ℕ)
new_file stored = (name_order, 2) ∷ stored

two_settings-Unique : Unique two_settings.local_settings
unfolding lookup
two_settings-Unique = (refl, (refl, tt))

abbrev three_events : List (Event ℕ)
three_events = registered (67 ∷ []) 9 ∷ written avatar_size 64 ∷ file_changed new_file ∷ []

run-seen_example :
    (v' : ℕ) × (value_of avatar_size (run three_events two_settings) ≡ some v')
    × (seen avatar_size (some 128) ((run three_events two_settings).values_changed) ≡ some v')
unfolding value_of lookup
run-seen_example = run-seen avatar_size 128 three_events two_settings two_settings-Unique refl refl

set_value_lem_example :
    ((value_or avatar_size 5 (set_value avatar_size 64 two_settings)).1 ≡ some 64)
    × (lookup avatar_size ((set_value avatar_size 64 two_settings).stored_settings) ≡ some 64)
    × (value_of name_order (set_value avatar_size 64 two_settings)
        ≡ (if same_text avatar_size name_order then some 64 else value_of name_order two_settings))
set_value_lem_example = set_value_lem avatar_size name_order 64 5 two_settings

signals :
    (on_stored_settings_changed new_file two_settings).values_changed ≡ ((name_order, 2) ∷ []) ∷ []
unfolding on_stored_settings_changed changed_loop lookup insert
signals = refl

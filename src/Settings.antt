-- ===== src/Settings.antt =====
-- src/lib/settings.cpp and src/lib/settings_p.h: the working copy of the settings.
--
-- The values are of any type with an equality test. `QSettings::sync` is a parameter: it gives the
-- entries that the storage proxy has after it.
use qtcontacts_tracker.Base.{
  Bool, true, false, not, if◌then◌else◌, Text, List, [], ◌∷◌, ◌++◌, Option, none, some, Eq, text_eq,
  lookup, insert, is_empty,
}
mod Changed
pub mod Replay
mod Tests

-- The singleton: the storage proxy, the working copy, and the sets of changes that it signalled.
pub record Settings (V : Type 0) : Type 0 where
  pub stored_settings : List (Text × V)
  pub local_settings : List (Text × V)
  pub values_changed : List (List (Text × V))

module _ {V : Type 0} where
  -- `QSettings::value` with a default.
  abbrev pub stored_value : List (Text × V) → Text → V → V
  stored_value stored key value = elim (lookup key stored) [ none ↦ value | some v ↦ v ]

  -- `registerSetting`.
  unfoldable pub register_setting : Text → V → Settings V → Settings V
  register_setting key value s = elim (lookup key s.local_settings) [
    | some v ↦ s
    | none ↦ record s {
      local_settings = insert key (stored_value s.stored_settings key value) s.local_settings;
    }
  ]

  -- `setValue`.
  unfoldable pub set_value : Text → V → Settings V → Settings V
  set_value key value s = record {
    stored_settings = insert key value s.stored_settings;
    local_settings = insert key value s.local_settings;
    values_changed = s.values_changed ++ (insert key value [] ∷ []);
  }

  -- `QctSettings::value` without a default, and with one, which registers the setting.
  unfoldable pub value_of : Text → Settings V → Option V
  value_of key s = lookup key s.local_settings

  unfoldable pub value_or : Text → V → Settings V → Settings V × Option V
  value_or key value s = (register_setting key value s, value_of key (register_setting key value s))

module _ {V : Type 0} ⦃e : Eq V⦄ where
  -- The loop of `onStoredSettingsChanged`: the working copy, and the changes.
  unfoldable pub changed_loop :
      List (Text × V) → List (Text × V) → List (Text × V) → List (Text × V) × List (Text × V)
  changed_loop stored [] changed = ([], changed)
  changed_loop stored ((key, value) ∷ locals) changed =
      let value' = stored_value stored key value in
      let same = e.beq value' value in
      let rest = changed_loop stored locals (if same then changed else insert key value' changed) in
      ((key, if same then value else value') ∷ rest.0, rest.1)

  unfoldable pub on_stored_settings_changed :
      (List (Text × V) → List (Text × V)) → Settings V → Settings V
  on_stored_settings_changed sync s =
      let stored = sync s.stored_settings in
      let (locals, changed) = changed_loop stored s.local_settings [] in
      record {
        stored_settings = stored;
        local_settings = locals;
        values_changed =
            if is_empty changed then s.values_changed else s.values_changed ++ (changed ∷ []);
      }

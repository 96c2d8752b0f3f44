-- ===== src/Settings/Replay.antt =====
-- src/lib/settings.cpp: what those see who follow the signal `valuesChanged`.
use qtcontacts_tracker.Base.{
  if◌then◌else◌, Text, List, [], ◌∷◌, ◌++◌, Option, none, some, Eq, lookup, insert, is_empty, ◌≡◌,
  refl, arith, inl, inr, or_else, Option-cases, lookup-insert, lookup-insert_self, ap, text_eq,
  same_text, same_text_iff,
}
use qtcontacts_tracker.Settings.{
  Settings, stored_value, set_value, changed_loop, on_stored_settings_changed, register_setting,
  value_of, value_or,
}
use qtcontacts_tracker.Settings.Changed.{
  Unique, insert-Unique, seen, lookup-nil, seen-append, changed_loop_values, changed_loop-Unique,
  change, changed_loop_changes,
}

-- What happens to the settings: someone registers one, sets one, or the file changes.
pub data Event (V : Type 0) : Type 0 where
  registered : Text → V → Event V
  written : Text → V → Event V
  file_changed : (List (Text × V) → List (Text × V)) → Event V

module _ {V : Type 0} ⦃e : Eq V⦄ where
  abbrev pub step : Event V → Settings V → Settings V
  step (registered key value) s = register_setting key value s
  step (written key value) s = set_value key value s
  step (file_changed sync) s = on_stored_settings_changed sync s

  abbrev pub run : List (Event V) → Settings V → Settings V
  run [] s = s
  run (event ∷ events) s = run events (step event s)

  -- The listener's value for a key is the one in the working copy.
  abbrev pub InStep : Text → Option V → Settings V → Type 0
  InStep j v₀ s =
      Unique s.local_settings
      × (v : V) × (lookup j s.local_settings ≡ some v)
      × (seen j v₀ s.values_changed ≡ some v)

  register_setting-InStep :
      (j : Text) (v₀ : Option V) (key : Text) (value : V) (s : Settings V)
      → InStep j v₀ s
      → InStep j v₀ (register_setting key value s)
  unfolding register_setting
  register_setting-InStep j v₀ key value s (u, v, e, e') =
      elim (Option-cases (lookup key s.local_settings)) [
        | inl h ↦
            let value' = stored_value s.stored_settings key value in
            rw (register_setting, h)
              (
                insert-Unique key value' s.local_settings u,
                v,
                ground
                    (arith, lookup-insert key j value' s.local_settings, h, e, same_text_iff key j),
                e',
              )
        | inr (w, h) ↦ rw (register_setting, h) (u, v, e, e')
      ]

  set_value-InStep :
      (j : Text) (v₀ : Option V) (key : Text) (value : V) (s : Settings V)
      → InStep j v₀ s
      → InStep j v₀ (set_value key value s)
  unfolding set_value
  set_value-InStep j v₀ key value s (u, v, e, e') = (
    insert-Unique key value s.local_settings u,
    (if same_text key j then value else v),
    ground (arith, lookup-insert key j value s.local_settings, e),
    ground (
      arith,
      seen-append j v₀ s.values_changed (insert key value []),
      lookup-insert key j value [],
      lookup-nil {V = V} j,
      e',
    ),
  )

  seen_now :
      (j : Text) (v₀ : Option V) (before : List (List (Text × V))) (changed : List (Text × V))
      (v v' : V)
      → lookup j changed ≡ (if e.beq v' v then none else some v')
      → seen j v₀ before ≡ some v
      → seen j v₀ (if is_empty changed then before else before ++ (changed ∷ [])) ≡ some v'
  seen_now j v₀ before [] v v' h e' = ground (arith, h, e', e.beq_iff v' v, lookup-nil {V = V} j)
  seen_now j v₀ before (c ∷ cs) v v' h e' =
      ground (arith, h, e', e.beq_iff v' v, seen-append j v₀ before (c ∷ cs))

  changed-InStep :
      (j : Text) (v₀ : Option V) (sync : List (Text × V) → List (Text × V)) (s : Settings V)
      → InStep j v₀ s
      → InStep j v₀ (on_stored_settings_changed sync s)
  unfolding on_stored_settings_changed
  changed-InStep j v₀ sync s (u, v, e, e') =
      let stored = sync s.stored_settings in
      let changed = (changed_loop stored s.local_settings []).1 in
      let value' = stored_value stored j v in
      let now : lookup j ((changed_loop stored s.local_settings []).0) ≡ some value' =
        ground (arith, changed_loop_values stored s.local_settings [] j, e) in
      let news : lookup j changed ≡ or_else (change stored j (some v)) none =
        ground
          (arith, changed_loop_changes stored s.local_settings [] j u, lookup-nil {V = V} j, e) in
      (
        changed_loop-Unique stored s.local_settings [] u,
        value',
        now,
        seen_now j v₀ s.values_changed changed v value' (ground (arith, news)) e',
      )

  run-InStep :
      (j : Text) (v₀ : Option V) (events : List (Event V)) (s : Settings V)
      → InStep j v₀ s
      → InStep j v₀ (run events s)
  run-InStep j v₀ [] s i = i
  run-InStep j v₀ (registered key value ∷ events) s i =
      run-InStep j v₀ events (register_setting key value s)
        (register_setting-InStep j v₀ key value s i)
  run-InStep j v₀ (written key value ∷ events) s i =
      run-InStep j v₀ events (set_value key value s) (set_value-InStep j v₀ key value s i)
  run-InStep j v₀ (file_changed sync ∷ events) s i =
      run-InStep j v₀ events (on_stored_settings_changed sync s) (changed-InStep j v₀ sync s i)

  -- Someone who knows the value of a registered setting and then only follows the signal
  -- `valuesChanged` knows its value in the working copy after any registrations, writes and changes
  -- of the file, and the setting stays registered. The condition: in the working copy no key stands
  -- twice, and no signal has been sent yet.
  pub run-seen :
      (j : Text) (v : V) (events : List (Event V)) (s : Settings V)
      → Unique s.local_settings
      → s.values_changed ≡ []
      → value_of j s ≡ some v
      → (v' : V) × (value_of j (run events s) ≡ some v')
        × (seen j (some v) ((run events s).values_changed) ≡ some v')
  unfolding value_of
  run-seen j v events s u n h =
      let start : InStep j (some v) s = (u, v, h, ground (arith, ap (seen j (some v)) n)) in
      let (_, v', now, same) = run-InStep j (some v) events s start in (v', now, same)

  -- After the file changed, the working copy has for each registered setting the stored value, or
  -- its old value if none is stored. The signal is sent exactly once, with the settings that
  -- differ and their new values, or not at all if none differs; the condition: no key stands twice.
  pub on_stored_settings_changed_lem :
      (sync : List (Text × V) → List (Text × V)) (s : Settings V) (j : Text) (v : V)
      → Unique s.local_settings
      → value_of j s ≡ some v
      → let s' = on_stored_settings_changed sync s in
        (changed : List (Text × V)) × (value_of j s' ≡ some (stored_value s'.stored_settings j v))
        × (lookup j changed ≡ change s'.stored_settings j (some v))
        × (s'.values_changed
            ≡ (if is_empty changed then s.values_changed else s.values_changed ++ (changed ∷ [])))
  unfolding value_of on_stored_settings_changed
  on_stored_settings_changed_lem sync s j v u h =
      let stored = sync s.stored_settings in
      (
        (changed_loop stored s.local_settings []).1,
        ground (arith, changed_loop_values stored s.local_settings [] j, h),
        ground
            (arith, changed_loop_changes stored s.local_settings [] j u, h, lookup-nil {V = V} j),
        refl,
      )

  register_known :
      (key : Text) (value w : V) (s : Settings V)
      → lookup key s.local_settings ≡ some w
      → lookup key ((register_setting key value s).local_settings) ≡ some w
  unfolding register_setting
  register_known key value w s h = ground (arith, h)

  -- A value that was set is read back, whatever default is given; other settings keep theirs, and
  -- the storage has the same value.
  pub set_value_lem :
      (key j : Text) (value default : V) (s : Settings V)
      → ((value_or key default (set_value key value s)).1 ≡ some value)
        × (lookup key ((set_value key value s).stored_settings) ≡ some value)
        × (value_of j (set_value key value s)
            ≡ (if same_text key j then some value else value_of j s))
  unfolding value_or value_of set_value
  set_value_lem key j value default s = (
    register_known key default value (set_value key value s)
        (lookup-insert_self key value s.local_settings),
    lookup-insert_self key value s.stored_settings,
    lookup-insert key j value s.local_settings,
  )

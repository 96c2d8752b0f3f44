-- ===== src/Settings/Changed.antt =====
-- src/lib/settings.cpp: what the loop over the working copy leaves and signals.
use qtcontacts_tracker.Base.{
  if◌then◌else◌, Text, List, [], ◌∷◌, ◌++◌, Option, none, some, Eq, lookup, insert, ◌≡◌, refl,
  arith, Bool-cases, inl, inr, or_else, lookup-insert, text_eq, same_text, same_text_iff,
}
use mathlib.Core.Path.{subst}
use qtcontacts_tracker.Settings.{stored_value, changed_loop}

module _ {V : Type 0} where
  -- No key stands twice in the working copy.
  abbrev pub Unique : List (Text × V) → Type 0
  Unique [] = Unit {0}
  Unique ((k, v) ∷ m) = (lookup k m ≡ none) × Unique m

  pub insert-Unique : (k : Text) (v : V) (m : List (Text × V)) → Unique m → Unique (insert k v m)
  unfolding insert lookup
  insert-Unique k v [] u = (refl, tt)
  insert-Unique k v ((j, w) ∷ m) u = elim (Bool-cases (same_text j k)) [
    | inl h ↦ rw h (subst (λ (x : Text). lookup x m ≡ none) ((same_text_iff j k).0 h) u.0, u.1)
    | inr h ↦ rw h (
      ground (arith, lookup-insert k j v m, u.0, h, same_text_iff j k, same_text_iff k j),
      insert-Unique k v m u.1,
    )
  ]

  -- The value of a key for someone who had `v` and then received the sets of changes.
  abbrev pub seen : Text → Option V → List (List (Text × V)) → Option V
  seen j v [] = v
  seen j v (c ∷ cs) = seen j (or_else (lookup j c) v) cs

  pub lookup-nil : (j : Text) → lookup {V = V} j [] ≡ none
  unfolding lookup
  lookup-nil j = refl

  pub seen-append :
      (j : Text) (v : Option V) (cs : List (List (Text × V))) (c : List (Text × V))
      → seen j v (cs ++ (c ∷ [])) ≡ or_else (lookup j c) (seen j v cs)
  seen-append j v [] c = refl
  seen-append j v (d ∷ cs) c = seen-append j (or_else (lookup j d) v) cs c

  abbrev new_value : List (Text × V) → Text → Option V → Option V
  new_value stored j none = none
  new_value stored j (some v) = some (stored_value stored j v)

module _ {V : Type 0} ⦃e : Eq V⦄ where
  pub changed_loop_values :
      (stored locals changed : List (Text × V)) (j : Text)
      → lookup j ((changed_loop stored locals changed).0) ≡ new_value stored j (lookup j locals)
  unfolding changed_loop lookup
  changed_loop_values stored [] changed j = refl
  changed_loop_values stored ((k, v) ∷ m) changed j =
      let value' = stored_value stored k v in
      let same = e.beq value' v in
      ground (
        arith,
        same_text_iff k j,
        e.beq_iff value' v,
        changed_loop_values stored m (if same then changed else insert k value' changed) j,
      )

  pub changed_loop-Unique :
      (stored locals changed : List (Text × V))
      → Unique locals
      → Unique ((changed_loop stored locals changed).0)
  unfolding changed_loop
  changed_loop-Unique stored [] changed u = tt
  changed_loop-Unique stored ((k, v) ∷ m) changed u =
      let value' = stored_value stored k v in
      let changed' = if e.beq value' v then changed else insert k value' changed in
      (
        ground (arith, changed_loop_values stored m changed' k, u.0),
        changed_loop-Unique stored m changed' u.1,
      )

  -- What `onStoredSettingsChanged` signals for a key: its new value, if that differs.
  abbrev pub change : List (Text × V) → Text → Option V → Option V
  change stored j none = none
  change stored j (some v) =
      if e.beq (stored_value stored j v) v then none else some (stored_value stored j v)

  pub changed_loop_changes :
      (stored locals changed : List (Text × V)) (j : Text)
      → Unique locals
      → lookup j ((changed_loop stored locals changed).1)
        ≡ or_else (change stored j (lookup j locals)) (lookup j changed)
  unfolding changed_loop lookup
  changed_loop_changes stored [] changed j u = refl
  changed_loop_changes stored ((k, v) ∷ m) changed j u =
      let value' = stored_value stored k v in
      let changed' = if e.beq value' v then changed else insert k value' changed in
      ground (
        arith,
        changed_loop_changes stored m changed' j u.1,
        u.0,
        lookup-insert k j value' changed,
        same_text_iff k j,
      )

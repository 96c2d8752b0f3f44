-- ===== src/Listener/Signals.antt =====
-- src/lib/trackerchangelistener.cpp: what the signals tell of a contact.
use qtcontacts_tracker.Base.{
  ℕ, ◌≡◌, refl, ap, ◌∙◌, Bool, true, false, not, ◌&&◌, ◌||◌, List, [], ◌∷◌, ◌++◌, any,
}
use mathlib.Core.Path.{ap₂}
use mathlib.Core.List.{append-nil}
use qtcontacts_tracker.Listener.{
  Quad, TrackerIds, ChangeFilterMode, all_changes, Signal, contacts_added, contacts_changed,
  contacts_removed, relationships_added, relationships_removed, contains, emit_unless_empty,
  queued_signals, process_notifications,
}
use qtcontacts_tracker.Listener.Classify.{
  is_class_change, is_property_change, passes, contains_nil, process_notifications_lem,
}

-- The contacts that the signals call added, changed and removed, and those in relationships.
abbrev pub added_in : List Signal → List ℕ
added_in [] = []
added_in (contacts_added ids ∷ ss) = ids ++ added_in ss
added_in (_ ∷ ss) = added_in ss

abbrev pub changed_in : List Signal → List ℕ
changed_in [] = []
changed_in (contacts_changed ids ∷ ss) = ids ++ changed_in ss
changed_in (_ ∷ ss) = changed_in ss

abbrev pub removed_in : List Signal → List ℕ
removed_in [] = []
removed_in (contacts_removed ids ∷ ss) = ids ++ removed_in ss
removed_in (_ ∷ ss) = removed_in ss

abbrev emitted : List ℕ → List ℕ → List ℕ → List ℕ → List ℕ → List Signal
emitted a c r s t =
    emit_unless_empty contacts_added a
    ++ (emit_unless_empty contacts_changed c
        ++ (emit_unless_empty contacts_removed r
            ++ (emit_unless_empty relationships_added s
                ++ emit_unless_empty relationships_removed t)))

no_relationships :
    (s t : List ℕ)
    → let ss =
        emit_unless_empty relationships_added s ++ emit_unless_empty relationships_removed t in
      (added_in ss ≡ []) × (changed_in ss ≡ []) × (removed_in ss ≡ [])
no_relationships [] [] = (refl, refl, refl)
no_relationships [] (x ∷ t) = (refl, refl, refl)
no_relationships (x ∷ s) [] = (refl, refl, refl)
no_relationships (x ∷ s) (y ∷ t) = (refl, refl, refl)

removed_lem :
    (r : List ℕ) (ss : List Signal)
    → (added_in ss ≡ []) × (changed_in ss ≡ []) × (removed_in ss ≡ [])
    → let ss' = emit_unless_empty contacts_removed r ++ ss in
      (added_in ss' ≡ []) × (changed_in ss' ≡ []) × (removed_in ss' ≡ r)
removed_lem [] ss h = h
removed_lem (x ∷ r) ss h = (h.0, h.1, ap (λ ids. x ∷ r ++ ids) h.2 ∙ append-nil (x ∷ r))

changed_lem :
    (c r : List ℕ) (ss : List Signal)
    → (added_in ss ≡ []) × (changed_in ss ≡ []) × (removed_in ss ≡ r)
    → let ss' = emit_unless_empty contacts_changed c ++ ss in
      (added_in ss' ≡ []) × (changed_in ss' ≡ c) × (removed_in ss' ≡ r)
changed_lem [] r ss h = h
changed_lem (x ∷ c) r ss h = (h.0, ap (λ ids. x ∷ c ++ ids) h.1 ∙ append-nil (x ∷ c), h.2)

added_lem :
    (a c r : List ℕ) (ss : List Signal)
    → (added_in ss ≡ []) × (changed_in ss ≡ c) × (removed_in ss ≡ r)
    → let ss' = emit_unless_empty contacts_added a ++ ss in
      (added_in ss' ≡ a) × (changed_in ss' ≡ c) × (removed_in ss' ≡ r)
added_lem [] c r ss h = h
added_lem (x ∷ a) c r ss h = (ap (λ ids. x ∷ a ++ ids) h.0 ∙ append-nil (x ∷ a), h.1, h.2)

emitted_lem :
    (a c r s t : List ℕ)
    → (added_in (emitted a c r s t) ≡ a)
      × (changed_in (emitted a c r s t) ≡ c)
      × (removed_in (emitted a c r s t) ≡ r)
emitted_lem a c r s t =
    added_lem a c r _ (changed_lem c r _ (removed_lem r _ (no_relationships s t)))

or_true : (b : Bool) → (b || true) ≡ true
or_true true = refl
or_true false = refl

module _ (ids : TrackerIds) (mode : ChangeFilterMode) (deletes inserts : List Quad) (x : ℕ) where
  -- Whether a change of the contact's properties is left after the deletions.
  abbrev pub changed_by_deletes : Bool
  changed_by_deletes =
      passes ids mode false false x deletes && not (any (is_class_change ids mode false x) deletes)

  -- The signals call a contact added exactly if an insertion gives it a watched class, removed
  -- exactly if a deletion takes one from it, and changed exactly if a change of its properties
  -- passes the filter and no insertion gives it a watched class.
  pub queued_signals_lem :
      let ss = queued_signals ids mode deletes inserts in
      (contains (added_in ss) x ≡ any (is_class_change ids mode true x) inserts)
      × (contains (removed_in ss) x ≡ any (is_class_change ids mode false x) deletes)
      × (contains (changed_in ss) x ≡ (
          passes ids mode true changed_by_deletes x inserts
          && not (any (is_class_change ids mode true x) inserts)))
  unfolding queued_signals
  queued_signals_lem =
      let removed = process_notifications ids mode false deletes [] in
      let added = process_notifications ids mode true inserts removed.property_changes in
      let del = process_notifications_lem ids mode false deletes [] x in
      let ins = process_notifications_lem ids mode true inserts removed.property_changes x in
      let sets =
        emitted_lem added.additions_or_removals added.property_changes removed.additions_or_removals
          added.relationship_changes removed.relationship_changes in
      (
        ap (λ s. contains s x) sets.0 ∙ ins.0,
        ap (λ s. contains s x) sets.2 ∙ del.0,
        ap (λ s. contains s x) sets.1
            ∙ ins.2
            ∙ ap
                (λ b.
                  passes ids mode true b x inserts
                  && not (any (is_class_change ids mode true x) inserts))
                (del.2
                  ∙ ap
                      (λ b.
                        passes ids mode false b x deletes
                        && not (any (is_class_change ids mode false x) deletes))
                      (contains_nil x)),
      )

-- Without a filter, a contact that a deletion takes from a watched class and of which an insertion
-- changes another property, with no insertion that gives it a class, is called both removed and
-- changed.
pub removed_and_changed :
    (ids : TrackerIds) (deletes inserts : List Quad) (x : ℕ)
    → any (is_class_change ids all_changes false x) deletes ≡ true
    → any (is_property_change ids all_changes true x) inserts ≡ true
    → any (is_class_change ids all_changes true x) inserts ≡ false
    → let ss = queued_signals ids all_changes deletes inserts in
      (contains (removed_in ss) x ≡ true) × (contains (changed_in ss) x ≡ true)
removed_and_changed ids deletes inserts x gone changed kept =
    let lem = queued_signals_lem ids all_changes deletes inserts x in
    (
      lem.1 ∙ gone,
      lem.2
          ∙ ap₂ (λ a b. a && not b)
              (ap (◌||◌ (changed_by_deletes ids all_changes deletes inserts x)) changed
                ∙ or_true (changed_by_deletes ids all_changes deletes inserts x))
              kept,
    )

-- ===== src/Listener/Classify.antt =====
-- src/lib/trackerchangelistener.cpp: which notifications concern which contacts.
use qtcontacts_tracker.Base.{
  ℕ, ◌≡◌, refl, sym, ap, ◌∙◌, Bool, false, not, ◌&&◌, ◌||◌, ◌==◌, List, [], ◌∷◌, any, select, arith,
}
use mathlib.Core.Path.{ap₂}
use qtcontacts_tracker.Listener.{
  Quad, TrackerIds, ChangeFilterMode, all_changes, ignore_presence_changes, only_presence_changes,
  is_tagged, Changes, contains, add, subtract, process_quad, process_quads, process_notifications,
  filter_changes,
}

same_any : (ids : List ℕ) (id x : ℕ) → x ≡ id → any (◌==◌ id) ids ≡ any (◌==◌ x) ids
same_any ids id x e = rw e

contains-select :
    (p : ℕ → Bool) (ids : List ℕ) (x : ℕ) → any (◌==◌ x) (select p ids) ≡ (any (◌==◌ x) ids && p x)
contains-select p [] x = refl
contains-select p (y ∷ ids) x = ground (arith, contains-select p ids x, same p x y)
  where
    same : (p : ℕ → Bool) (x y : ℕ) → x ≡ y → p x ≡ p y
    same p x y e = rw e

pub contains-add : (ids : List ℕ) (id x : ℕ) → contains (add ids id) x ≡ (contains ids x || x == id)
unfolding contains add
contains-add ids id x = ground (arith, same_any ids id x)

pub contains-subtract :
    (ids other : List ℕ) (x : ℕ)
    → contains (subtract ids other) x ≡ (contains ids x && not (contains other x))
unfolding contains subtract
contains-subtract ids other x = contains-select (λ id. not (any (◌==◌ id) other)) ids x

pub contains_nil : (x : ℕ) → contains [] x ≡ false
unfolding contains
contains_nil x = refl

join : (a b c : Bool) {d : Bool} → d ≡ (a || b) → (d || c) ≡ (a || (b || c))
join a b c e = ground arith

or_false : (a : Bool) → (a || false) ≡ a
or_false a = ground arith

contains-filter_changes :
    (mode : ChangeFilterMode) (s : Changes) (x : ℕ) {props presence : Bool}
    → contains s.property_changes x ≡ props
    → contains s.presence_changed x ≡ presence
    → contains (filter_changes mode s) x ≡ (elim mode [
      | all_changes ↦ props
      | ignore_presence_changes ↦ props && not presence
      | only_presence_changes ↦ presence
    ])
unfolding filter_changes
contains-filter_changes all_changes s x e f = e
contains-filter_changes ignore_presence_changes s x e f =
    contains-subtract s.property_changes s.presence_changed x ∙ ap₂ (λ a b. a && not b) e f
contains-filter_changes only_presence_changes s x e f = f

module _ (ids : TrackerIds) (mode : ChangeFilterMode) (match_tagged : Bool) where
  -- The notification says that the contact gets or loses one of the watched classes.
  abbrev pub is_class_change : ℕ → Quad → Bool
  is_class_change x q =
      not (is_tagged ids mode match_tagged q)
      && (ids.rdf_type == q.predicate && (contains ids.contact_classes q.object && x == q.subject))

  -- It says that the contact is a member or the group of a membership.
  abbrev pub is_membership_change : ℕ → Quad → Bool
  is_membership_change x q =
      not (is_tagged ids mode match_tagged q)
      && (not (ids.rdf_type == q.predicate)
          && (ids.belongs_to_group == q.predicate && (x == q.subject || x == q.object)))

  -- It is about any other property of the contact but its local UID.
  abbrev pub is_property_change : ℕ → Quad → Bool
  is_property_change x q =
      not (is_tagged ids mode match_tagged q)
      && (not (ids.rdf_type == q.predicate)
          && (not (ids.belongs_to_group == q.predicate)
              && (not (ids.contact_local_uid == q.predicate) && x == q.subject)))

  -- It is tagged as a change of the contact's presence.
  abbrev pub is_presence_change : ℕ → Quad → Bool
  is_presence_change x q = is_tagged ids mode match_tagged q && x == q.subject

  -- What one notification adds to the sets.
  record Adds (x : ℕ) (q : Quad) (s s' : Changes) : Type 0 where
    pub class_change :
        contains s'.additions_or_removals x
        ≡ (contains s.additions_or_removals x || is_class_change x q)
    pub membership_change :
        contains s'.relationship_changes x
        ≡ (contains s.relationship_changes x || is_membership_change x q)
    pub property_change :
        contains s'.property_changes x ≡ (contains s.property_changes x || is_property_change x q)
    pub presence_change :
        contains s'.presence_changed x ≡ (contains s.presence_changed x || is_presence_change x q)

  process_quad-Adds :
      (x : ℕ) (q : Quad) (s : Changes) → Adds x q s (process_quad ids mode match_tagged q s)
  unfolding process_quad
  process_quad-Adds x q s = ground (
    arith,
    contains-add s.additions_or_removals q.subject x,
    contains-add s.relationship_changes q.subject x,
    contains-add (add s.relationship_changes q.subject) q.object x,
    contains-add s.property_changes q.subject x,
    contains-add s.presence_changed q.subject x,
  )

  -- What a list of notifications adds to the sets.
  record AddsAll (x : ℕ) (qs : List Quad) (s s' : Changes) : Type 0 where
    class_changes :
        contains s'.additions_or_removals x
        ≡ (contains s.additions_or_removals x || any (is_class_change x) qs)
    membership_changes :
        contains s'.relationship_changes x
        ≡ (contains s.relationship_changes x || any (is_membership_change x) qs)
    property_changes :
        contains s'.property_changes x
        ≡ (contains s.property_changes x || any (is_property_change x) qs)
    presence_changes :
        contains s'.presence_changed x
        ≡ (contains s.presence_changed x || any (is_presence_change x) qs)

  AddsAll-cons :
      (x : ℕ) (q : Quad) (qs : List Quad) (s t u : Changes)
      → Adds x q s t
      → AddsAll x qs t u
      → AddsAll x (q ∷ qs) s u
  AddsAll-cons x q qs s t u a b = record {
    class_changes =
        b.class_changes
        ∙ join (contains s.additions_or_removals x) (is_class_change x q)
            (any (is_class_change x) qs) a.class_change;
    membership_changes =
        b.membership_changes
        ∙ join (contains s.relationship_changes x) (is_membership_change x q)
            (any (is_membership_change x) qs) a.membership_change;
    property_changes =
        b.property_changes
        ∙ join (contains s.property_changes x) (is_property_change x q)
            (any (is_property_change x) qs) a.property_change;
    presence_changes =
        b.presence_changes
        ∙ join (contains s.presence_changed x) (is_presence_change x q)
            (any (is_presence_change x) qs) a.presence_change;
  }

  process_quads-AddsAll :
      (x : ℕ) (qs : List Quad) (s : Changes)
      → AddsAll x qs s (process_quads ids mode match_tagged qs s)
  unfolding process_quads
  process_quads-AddsAll x [] s = record {
    class_changes = sym (or_false (contains s.additions_or_removals x));
    membership_changes = sym (or_false (contains s.relationship_changes x));
    property_changes = sym (or_false (contains s.property_changes x));
    presence_changes = sym (or_false (contains s.presence_changed x));
  }
  process_quads-AddsAll x (q ∷ qs) s =
      AddsAll-cons x q qs s (process_quad ids mode match_tagged q s) _ (process_quad-Adds x q s)
        (process_quads-AddsAll x qs (process_quad ids mode match_tagged q s))

  -- Whether a change of the contact's properties is left after the filter, when `before` says
  -- whether there was one before these notifications.
  abbrev pub passes : Bool → ℕ → List Quad → Bool
  passes before x qs = elim mode [
    | all_changes ↦ before || any (is_property_change x) qs
    | ignore_presence_changes ↦
        (before || any (is_property_change x) qs) && not (any (is_presence_change x) qs)
    | only_presence_changes ↦ any (is_presence_change x) qs
  ]

  -- Processing a queue of notifications reports a contact as added or removed exactly if a
  -- notification says so, as related likewise, and as changed exactly if a change passes the filter
  -- and the contact is not among those added or removed.
  pub process_notifications_lem :
      (qs : List Quad) (changed : List ℕ) (x : ℕ)
      → let s = process_notifications ids mode match_tagged qs changed in
        (contains s.additions_or_removals x ≡ any (is_class_change x) qs)
        × (contains s.relationship_changes x ≡ any (is_membership_change x) qs)
        × (contains s.property_changes x
            ≡ (passes (contains changed x) x qs && not (any (is_class_change x) qs)))
  unfolding process_notifications
  process_notifications_lem qs changed x =
      let start : Changes = record {
        additions_or_removals = [];
        relationship_changes = [];
        property_changes = changed;
        presence_changed = [];
      } in
      let s = process_quads ids mode match_tagged qs start in
      let all = process_quads-AddsAll x qs start in
      let nothing = contains_nil x in
      let class_change : contains s.additions_or_removals x ≡ any (is_class_change x) qs =
        all.class_changes ∙ ap (λ b. b || any (is_class_change x) qs) nothing in
      let membership_change : contains s.relationship_changes x ≡ any (is_membership_change x) qs =
        all.membership_changes ∙ ap (λ b. b || any (is_membership_change x) qs) nothing in
      let presence_change : contains s.presence_changed x ≡ any (is_presence_change x) qs =
        all.presence_changes ∙ ap (λ b. b || any (is_presence_change x) qs) nothing in
      (
        class_change,
        membership_change,
        contains-subtract (filter_changes mode s) s.additions_or_removals x
            ∙ ap₂ (λ a b. a && not b)
                (contains-filter_changes mode s x all.property_changes presence_change)
                class_change,
      )

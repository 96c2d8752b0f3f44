-- ===== src/Listener.antt =====
-- src/lib/trackerchangelistener.cpp: change signals of Tracker become signals about contacts.
--
-- The listener runs in one thread, so each slot is a step. Its resolver's result, the notifications
-- and the timer are events from outside. A `QSet` of ids is a list without repetition; debug output
-- is left out.
use qtcontacts_tracker.Base.{
  ℕ, ◌+◌, Bool, true, false, not, ◌&&◌, ◌||◌, ◌==◌, if◌then◌else◌, List, [], ◌∷◌, ◌++◌, is_empty,
  any, select, length,
}
pub mod Classify
pub mod Signals
pub mod Pending
mod Tests

pub record Quad : Type 0 where
  pub graph : ℕ
  pub subject : ℕ
  pub predicate : ℕ
  pub object : ℕ

-- `m_trackerIds`: the ids of some resources, all 0 or empty until they are resolved.
pub record TrackerIds : Type 0 where
  pub belongs_to_group : ℕ
  pub contact_local_uid : ℕ
  pub rdf_type : ℕ
  pub content_last_modified : ℕ
  pub graph : ℕ
  pub contact_classes : List ℕ

pub data ChangeFilterMode : Type 0 where
  all_changes ignore_presence_changes only_presence_changes : ChangeFilterMode

abbrev pub is_all_changes : ChangeFilterMode → Bool
is_all_changes all_changes = true
is_all_changes _ = false

unfoldable pub contains : List ℕ → ℕ → Bool
contains ids id = any (◌==◌ id) ids

-- `set += id` and `set -= other`.
unfoldable pub add : List ℕ → ℕ → List ℕ
unfolding contains
add ids id = if contains ids id then ids else id ∷ ids

unfoldable pub subtract : List ℕ → List ℕ → List ℕ
unfolding contains
subtract ids other = select (λ id. not (contains other id)) ids

-- The sets that `processNotifications` fills.
pub record Changes : Type 0 where
  pub additions_or_removals : List ℕ
  pub relationship_changes : List ℕ
  pub property_changes : List ℕ
  pub presence_changed : List ℕ

module _ (ids : TrackerIds) (mode : ChangeFilterMode) (match_tagged : Bool) where
  -- An insertion that contactsd has tagged as a change of presence.
  unfoldable pub is_tagged : Quad → Bool
  is_tagged q =
      (match_tagged && not (is_all_changes mode))
      && (not (q.graph == ids.graph)
          && not (q.graph == 0)
          && q.predicate == ids.content_last_modified)

  -- One turn of the loop.
  unfoldable pub process_quad : Quad → Changes → Changes
  process_quad q s =
      if is_tagged q
      then record s { presence_changed = add s.presence_changed q.subject }
      else if ids.rdf_type == q.predicate
      then (if contains ids.contact_classes q.object
          then record s { additions_or_removals = add s.additions_or_removals q.subject }
          else s)
      else if ids.belongs_to_group == q.predicate
      then record s { relationship_changes = add (add s.relationship_changes q.subject) q.object }
      else if not (ids.contact_local_uid == q.predicate)
      then record s { property_changes = add s.property_changes q.subject }
      else s

  unfoldable pub process_quads : List Quad → Changes → Changes
  unfolding process_quad
  process_quads [] s = s
  process_quads (q ∷ qs) s = process_quads qs (process_quad q s)

-- The `switch` after the loop.
unfoldable pub filter_changes : ChangeFilterMode → Changes → List ℕ
filter_changes ignore_presence_changes s = subtract s.property_changes s.presence_changed
filter_changes only_presence_changes s = s.presence_changed
filter_changes all_changes s = s.property_changes

-- `processNotifications`, from the sets that its caller passes: additions or removals, and
-- relationship changes, are new sets, and property changes go on.
unfoldable pub process_notifications :
    TrackerIds → ChangeFilterMode → Bool → List Quad → List ℕ → Changes
unfolding process_quads
process_notifications ids mode match_tagged qs property_changes =
    let s = process_quads ids mode match_tagged qs (record {
      additions_or_removals = [];
      relationship_changes = [];
      property_changes = property_changes;
      presence_changed = [];
    }) in
    record s { property_changes = subtract (filter_changes mode s) s.additions_or_removals }

pub data Signal : Type 0 where
  contacts_added contacts_changed contacts_removed : List ℕ → Signal
  relationships_added relationships_removed : List ℕ → Signal

abbrev pub emit_unless_empty : (List ℕ → Signal) → List ℕ → List Signal
emit_unless_empty signal [] = []
emit_unless_empty signal (id ∷ ids) = signal (id ∷ ids) ∷ []

-- The signals of `emitQueuedNotifications`, in the order in which they are emitted.
unfoldable pub queued_signals : TrackerIds → ChangeFilterMode → List Quad → List Quad → List Signal
unfolding process_notifications
queued_signals ids mode deletes inserts =
    let removed = process_notifications ids mode false deletes [] in
    let added = process_notifications ids mode true inserts removed.property_changes in
    emit_unless_empty contacts_added added.additions_or_removals
    ++ (emit_unless_empty contacts_changed added.property_changes
        ++ (emit_unless_empty contacts_removed removed.additions_or_removals
            ++ (emit_unless_empty relationships_added added.relationship_changes
                ++ emit_unless_empty relationships_removed removed.relationship_changes)))

-- `graph_inserts` counts the queries that create the graph of the contacts, and `resolving` is
-- `m_resolver != 0`.
pub record Listener : Type 0 where
  pub ids : TrackerIds
  pub mode : ChangeFilterMode
  pub delete_notifications : List Quad
  pub insert_notifications : List Quad
  pub timer_active : Bool
  pub signals : List Signal
  pub graph_inserts : ℕ
  pub resolving : Bool

-- The constructor.
unfoldable pub init : ChangeFilterMode → Listener
init mode = record {
  ids = record {
    belongs_to_group = 0;
    contact_local_uid = 0;
    rdf_type = 0;
    content_last_modified = 0;
    graph = 0;
    contact_classes = [];
  };
  mode = mode;
  delete_notifications = [];
  insert_notifications = [];
  timer_active = false;
  signals = [];
  graph_inserts = 0;
  resolving = true;
}

-- `emitQueuedNotifications`: both queues are cleared.
unfoldable pub emit_queued : Listener → Listener
unfolding queued_signals
emit_queued l = record l {
  delete_notifications = [];
  insert_notifications = [];
  signals = l.signals ++ queued_signals l.ids l.mode l.delete_notifications l.insert_notifications;
}

-- `onGraphChanged`: the notifications are queued; the timer runs once the classes are known.
unfoldable pub on_graph_changed : Listener → List Quad → List Quad → Listener
on_graph_changed l deletes inserts = record l {
  delete_notifications = l.delete_notifications ++ deletes;
  insert_notifications = l.insert_notifications ++ inserts;
  timer_active = l.timer_active || not (is_empty l.ids.contact_classes);
}

-- The timer is a single shot.
unfoldable pub on_timeout : Listener → Listener
unfolding emit_queued
on_timeout l = emit_queued (record l { timer_active = false })

resolved : Listener → List ℕ → Listener
unfolding emit_queued
resolved l (group ∷ uid ∷ type ∷ modified ∷ graph ∷ classes) =
    let ids : TrackerIds = record {
      belongs_to_group = group;
      contact_local_uid = uid;
      rdf_type = type;
      content_last_modified = modified;
      graph = graph;
      contact_classes = l.ids.contact_classes;
    } in
    if graph == 0
    then record l { ids = ids; graph_inserts = l.graph_inserts + 1 }
    else record (emit_queued (record l { ids = record ids { contact_classes = classes } })) {
      resolving = false;
    }
resolved l _ = l

-- `onTrackerIdsResolved`, with the number of the resolver's IRIs and the ids that it has, in their
-- order: those of five fixed resources and of the classes, so five at least. While the graph does
-- not exist the classes are not filled in, and the graph is created.
unfoldable pub on_ids_resolved : Listener → ℕ → List ℕ → Listener
unfolding resolved
on_ids_resolved l iri_count ids =
    if not l.resolving then l else if not (iri_count == length ids) then l else resolved l ids

-- `onGraphInsertQueryFinished`: the ids are resolved once more, unless the query failed.
unfoldable pub on_graph_inserted : Listener → Bool → Listener
on_graph_inserted l has_error = if has_error then l else record l { resolving = true }

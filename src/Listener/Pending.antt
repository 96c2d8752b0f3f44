-- ===== src/Listener/Pending.antt =====
-- src/lib/trackerchangelistener.cpp: queued notifications are reported.
use qtcontacts_tracker.Base.{
  ℕ, ◌≡◌, refl, ◌⊎◌, Bool, true, false, not, ◌==◌, List, [], ◌∷◌, is_empty, arith, if◌then◌else◌,
  length,
}
use qtcontacts_tracker.Listener.{
  Listener, Quad, ChangeFilterMode, init, on_graph_changed, on_timeout, on_ids_resolved,
  on_graph_inserted, emit_queued, resolved,
}

-- What can happen to a listener.
pub data Step (l : Listener) : Listener → Type 0 where
  changed : (deletes inserts : List Quad) → Step l (on_graph_changed l deletes inserts)
  timeout : l.timer_active ≡ true → Step l (on_timeout l)
  ids_resolved : (iri_count : ℕ) (ids : List ℕ) → Step l (on_ids_resolved l iri_count ids)
  graph_inserted : (has_error : Bool) → Step l (on_graph_inserted l has_error)

pub data Reach (mode : ChangeFilterMode) : Listener → Type 0 where
  start : Reach mode (init mode)
  next : {l l' : Listener} → Reach mode l → Step l l' → Reach mode l'

-- Once the classes are known, notifications wait only while the timer runs.
abbrev pub IsTimed : Listener → Type 0
IsTimed l =
    (is_empty l.ids.contact_classes ≡ true)
    ⊎ (((l.delete_notifications ≡ []) × (l.insert_notifications ≡ [])) ⊎ (l.timer_active ≡ true))

emit_queued-clears :
    (l : Listener)
    → ((emit_queued l).delete_notifications ≡ []) × ((emit_queued l).insert_notifications ≡ [])
unfolding emit_queued
emit_queued-clears l = (refl, refl)

resolved-IsTimed : (l : Listener) (ids : List ℕ) → IsTimed l → IsTimed (resolved l ids)
unfolding resolved emit_queued
resolved-IsTimed l [] t = t
resolved-IsTimed l (a ∷ []) t = t
resolved-IsTimed l (a ∷ b ∷ []) t = t
resolved-IsTimed l (a ∷ b ∷ c ∷ []) t = t
resolved-IsTimed l (a ∷ b ∷ c ∷ d ∷ []) t = t
resolved-IsTimed l (a ∷ b ∷ c ∷ d ∷ g ∷ classes) t = ground arith

guarded-IsTimed :
    (a b : Bool) (l k : Listener)
    → IsTimed l
    → IsTimed k
    → IsTimed (if a then l else if b then l else k)
guarded-IsTimed true b l k t u = t
guarded-IsTimed false true l k t u = t
guarded-IsTimed false false l k t u = u

-- Whatever happens to a listener keeps this.
pub Step-IsTimed : {l l' : Listener} → Step l l' → IsTimed l → IsTimed l'
unfolding on_graph_changed on_timeout emit_queued on_ids_resolved on_graph_inserted
Step-IsTimed (changed deletes inserts) t = ground arith
Step-IsTimed (timeout h) t = ground arith
Step-IsTimed {l} (ids_resolved iri_count ids) t =
    guarded-IsTimed (not l.resolving) (not (iri_count == length ids)) l (resolved l ids) t
      (resolved-IsTimed l ids t)
Step-IsTimed (graph_inserted has_error) t = ground arith

-- In every reachable state of a listener that knows its classes, either no notification is queued,
-- or the timer that reports the queued ones is running.
pub Reach-IsTimed : {mode : ChangeFilterMode} {l : Listener} → Reach mode l → IsTimed l
unfolding init
Reach-IsTimed start = ground arith
Reach-IsTimed (next r s) = Step-IsTimed s (Reach-IsTimed r)

-- ===== src/Cache.antt =====
-- src/lib/resourcecache.cpp: the process-wide cache of resource IRIs and Tracker ids. Each method
-- holds the lock, so it is one step.
use qtcontacts_tracker.Base.{
  ℕ, Text, List, [], ◌∷◌, Option, none, some, lookup, insert, nat_eq, text_eq,
}
pub mod Sound
mod Tests

-- `QHash::value(key, fallback)`.
abbrev pub value_or {ℓ} : {A : Type ℓ} → Option A → A → A
value_or none a = a
value_or (some b) a = b

pub record Cache : Type 0 where
  pub resource_iris : List (ℕ × Text)
  pub tracker_ids : List (Text × ℕ)

-- The id of an IRI, 0 if it is not cached.
unfoldable pub tracker_id : Cache → Text → ℕ
unfolding lookup
tracker_id c iri = value_or (lookup iri c.tracker_ids) 0

-- The IRI of an id, the empty text if it is not cached.
unfoldable pub resource_iri : Cache → ℕ → Text
unfolding lookup
resource_iri c id = value_or (lookup id c.resource_iris) []

unfoldable pub store : Cache → Text → ℕ → Cache
unfolding insert
store c iri id = record c {
  resource_iris = insert id iri c.resource_iris;
  tracker_ids = insert iri id c.tracker_ids;
}

unfoldable pub clear : Cache → Cache
clear c = record { resource_iris = []; tracker_ids = [] }

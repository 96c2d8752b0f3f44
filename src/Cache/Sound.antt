-- ===== src/Cache/Sound.antt =====
-- src/lib/resourcecache.cpp: what a lookup finds.
use qtcontacts_tracker.Base.{
  ℕ, ◌≡◌, Text, if◌then◌else◌, list_beq, nat_eq, text_eq, ◌==◌, lookup-insert, arith,
}
use qtcontacts_tracker.Cache.{Cache, tracker_id, resource_iri, store}

-- After an insertion each direction finds the new pair under its key, and what it found before
-- under any other key.
pub store-lookups :
    (c : Cache) (iri other_iri : Text) (id other_id : ℕ)
    → let c' = store c iri id in
      (tracker_id c' other_iri
        ≡ (if list_beq nat_eq iri other_iri then id else tracker_id c other_iri))
      × (resource_iri c' other_id ≡ (if id == other_id then iri else resource_iri c other_id))
unfolding store tracker_id resource_iri
store-lookups c iri other_iri id other_id = ground (
  arith,
  lookup-insert iri other_iri id c.tracker_ids,
  lookup-insert id other_id iri c.resource_iris,
)

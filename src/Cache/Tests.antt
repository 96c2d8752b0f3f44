-- ===== src/Cache/Tests.antt =====
-- src/lib/resourcecache.cpp: the theorems at a concrete cache.
use qtcontacts_tracker.Base.{[]}
use qtcontacts_tracker.Cache.{Cache}

abbrev empty : Cache
empty = record { resource_iris = []; tracker_ids = [] }

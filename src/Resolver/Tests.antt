-- ===== src/Resolver/Tests.antt =====
-- src/lib/sparqlresolver.cpp: the theorems at concrete lookups.
use qtcontacts_tracker.Base.{
  ℕ, ◌≡◌, refl, inl, Text, List, [], ◌∷◌, some, none, map, true, codes, length, text_eq, Option,
}
use qtcontacts_tracker.Cache.{Cache, tracker_id}
use qtcontacts_tracker.Request.{Answer, answers}
use qtcontacts_tracker.Resolver.{IdColumn, lookup_ids}
use qtcontacts_tracker.Resolver.Ids.{column_value, lookup_ids-resolves}

abbrev empty : Cache
empty = record { resource_iris = []; tracker_ids = [] }

-- A Tracker in which the id of an IRI is its length, and the IRI of an id its only character.
abbrev ids : Text → ℕ
ids = length

abbrev iris : ℕ → Text
iris id = id ∷ []

abbrev answer_ids : List IdColumn → Answer (List (List ℕ))
answer_ids ps = answers (map (column_value ids) ps ∷ [])

abbrev answer_iris : List ℕ → Answer (List (List Text))
answer_iris ps = answers (map iris ps ∷ [])

lookup_ids-resolves_example :
    (c' : Cache) × (lookup_ids true answer_ids empty (codes "a" ∷ codes "bb" ∷ [])
      ≡ some (true, c', (codes "a", 1) ∷ (codes "bb", 2) ∷ []))
unfolding tracker_id
lookup_ids-resolves_example =
    lookup_ids-resolves ids answer_ids (λ ps. refl) empty (codes "a" ∷ codes "bb" ∷ [])
      (inl refl, (inl refl, tt)) (refl, (refl, tt))

abbrev rows : List (Option (Text × ℕ))
rows = some (codes "a", 3) ∷ none ∷ some (codes "a", 4) ∷ []

-- ===== src/Resolver/Restricted.antt =====
-- src/lib/sparqlresolver.cpp: lookups that are restricted to resources of some classes.
use qtcontacts_tracker.Base.{
  ℕ, ◌≡◌, refl, if◌then◌else◌, Text, List, [], ◌∷◌, Option, none, some, map, arith, Eq, text_eq,
  lookup, insert, lookup-insert, or_else,
}
use qtcontacts_tracker.Cache.{Cache, value_or, tracker_id, store}
use qtcontacts_tracker.Cache.Sound.{store-lookups}
use qtcontacts_tracker.Resolver.{restricted_rows, build_restricted_result}

module _ {K V : Type 0} ⦃e : Eq K⦄ where
  -- The value of a key in the last row that has one.
  abbrev pub last_value : K → List (Option (K × V)) → Option V
  last_value k [] = none
  last_value k (none ∷ rows) = last_value k rows
  last_value k (some (j, v) ∷ rows) =
      or_else (last_value k rows) (if e.beq j k then some v else none)

  module _ (put : Cache → K → V → Cache) where
    lookup-restricted_rows :
        (k : K) (c : Cache) (local : List (K × V)) (rows : List (Option (K × V)))
        → lookup k (restricted_rows put c local rows).1
          ≡ or_else (last_value k rows) (lookup k local)
    unfolding restricted_rows
    lookup-restricted_rows k c local [] = refl
    lookup-restricted_rows k c local (none ∷ rows) = lookup-restricted_rows k c local rows
    lookup-restricted_rows k c local (some (j, v) ∷ rows) = ground (
      arith,
      lookup-restricted_rows k (put c j v) (insert j v local) rows,
      lookup-insert j k v local,
    )

    -- A restricted lookup gives each key the value of the last valid row that has the key, and the
    -- default if there is none, whatever the cache holds.
    pub build_restricted_result_lem :
        (default : V) (c : Cache) (rows : List (Option (K × V))) (keys : List K)
        → (build_restricted_result put default c rows keys).1
          ≡ map (λ k. value_or (last_value k rows) default) keys
    unfolding build_restricted_result lookup
    build_restricted_result_lem default c rows [] = refl
    build_restricted_result_lem default c rows (k ∷ keys) =
        ground (
          arith,
          lookup-restricted_rows k c [] rows,
          build_restricted_result_lem default c rows keys,
        )

-- The process-wide cache keeps what it knew of an IRI that no valid row mentions, and otherwise has
-- the id of the last one.
pub tracker_id-restricted_rows :
    (c : Cache) (local : List (Text × ℕ)) (rows : List (Option (Text × ℕ))) (iri : Text)
    → tracker_id (restricted_rows store c local rows).0 iri
      ≡ value_or (last_value iri rows) (tracker_id c iri)
unfolding restricted_rows
tracker_id-restricted_rows c local [] iri = refl
tracker_id-restricted_rows c local (none ∷ rows) iri = tracker_id-restricted_rows c local rows iri
tracker_id-restricted_rows c local (some (j, v) ∷ rows) iri = ground (
  arith,
  tracker_id-restricted_rows (store c j v) (insert j v local) rows iri,
  store-lookups c j iri v v,
)

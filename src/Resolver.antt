-- ===== src/Resolver.antt =====
-- src/lib/sparqlresolver.cpp: the resolvers between resource IRIs and Tracker ids.
--
-- A resolver has a list of keys and fills in a value for each. `QctTrackerIdResolver` has IRIs and
-- finds ids, `QctResourceIriResolver` the other way round; an entry is a key with its value, so
-- `m_resourceIris` and `m_trackerIds` are one list of entries. A resolver is used for one lookup,
-- and an index out of range, which Qt does not check, is `none`. The connection is a parameter: what
-- it answers to the list of columns of a SELECT without a WHERE clause.
use qtcontacts_tracker.Base.{
  ℕ, zero, suc, ◌+◌, Bool, true, false, ◌==◌, if◌then◌else◌, Text, List, [], ◌∷◌, ◌++◌, Option,
  none, some, length, take, drop, is_empty, not, select, map, Eq, lookup, insert,
}
use qtcontacts_tracker.Request.{Answer, fails, answers}
use qtcontacts_tracker.Cache.{Cache, value_or, tracker_id, resource_iri, store}
pub mod Queries
pub mod Complete
pub mod Fill
pub mod Ids
pub mod Iris
pub mod Restricted
mod Tests

-- `QctSparqlResolver::ColumnLimit`.
abbrev pub column_limit : ℕ
column_limit = 250

-- The loop of `makeQueries`: a query for each `column_limit` columns. The fuel is the number of
-- columns, and each turn takes at least one.
unfoldable pub chunks {ℓ} : {A : Type ℓ} → ℕ → List A → List (List A)
chunks zero ps = []
chunks (suc fuel) [] = []
chunks (suc fuel) (p ∷ ps) = take column_limit (p ∷ ps) ∷ chunks fuel (drop column_limit (p ∷ ps))

unfoldable pub make_queries {ℓ} : {A : Type ℓ} → List A → List (List A)
unfolding chunks
make_queries ps = chunks (length ps) ps

module _ {K V : Type 0} (unknown : V → Bool) (put : Cache → K → V → Cache) where
  -- The loop of `buildResult` over the columns of a row, from the entry at the offset on: an entry
  -- that is known already is skipped, any other takes the next column.
  unfoldable pub fill : Cache → List (K × V) → List V → Option (Cache × List (K × V))
  fill c es [] = some (c, es)
  fill c [] (v ∷ vs) = none
  fill c ((k, w) ∷ es) (v ∷ vs) = elim (unknown w) [
    | true ↦ elim (fill (put c k v) es vs) [
      | none ↦ none
      | some (c', es') ↦ some (c', (k, v) ∷ es')
    ]
    | false ↦ elim (fill c es (v ∷ vs)) [ none ↦ none | some (c', es') ↦ some (c', (k, w) ∷ es') ]
  ]

  -- `buildResult(offset, result)`.
  unfoldable pub build_result : Cache → List (K × V) → ℕ → List V → Option (Cache × List (K × V))
  unfolding fill
  build_result c es offset row = elim (fill c (drop offset es) row) [
    | none ↦ none
    | some (c', es') ↦ some (c', take offset es ++ es')
  ]

  -- `while (result->next())`: the offset grows by the number of columns of each row.
  unfoldable pub rows_loop :
      Cache → List (K × V) → ℕ → List (List V) → Option (Cache × List (K × V) × ℕ)
  unfolding build_result
  rows_loop c es offset [] = some (c, es, offset)
  rows_loop c es offset (row ∷ rows) = elim (build_result c es offset row) [
    | none ↦ none
    | some (c', es') ↦ rows_loop c' es' (offset + length row) rows
  ]

  -- The loop of `lookupAndWait` over the queries, where no class is given: whether it succeeded.
  unfoldable pub queries_loop :
      {P : Type 0}
      → (List P → Answer (List (List V)))
      → Cache
      → List (K × V)
      → ℕ
      → List (List P)
      → Option (Bool × Cache × List (K × V))
  unfolding rows_loop
  queries_loop exec c es offset [] = some (true, c, es)
  queries_loop exec c es offset (q ∷ qs) = elim (exec q) [
    | fails e ↦ some (false, c, es)
    | answers rows ↦ elim (rows_loop c es offset rows) [
      | none ↦ none
      | some (c', es', offset') ↦ queries_loop exec c' es' offset' qs
    ]
  ]

-- What is asked of Tracker: the id of an IRI, or the number 0 for an empty IRI.
pub data IdColumn : Type 0 where
  id_of : Text → IdColumn
  zero_literal : IdColumn

abbrev pub id_column : Text → IdColumn
id_column [] = zero_literal
id_column (x ∷ xs) = id_of (x ∷ xs)

-- `QctTrackerIdResolver::makeProjections`: each IRI with its cached id, and the columns to ask for.
unfoldable pub id_projections : Cache → List Text → List (Text × ℕ) × List IdColumn
unfolding tracker_id
id_projections c [] = ([], [])
id_projections c (iri ∷ iris) =
    let (es, ps) = id_projections c iris in
    ((iri, tracker_id c iri) ∷ es, (if tracker_id c iri == 0 then id_column iri ∷ ps else ps))

-- `QctResourceIriResolver::makeProjections`: there is no column for the id 0.
unfoldable pub iri_projections : Cache → List ℕ → List (ℕ × Text) × List ℕ
unfolding resource_iri
iri_projections c [] = ([], [])
iri_projections c (id ∷ ids) =
    let (es, ps) = iri_projections c ids in
    if id == 0
    then ((id, []) ∷ es, ps)
    else ((id, resource_iri c id) ∷ es, (if is_empty (resource_iri c id) then id ∷ ps else ps))

abbrev pub is_zero : ℕ → Bool
is_zero n = n == 0

-- `lookupAndWait` of both resolvers without classes: `valid` is `connection.isValid()`. The result
-- is whether it succeeded, the cache, and the entries.
unfoldable pub lookup_ids :
    Bool
    → (List IdColumn → Answer (List (List ℕ)))
    → Cache
    → List Text
    → Option (Bool × Cache × List (Text × ℕ))
unfolding queries_loop make_queries id_projections
lookup_ids valid exec c iris =
    let (es, ps) = id_projections c iris in
    if valid then queries_loop is_zero store exec c es 0 (make_queries ps) else some (false, c, [])

unfoldable pub lookup_iris :
    Bool
    → (List ℕ → Answer (List (List Text)))
    → Cache
    → List ℕ
    → Option (Bool × Cache × List (ℕ × Text))
unfolding queries_loop make_queries iri_projections
lookup_iris valid exec c ids =
    let (es, ps) = iri_projections c ids in
    if valid
    then queries_loop is_empty (λ c id iri. store c iri id) exec c es 0 (make_queries ps)
    else some (false, c, [])

-- `buildRestrictedResult`, where a row has a key and its value, or no valid id. The rows go into the
-- cache of the process and into a local cache, from which the values are read.
module _ {K V : Type 0} ⦃e : Eq K⦄ (put : Cache → K → V → Cache) where
  unfoldable pub restricted_rows :
      Cache → List (K × V) → List (Option (K × V)) → Cache × List (K × V)
  unfolding insert
  restricted_rows c local [] = (c, local)
  restricted_rows c local (none ∷ rows) = restricted_rows c local rows
  restricted_rows c local (some (k, v) ∷ rows) = restricted_rows (put c k v) (insert k v local) rows

  unfoldable pub build_restricted_result :
      V → Cache → List (Option (K × V)) → List K → Cache × List V
  unfolding restricted_rows lookup
  build_restricted_result default c rows keys =
      let (c', local) = restricted_rows c [] rows in
      (c', map (λ k. value_or (lookup k local) default) keys)

  finish_restricted : V → Cache → List (Option (K × V)) → List K → Bool × Cache × List V
  unfolding build_restricted_result
  finish_restricted default c rows keys =
      let (c', vs) = build_restricted_result default c rows keys in (true, c', vs)

  -- `lookupAndWait` with classes: `makeRestrictedQueries` gives one query, for the keys that are
  -- not empty or 0, or none if there is no such key.
  unfoldable pub lookup_restricted :
      (K → Bool)
      → V
      → Bool
      → (List K → Answer (List (Option (K × V))))
      → Cache
      → List K
      → Bool × Cache × List V
  unfolding finish_restricted
  lookup_restricted missing default valid exec c keys =
      let asked = select (λ k. not (missing k)) keys in
      if not valid
      then (false, c, [])
      else if is_empty asked
      then finish_restricted default c [] keys
      else elim (exec asked) [
        | fails e ↦ (false, c, [])
        | answers rows ↦ finish_restricted default c rows keys
      ]

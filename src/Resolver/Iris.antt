-- ===== src/Resolver/Iris.antt =====
-- src/lib/sparqlresolver.cpp: `QctResourceIriResolver` against the IRIs that Tracker gives.
use qtcontacts_tracker.Base.{
  ℕ, ◌≡◌, refl, sym, ap, ◌⊎◌, true, false, Text, List, [], ◌∷◌, some, map, All, is_empty, arith,
}
use qtcontacts_tracker.Cache.{Cache, resource_iri, store}
use qtcontacts_tracker.Request.{Answer, answers}
use qtcontacts_tracker.Resolver.{make_queries, chunks, iri_projections, is_zero, lookup_iris}
use qtcontacts_tracker.Resolver.Queries.{concat-make_queries, make_queries-map}
use qtcontacts_tracker.Resolver.Complete.{unknown_keys, complete, Resolves}
use qtcontacts_tracker.Resolver.Fill.{queries_loop-complete}

-- An id is not 0, Tracker has an IRI for it, and the cache has no other.
abbrev pub IsResolvable : (ℕ → Text) → Cache → ℕ → Type 0
IsResolvable u c id =
    (is_zero id ≡ false)
    × (is_empty (u id) ≡ false)
    × ((resource_iri c id ≡ []) ⊎ (resource_iri c id ≡ u id))

abbrev keep_id : ℕ → ℕ
keep_id id = id

map-keep_id : (ids : List ℕ) → map keep_id ids ≡ ids
map-keep_id [] = refl
map-keep_id (id ∷ ids) = ap (◌∷◌ id) (map-keep_id ids)

module _ (u : ℕ → Text) (c : Cache) where
  abbrev cached : List ℕ → List (ℕ × Text)
  cached ids = map (λ id. (id, resource_iri c id)) ids

  iri_projections-entries :
      (ids : List ℕ)
      → All (IsResolvable u c) ids
      → (iri_projections c ids).0 ≡ cached ids
        × ((iri_projections c ids).1 ≡ unknown_keys is_empty (cached ids))
  unfolding iri_projections
  iri_projections-entries [] h = (refl, refl)
  iri_projections-entries (id ∷ ids) h = ground (arith, iri_projections-entries ids h.1)

  complete-iris :
      (ids : List ℕ)
      → All (IsResolvable u c) ids
      → complete is_empty u (cached ids) ≡ map (λ id. (id, u id)) ids
  complete-iris [] h = refl
  complete-iris (id ∷ ids) h = ground (arith, complete-iris ids h.1)

  Resolves-iris : (ids : List ℕ) → All (IsResolvable u c) ids → Resolves is_empty u (cached ids)
  Resolves-iris [] h = tt
  Resolves-iris (id ∷ ids) h = (h.0.1, Resolves-iris ids h.1)

module _ (u : ℕ → Text) (exec : List ℕ → Answer (List (List Text)))
    (one_row : (ids : List ℕ) → exec ids ≡ answers (map u ids ∷ [])) (c : Cache) where
  -- If Tracker answers each query in one row, and the ids are resolvable ones, then the lookup
  -- succeeds, however many queries it takes, and pairs each id with its IRI, in the order of the
  -- list.
  pub lookup_iris-resolves :
      (ids : List ℕ)
      → All (IsResolvable u c) ids
      → (c' : Cache) × (lookup_iris true exec c ids ≡ some (true, c', map (λ id. (id, u id)) ids))
  unfolding lookup_iris
  lookup_iris-resolves ids h =
      let put = λ (c : Cache) (id : ℕ) (iri : Text). store c iri id in
      let es = map (λ (id : ℕ). (id, resource_iri c id)) ids in
      let ks = unknown_keys is_empty es in
      let (c', e) =
        queries_loop-complete is_empty put u keep_id exec (λ ks. rw (map-keep_id ks) (one_row ks)) c
          es 0 (make_queries ks) (Resolves-iris u c ids h) refl (sym (concat-make_queries ks)) in
      (
        c',
        ground (
          arith,
          iri_projections-entries u c ids h,
          make_queries-map keep_id ks,
          map-keep_id ks,
          complete-iris u c ids h,
          e,
        ),
      )

  -- The id 0 takes the place of the id behind it: where that one is not cached, its IRI is
  -- reported and cached for the id 0, and the id itself is left without an IRI.
  pub lookup_iris_zero :
      (id : ℕ)
      → is_zero id ≡ false
      → resource_iri c id ≡ []
      → lookup_iris true exec c (0 ∷ id ∷ [])
        ≡ some (true, store c (u id) 0, (0, u id) ∷ (id, []) ∷ [])
  unfolding lookup_iris chunks
  lookup_iris_zero id nonzero uncached = ground (arith, one_row (id ∷ []))

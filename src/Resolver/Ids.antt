-- ===== src/Resolver/Ids.antt =====
-- src/lib/sparqlresolver.cpp: `QctTrackerIdResolver` against the ids that Tracker gives.
use qtcontacts_tracker.Base.{
  ℕ, ◌≤◌, ◌≡◌, refl, ◌⊎◌, ap, sym, true, false, Text, List, [], ◌∷◌, some, map, length, All, arith,
}
use qtcontacts_tracker.Cache.{Cache, tracker_id, store}
use qtcontacts_tracker.Request.{Answer, answers}
use qtcontacts_tracker.Resolver.{
  column_limit, make_queries, IdColumn, id_of, zero_literal, id_column, id_projections, is_zero,
  lookup_ids,
}
use qtcontacts_tracker.Resolver.Queries.{concat-make_queries, make_queries-map}
use qtcontacts_tracker.Resolver.Complete.{unknown_keys, complete, Resolves}
use qtcontacts_tracker.Resolver.Fill.{queries_loop-complete, queries_loop-single}

-- The value of a column, when `t` gives Tracker's id of an IRI.
abbrev pub column_value : (Text → ℕ) → IdColumn → ℕ
column_value t (id_of iri) = t iri
column_value t zero_literal = 0

-- The id of an IRI: the empty IRI has none.
abbrev pub id_value : (Text → ℕ) → Text → ℕ
id_value t iri = column_value t (id_column iri)

-- The cache knows nothing wrong of an IRI.
abbrev pub IsSound : (Text → ℕ) → Cache → Text → Type 0
IsSound t c iri = (tracker_id c iri ≡ 0) ⊎ (tracker_id c iri ≡ id_value t iri)

id_projections-entries :
    (c : Cache) (iris : List Text)
    → ((id_projections c iris).0 ≡ map (λ iri. (iri, tracker_id c iri)) iris)
      × ((id_projections c iris).1
          ≡ map id_column (unknown_keys is_zero (map (λ iri. (iri, tracker_id c iri)) iris)))
unfolding id_projections tracker_id
id_projections-entries c [] = (refl, refl)
id_projections-entries c (iri ∷ iris) = ground (arith, id_projections-entries c iris)

complete-ids :
    (t : Text → ℕ) (c : Cache) (iris : List Text)
    → All (IsSound t c) iris
    → complete is_zero (id_value t) (map (λ iri. (iri, tracker_id c iri)) iris)
      ≡ map (λ iri. (iri, id_value t iri)) iris
complete-ids t c [] s = refl
complete-ids t c (iri ∷ iris) s = ground (arith, complete-ids t c iris s.1)

Resolves-ids :
    (t : Text → ℕ) (c : Cache) (iris : List Text)
    → All (λ iri. is_zero (id_value t iri) ≡ false) iris
    → Resolves is_zero (id_value t) (map (λ iri. (iri, tracker_id c iri)) iris)
Resolves-ids t c [] h = tt
Resolves-ids t c (iri ∷ iris) h = (h.0, Resolves-ids t c iris h.1)

map-map_columns :
    (t : Text → ℕ) (iris : List Text)
    → map (column_value t) (map id_column iris) ≡ map (id_value t) iris
map-map_columns t [] = refl
map-map_columns t (iri ∷ iris) = ap (◌∷◌ (id_value t iri)) (map-map_columns t iris)

module _ (t : Text → ℕ) (exec : List IdColumn → Answer (List (List ℕ)))
    (one_row : (ps : List IdColumn) → exec ps ≡ answers (map (column_value t) ps ∷ [])) (c : Cache)
    (iris : List Text) (sound : All (IsSound t c) iris) where
  one_row_ids : (ks : List Text) → exec (map id_column ks) ≡ answers (map (id_value t) ks ∷ [])
  one_row_ids ks = rw (one_row (map id_column ks), map-map_columns t ks)

  -- If Tracker answers each query in one row and knows every IRI of the list, and the cache knows
  -- nothing wrong of them, then the lookup succeeds, however many queries it takes, and pairs each
  -- IRI with its id, in the order of the list.
  pub lookup_ids-resolves :
      All (λ iri. is_zero (id_value t iri) ≡ false) iris
      → (c' : Cache) × (lookup_ids true exec c iris
          ≡ some (true, c', map (λ iri. (iri, id_value t iri)) iris))
  unfolding lookup_ids
  lookup_ids-resolves known =
      let es = map (λ (iri : Text). (iri, tracker_id c iri)) iris in
      let ks = unknown_keys is_zero es in
      let (c', e) =
        queries_loop-complete is_zero store (id_value t) id_column exec one_row_ids c es 0
          (make_queries ks) (Resolves-ids t c iris known) refl (sym (concat-make_queries ks)) in
      (
        c',
        ground (
          arith,
          id_projections-entries c iris,
          make_queries-map id_column ks,
          complete-ids t c iris sound,
          e,
        ),
      )

  -- If one query is enough, then the lookup also succeeds when Tracker does not know some of the
  -- IRIs: it pairs each IRI with its id, or with 0.
  pub lookup_ids-single :
      length (unknown_keys is_zero (map (λ iri. (iri, tracker_id c iri)) iris)) ≤ column_limit
      → (c' : Cache) × (lookup_ids true exec c iris
          ≡ some (true, c', map (λ iri. (iri, id_value t iri)) iris))
  unfolding lookup_ids
  lookup_ids-single few =
      let es = map (λ (iri : Text). (iri, tracker_id c iri)) iris in
      let ks = unknown_keys is_zero es in
      let (c', e) =
        queries_loop-single is_zero store (id_value t) id_column exec one_row_ids c es few in
      (
        c',
        ground (
          arith,
          id_projections-entries c iris,
          make_queries-map id_column ks,
          complete-ids t c iris sound,
          e,
        ),
      )

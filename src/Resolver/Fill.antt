-- ===== src/Resolver/Fill.antt =====
-- src/lib/sparqlresolver.cpp: what the answers to a list of queries leave in the entries.
use qtcontacts_tracker.Base.{
  ℕ, ◌+◌, ◌≤◌, ◌≡◌, refl, ◌∙◌, sym, inl, inr, Bool, true, List, [], ◌∷◌, ◌++◌, some, map, length,
  take, drop, arith, Bool-cases, take-append-drop, length-map,
}
use mathlib.Core.List.{append-nil}
use qtcontacts_tracker.Cache.{Cache}
use qtcontacts_tracker.Request.{Answer, answers}
use qtcontacts_tracker.Resolver.{column_limit, make_queries, fill, build_result, queries_loop}
use qtcontacts_tracker.Resolver.Queries.{concat, make_queries_nil, make_queries_single}
use qtcontacts_tracker.Resolver.Complete.{
  unknown_keys, unknown_keys-append, complete_first, complete, Resolves, complete_known,
  complete_first-all, complete-complete_first, complete_first-Resolves, unknown_keys-complete_first,
  complete_first-append, take-complete_first,
}

module _ {K V : Type 0} (unknown : V → Bool) (put : Cache → K → V → Cache) (value : K → V) where
  fill-complete_first :
      (c : Cache) (es : List (K × V)) (ps rest : List K)
      → unknown_keys unknown es ≡ ps ++ rest
      → (c' : Cache) × (fill unknown put c es (map value ps)
          ≡ some (c', complete_first unknown value (length ps) es))
  unfolding fill
  fill-complete_first c [] [] rest h = (c, refl)
  fill-complete_first c (e ∷ es) [] rest h = (c, refl)
  fill-complete_first c [] (p ∷ ps) rest h = cc
  fill-complete_first c ((k, w) ∷ es) (p ∷ ps) rest h = elim (Bool-cases (unknown w)) [
    | inl open_ ↦
        let (c', e) = fill-complete_first (put c p (value p)) es ps rest (ground arith) in
        (c', ground (arith, e))
    | inr known ↦
        let (c', e) = fill-complete_first c es (p ∷ ps) rest (ground arith) in
        (c', ground (arith, e))
  ]

  -- A row that answers the first unknown keys, at an offset with no unknown entry in front of it.
  build_result-complete_first :
      (c : Cache) (es : List (K × V)) (o : ℕ) (ps rest : List K)
      → unknown_keys unknown (take o es) ≡ []
      → unknown_keys unknown es ≡ ps ++ rest
      → (c' : Cache) × (build_result unknown put c es o (map value ps)
          ≡ some (c', complete_first unknown value (length ps) es))
  unfolding build_result
  build_result-complete_first c es o ps rest t h =
      let split = take-append-drop o es in
      let tail : unknown_keys unknown (drop o es) ≡ ps ++ rest =
        ground (arith, split, unknown_keys-append unknown (take o es) (drop o es)) in
      let (c', e) = fill-complete_first c (drop o es) ps rest tail in
      (
        c',
        ground (
          arith,
          e,
          split,
          complete_first-append unknown value (length ps) (take o es) (drop o es) t,
        ),
      )

  -- The queries of a lookup, when each answers its columns in one row with known values.
  pub queries_loop-complete :
      {P : Type 0} (ask : K → P) (exec : List P → Answer (List (List V)))
      → ((ks : List K) → exec (map ask ks) ≡ answers (map value ks ∷ []))
      → (c : Cache) (es : List (K × V)) (o : ℕ) (kss : List (List K)) → Resolves unknown value es
      → unknown_keys unknown (take o es) ≡ []
      → unknown_keys unknown es ≡ concat kss
      → (c' : Cache) × (queries_loop unknown put exec c es o (map (map ask) kss)
          ≡ some (true, c', complete unknown value es))
  unfolding queries_loop
  queries_loop-complete ask exec one_row c es o [] r t h =
      (c, ground (arith, complete_known unknown value es h))
  queries_loop-complete ask exec one_row c es o (ks ∷ kss) r t h =
      let n = length ks in
      let es' = complete_first unknown value n es in
      let (c', built) = build_result-complete_first c es o ks (concat kss) t h in
      let (c'', rest) =
        queries_loop-complete ask exec one_row c' es' (o + n) kss
          (complete_first-Resolves unknown value n es r)
          (take-complete_first unknown value o es ks (concat kss) r t h)
          (unknown_keys-complete_first unknown value es ks (concat kss) r h) in
      (
        c'',
        ground (
          arith,
          one_row ks,
          built,
          rest,
          length-map ks value,
          complete-complete_first unknown value n es r,
        ),
      )

  single_query :
      {P : Type 0} (ask : K → P) (exec : List P → Answer (List (List V)))
      → ((ks : List K) → exec (map ask ks) ≡ answers (map value ks ∷ []))
      → (c : Cache) (es : List (K × V)) (ks : List K) → unknown_keys unknown es ≡ ks
      → length ks ≤ column_limit
      → (c' : Cache) × (queries_loop unknown put exec c es 0 (map (map ask) (make_queries ks))
          ≡ some (true, c', complete unknown value es))
  unfolding queries_loop
  single_query ask exec one_row c es [] h few =
      (c, rw make_queries_nil (ground (arith, complete_known unknown value es h)))
  single_query ask exec one_row c es (k ∷ ks) h few =
      let (c', built) =
        build_result-complete_first c es 0 (k ∷ ks) [] refl (h ∙ sym (append-nil (k ∷ ks))) in
      (
        c',
        rw (make_queries_single k ks few) (
            ground
              (arith, one_row (k ∷ ks), built, complete_first-all unknown value es (k ∷ ks) h)),
      )

  -- One query is enough for these entries; its row need not know every value.
  pub queries_loop-single :
      {P : Type 0} (ask : K → P) (exec : List P → Answer (List (List V)))
      → ((ks : List K) → exec (map ask ks) ≡ answers (map value ks ∷ []))
      → (c : Cache) (es : List (K × V)) → length (unknown_keys unknown es) ≤ column_limit
      → (c' : Cache) × (queries_loop unknown put exec c es 0
            (map (map ask) (make_queries (unknown_keys unknown es)))
          ≡ some (true, c', complete unknown value es))
  queries_loop-single ask exec one_row c es few =
      single_query ask exec one_row c es (unknown_keys unknown es) refl few

-- ===== src/Unmerge/Outcome.antt =====
-- src/engine/contactunmergerequest.cpp: how an unmerge request ends.
use qtcontacts_tracker.Base.{
  ℕ, ◌==◌, true, false, Text, List, [], ◌∷◌, ◌++◌, Option, length, get_elem?, ◌≡◌, ◌⊎◌, inl, inr,
  refl, arith, ap, sym, ◌∙◌,
}
use qtcontacts_tracker.Request.{Request, no_error, init, is_no_error, turn_irreversible}
use qtcontacts_tracker.Unmerge.{
  Row, Unmerging, Source, start_unmerging, set_error, read_rows, iris_of, resolve_source_contact,
  fetch_predicates, unmerge_contacts, resolve_unmerged_contact_ids, run,
}
use qtcontacts_tracker.Unmerge.Answers.{
  Failed, query_answered, length-new_contacts, read_rows-iris, placed, get_elem-new_contacts,
  read_rows-request,
}
use qtcontacts_tracker.Unmerge.Steps.{
  made, IsAnswered, resolve_source_contact-Step, fetch_predicates-Step, unmerge_contacts-Step,
  resolve_unmerged_contact_ids-Step,
}

module _ (source : Source) where
  -- Conversely, good answers let each step go on.
  module _ {ids : List ℕ} (answered : IsAnswered source ids) where
    resolved-answered :
        (s : Unmerging)
        → resolve_source_contact source s ≡ (record s { source_contact_iri = answered.iri }, true)
    unfolding resolve_source_contact
    resolved-answered s =
        rw (resolve_source_contact, answered.own, answered.exists, answered.found) refl

    fetched-answered :
        (s : Unmerging)
        → s.source_contact_iri ≡ answered.iri
        → fetch_predicates source s ≡ (read_rows source.rdf_type answered.rows s, true)
    unfolding fetch_predicates
    fetched-answered s e =
        let answer = source.select s.source_contact_iri in
        let selected = ap source.select e ∙ answered.selected in
        let q =
          query_answered s.request source.valid answer answered.rows answered.valid selected in
        rw (fetch_predicates, ap (λ (p : Request × Option (List Row)). p.1) q)
          (ap
            (λ (p : Request × Option (List Row)).
              (read_rows source.rdf_type answered.rows (set_error p.0 s), true))
            q)

    updated-answered :
        (s : Unmerging)
        → unmerge_contacts source s ≡ (
          record s {
            unmerged_contact_iris = s.unmerged_contact_iris ++ iris_of (made source);
            sent = s.sent ++ ((made source) ∷ []);
          },
          true,
        )
    unfolding unmerge_contacts
    updated-answered s =
        let answer = source.update (made source) in
        let q = query_answered s.request source.valid answer tt answered.valid answered.updated in
        rw (unmerge_contacts, ap (λ (p : Request × Option (Unit {0})). p.1) q)
          (ap
            (λ (p : Request × Option (Unit {0})). (
              record s {
                request = p.0;
                unmerged_contact_iris = s.unmerged_contact_iris ++ iris_of (made source);
                sent = s.sent ++ ((made source) ∷ []);
              },
              true,
            ))
            q)

    identified-answered :
        (s : Unmerging)
        → s.unmerged_contact_iris ≡ iris_of (made source)
        → resolve_unmerged_contact_ids source s ≡ record s { unmerged_contact_ids = ids }
    unfolding resolve_unmerged_contact_ids
    identified-answered s e =
        let found = ap source.resolve_ids e ∙ answered.resolved in
        let l = ap (λ (iris : List Text). length iris) e in
        let l' = length-new_contacts source.uuid_iri 0 source.accounts in
        let equal : (length ids == length s.unmerged_contact_iris) ≡ true =
          ground (arith, l, l', answered.counted) in
        rw (resolve_unmerged_contact_ids, found, equal) refl

  abbrev begun : Unmerging
  begun = set_error ((turn_irreversible init).0) start_unmerging

  -- A run with good answers.
  run-answered :
      {ids : List ℕ}
      → (answered : IsAnswered source ids)
      → let s =
          read_rows source.rdf_type answered.rows
            (record begun { source_contact_iri = answered.iri }) in
        run source start_unmerging ≡ record s {
          unmerged_contact_iris = s.unmerged_contact_iris ++ iris_of (made source);
          sent = s.sent ++ ((made source) ∷ []);
          unmerged_contact_ids = ids;
        }
  unfolding run start_unmerging init turn_irreversible
  run-answered answered =
      let s₁ : Unmerging = record begun { source_contact_iri = answered.iri } in
      let s₂ = read_rows source.rdf_type answered.rows s₁ in
      let s₃ : Unmerging = record s₂ {
        unmerged_contact_iris = s₂.unmerged_contact_iris ++ iris_of (made source);
        sent = s₂.sent ++ ((made source) ∷ []);
      } in
      let (iris, sent) = read_rows-iris source.rdf_type answered.rows s₁ in
      rw
        (
          run,
          resolved-answered answered begun,
          fetched-answered answered s₁ refl,
          updated-answered answered s₂,
        )
        (identified-answered answered s₃ (ap (λ l. l ++ iris_of (made source)) iris))

  answered-no_error :
      {ids : List ℕ}
      → IsAnswered source ids
      → (run source start_unmerging).request.last_error ≡ no_error
  unfolding start_unmerging init turn_irreversible
  answered-no_error answered =
      let s₁ : Unmerging = record begun { source_contact_iri = answered.iri } in
      ap (λ (s : Unmerging). s.request.last_error) (run-answered answered)
      ∙ ap (λ (r : Request). r.last_error) (read_rows-request source.rdf_type answered.rows s₁)

  Failed-not-IsAnswered :
      Failed (run source start_unmerging) → ¬ ((ids : List ℕ) × IsAnswered source ids)
  Failed-not-IsAnswered failed (ids, answered) =
      absurd (ground (arith, failed, ap is_no_error (answered-no_error answered)))

  -- A run fails, or it had good answers.
  run-IsAnswered : Failed (run source start_unmerging) ⊎ ((ids : List ℕ) × IsAnswered source ids)
  unfolding run start_unmerging init turn_irreversible
  run-IsAnswered =
      let s₁ = (resolve_source_contact source begun).0 in
      let s₂ = (fetch_predicates source s₁).0 in
      let s₃ = (unmerge_contacts source s₂).0 in
      elim (resolve_source_contact-Step source begun) [
        | inl (h, failed) ↦ rw (run, h) (inl failed)
        | inr (h, (own, exists, (iri, found, e₁))) ↦ elim (fetch_predicates-Step source s₁) [
          | inl (h', failed) ↦ rw (run, h, h') (inl failed)
          | inr (h', (valid, (rows, selected, e₂))) ↦ elim (unmerge_contacts-Step source s₂) [
            | inl (h'', failed) ↦ rw (run, h, h', h'') (inl failed)
            | inr (h'', (updated, e₃)) ↦ elim (resolve_unmerged_contact_ids-Step source s₃) [
              | inl failed ↦ rw (run, h, h', h'') (inl failed)
              | inr (ids, resolved, counted, e₄) ↦
                  let iri_of = ap (λ (s : Unmerging). s.source_contact_iri) e₁ in
                  let none_yet : s₂.unmerged_contact_iris ≡ [] =
                    ap (λ (s : Unmerging). s.unmerged_contact_iris) e₂
                    ∙ (read_rows-iris source.rdf_type rows s₁).0
                    ∙ ap (λ (s : Unmerging). s.unmerged_contact_iris) e₁ in
                  let iris : s₃.unmerged_contact_iris ≡ iris_of (made source) =
                    ap (λ (s : Unmerging). s.unmerged_contact_iris) e₃
                    ∙ ap (λ (l : List Text). l ++ iris_of (made source)) none_yet in
                  inr (
                    ids,
                    record {
                      own = own;
                      exists = exists;
                      iri = iri;
                      found = found;
                      valid = valid;
                      rows = rows;
                      selected = ap source.select (sym iri_of) ∙ selected;
                      updated = updated;
                      resolved = ap source.resolve_ids (sym iris) ∙ resolved;
                      counted =
                          counted
                          ∙ ap (λ (l : List Text). length l) iris
                          ∙ length-new_contacts source.uuid_iri 0 source.accounts;
                    },
                  )
            ]
          ]
        ]
      ]

  -- An unmerge request ends with an error exactly if the contact is not the manager's or has the id
  -- 0, or the resolver does not give one IRI for it, or the connection is not valid, or the query or
  -- the update fails, or the resolver does not give an id for each new contact. Otherwise it ends
  -- without an error and with those ids, one for each account, after one update, in which the new
  -- contact at each position is the one of the account at that position.
  pub run_outcome :
      (j : ℕ)
      → let s = run source start_unmerging in
        ((is_no_error s.request.last_error ≡ false) × ¬ ((ids : List ℕ) × IsAnswered source ids))
        ⊎ ((ids : List ℕ) × IsAnswered source ids
            × (s.request.last_error ≡ no_error)
            × (s.unmerged_contact_ids ≡ ids)
            × (length s.unmerged_contact_ids ≡ length source.accounts)
            × (s.sent ≡ (made source) ∷ [])
            × (get_elem? (made source) j ≡ placed source.uuid_iri j (get_elem? source.accounts j)))
  unfolding start_unmerging
  run_outcome j = elim run-IsAnswered [
    | inl failed ↦ inl (failed, Failed-not-IsAnswered failed)
    | inr (ids, answered) ↦
        let s₁ : Unmerging = record begun { source_contact_iri = answered.iri } in
        let ends = run-answered answered in
        let ids' = ap (λ (s : Unmerging). s.unmerged_contact_ids) ends in
        inr (
          ids,
          answered,
          answered-no_error answered,
          ids',
          ap (λ (l : List ℕ). length l) ids' ∙ answered.counted,
          ap (λ (s : Unmerging). s.sent) ends
              ∙ ap (λ l. l ++ ((made source) ∷ []))
                  ((read_rows-iris source.rdf_type answered.rows s₁).1),
          ground (arith, get_elem-new_contacts source.uuid_iri 0 j source.accounts),
        )
  ]

-- ===== src/Unmerge/Steps.antt =====
-- src/engine/contactunmergerequest.cpp: each step of an unmerge request fails, or has a good answer.
use qtcontacts_tracker.Base.{
  ℕ, ◌==◌, ==_iff, Bool, true, false, not, ◌||◌, Text, same_text, List, [], ◌∷◌, ◌++◌, length, ◌≡◌,
  ◌⊎◌, inl, inr, refl, arith, ap, Bool-cases, Option-cases,
}
use qtcontacts_tracker.Request.{Request, answers, run_query}
use qtcontacts_tracker.Unmerge.{
  looked_up, Row, Unmerging, Source, set_error, read_rows, new_contacts, iris_of,
  resolve_source_contact, fetch_predicates, unmerge_contacts, resolve_unmerged_contact_ids,
}
use qtcontacts_tracker.Unmerge.Answers.{Failed, reported, query_failed, query_cases, Lookup-cases}

module _ (source : Source) where
  abbrev pub made : List (Text × Text)
  made = new_contacts source.uuid_iri 0 source.accounts

  -- The contact is the manager's, and everything that is asked of the outside is answered well.
  pub record IsAnswered (ids : List ℕ) : Type 0 where
    pub own : same_text source.manager_uri source.own_manager_uri ≡ true
    pub exists : (source.local_id == 0) ≡ false
    pub iri : Text
    pub found : source.resolve_iris (source.local_id ∷ []) ≡ looked_up (iri ∷ [])
    pub valid : source.valid ≡ true
    pub rows : List Row
    pub selected : source.select iri ≡ answers rows
    pub updated : source.update made ≡ answers tt
    pub resolved : source.resolve_ids (iris_of made) ≡ looked_up ids
    pub counted : length ids ≡ length source.accounts

  -- A step fails with an error, or goes on with what follows from its answer.
  abbrev pub Step : Unmerging × Bool → Type 0 → Type 0
  Step t P = ((t.1 ≡ false) × Failed t.0) ⊎ ((t.1 ≡ true) × P)

  pub resolve_source_contact-Step :
      (s : Unmerging)
      → let t = resolve_source_contact source s in
        Step t (
          (same_text source.manager_uri source.own_manager_uri ≡ true)
          × ((source.local_id == 0) ≡ false)
          × ((iri : Text) × (source.resolve_iris (source.local_id ∷ []) ≡ looked_up (iri ∷ []))
              × (t.0 ≡ record s { source_contact_iri = iri })))
  unfolding resolve_source_contact
  resolve_source_contact-Step s =
      elim (Bool-cases
        (not (same_text source.manager_uri source.own_manager_uri) || source.local_id == 0)) [
          | inl h ↦ rw (resolve_source_contact, h) (inl (refl, refl))
          | inr h ↦ elim (Lookup-cases (source.resolve_iris (source.local_id ∷ []))) [
            | inl (es, e) ↦ rw (resolve_source_contact, h, e) (inl (refl, reported s.request es))
            | inr ([], e) ↦ rw (resolve_source_contact, h, e) (inl (refl, refl))
            | inr (iri ∷ [], e) ↦
                let own : same_text source.manager_uri source.own_manager_uri ≡ true =
                  ground (arith, h) in
                let exists : (source.local_id == 0) ≡ false = ground (arith, h) in
                rw (resolve_source_contact, h, e) (inr (refl, (own, exists, (iri, refl, refl))))
            | inr (iri ∷ (iri' ∷ iris), e) ↦ rw (resolve_source_contact, h, e) (inl (refl, refl))
          ]
        ]

  pub fetch_predicates-Step :
      (s : Unmerging)
      → let t = fetch_predicates source s in
        Step t (
          (source.valid ≡ true)
          × ((rows : List Row) × (source.select s.source_contact_iri ≡ answers rows)
              × (t.0 ≡ read_rows source.rdf_type rows s)))
  unfolding fetch_predicates
  fetch_predicates-Step s =
      let answer = source.select s.source_contact_iri in
      elim (Option-cases ((run_query s.request source.valid answer).1)) [
        | inl h ↦
            rw (fetch_predicates, h) (inl (refl, query_failed s.request source.valid answer h))
        | inr (rows, h) ↦
            let (v, a, r) = query_cases s.request source.valid answer rows h in
            rw (fetch_predicates, h)
              (inr (
                refl,
                (
                  v,
                  (rows, a, ap (λ (q : Request). read_rows source.rdf_type rows (set_error q s)) r),
                ),
              ))
      ]

  pub unmerge_contacts-Step :
      (s : Unmerging)
      → let t = unmerge_contacts source s in
        Step t (
          (source.update made ≡ answers tt)
          × (t.0 ≡ record s {
            unmerged_contact_iris = s.unmerged_contact_iris ++ iris_of made;
            sent = s.sent ++ (made ∷ []);
          }))
  unfolding unmerge_contacts
  unmerge_contacts-Step s =
      elim (Option-cases ((run_query s.request source.valid (source.update made)).1)) [
        | inl h ↦
            rw (unmerge_contacts, h)
              (inl (refl, query_failed s.request source.valid (source.update made) h))
        | inr (x, h) ↦
            let (v, a, r) = query_cases s.request source.valid (source.update made) x h in
            rw (unmerge_contacts, h)
              (inr (
                refl,
                (
                  a,
                  ap
                      (λ (q : Request). record s {
                        request = q;
                        unmerged_contact_iris = s.unmerged_contact_iris ++ iris_of made;
                        sent = s.sent ++ (made ∷ []);
                      })
                      r,
                ),
              ))
      ]

  pub resolve_unmerged_contact_ids-Step :
      (s : Unmerging)
      → let t = resolve_unmerged_contact_ids source s in
        Failed t
        ⊎ ((ids : List ℕ) × (source.resolve_ids s.unmerged_contact_iris ≡ looked_up ids)
            × (length ids ≡ length s.unmerged_contact_iris)
            × (t ≡ record s { unmerged_contact_ids = ids }))
  unfolding resolve_unmerged_contact_ids
  resolve_unmerged_contact_ids-Step s =
      elim (Lookup-cases (source.resolve_ids s.unmerged_contact_iris)) [
        | inl (es, e) ↦ rw (resolve_unmerged_contact_ids, e) (inl (reported s.request es))
        | inr (ids, e) ↦ elim (Bool-cases (length ids == length s.unmerged_contact_iris)) [
          | inl h ↦
              let equal = (==_iff (length ids) (length s.unmerged_contact_iris)).0 h in
              rw (resolve_unmerged_contact_ids, e, h) (inr (ids, refl, equal, refl))
          | inr h ↦ rw (resolve_unmerged_contact_ids, e, h) (inl refl)
        ]
      ]

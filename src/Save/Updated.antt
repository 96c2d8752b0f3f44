-- ===== src/Save/Updated.antt =====
-- src/engine/contactsaverequest.cpp: for which contacts a save request runs an update.
use qtcontacts_tracker.Base.{
  ℕ, suc, Bool, true, false, ◌==◌, if◌then◌else◌, Text, List, [], ◌∷◌, ◌++◌, is_empty, ◌⊎◌, length,
  ◌≡◌, refl, arith, Bool-cases, Option-cases, inl, inr, ap, sym, ◌∙◌,
}
use mathlib.Core.Path.{subst}
use mathlib.Core.List.{append_assoc, append-nil}
use qtcontacts_tracker.Request.{
  is_no_error, run_query, init, turn_irreversible, SparqlError, does_not_exist_error,
  set_last_error,
}
use qtcontacts_tracker.Save.Details.{Detail, normalize_contact, writeback_thumbnails}
use qtcontacts_tracker.Save.Run.{
  contact_error, iri_of, group_ids, resolve_groups, Contact, Saving, Lookup, lookup_fails,
  looked_up, is_foreign, collect_iris, report_result, start_saving, Engine, resolve_contact_iris,
  run_update, save_one, save_loop, finish_saving, save_contacts, run,
}

-- The first list has some elements of the second one, in its order.
pub data Sublist : List ℕ → List ℕ → Type 0 where
  nothing : {ys : List ℕ} → Sublist [] ys
  keep : (x : ℕ) {xs ys : List ℕ} → Sublist xs ys → Sublist (x ∷ xs) (x ∷ ys)
  skip : (y : ℕ) {xs ys : List ℕ} → Sublist xs ys → Sublist xs (y ∷ ys)

-- The positions, from one on, of the contacts that are not of another manager.
abbrev pub own_positions : Text → ℕ → List Contact → List ℕ
own_positions own i [] = []
own_positions own i (c ∷ cs) =
    let rest = own_positions own (suc i) cs in
    if is_foreign own c.manager_uri then rest else i ∷ rest

skip_position :
    (foreign : Bool) (i : ℕ) (us rest : List ℕ)
    → Sublist us rest
    → Sublist us (if foreign then rest else i ∷ rest)
skip_position true i us rest sub = sub
skip_position false i us rest sub = skip i sub

keep_position :
    (foreign : Bool) (i : ℕ) (us rest : List ℕ)
    → foreign ≡ false
    → Sublist us rest
    → Sublist (i ∷ us) (if foreign then rest else i ∷ rest)
keep_position true i us rest h sub = absurd (ground (arith, h))
keep_position false i us rest h sub = keep i sub

module _ (engine : Engine) where
  run_update-updated :
      (i : ℕ) (iri : Text) (c : Contact) (details : List Detail) (s : Saving)
      → (run_update engine i iri c details s).updated ≡ s.updated ++ (i ∷ [])
  unfolding run_update
  run_update-updated i iri c details s =
      elim (Option-cases
        ((run_query s.request engine.valid (engine.update i iri s.detail_mask details)).1)) [
          | inl h ↦ rw (run_update, h) refl
          | inr (x, h) ↦ rw (run_update, h) refl
        ]

  -- One turn updates the contact or does not, and not one of another manager.
  abbrev Turn : ℕ → Contact → Saving → Saving → Type 0
  Turn i c s s' =
      (s'.updated ≡ s.updated)
      ⊎ ((s'.updated ≡ s.updated ++ (i ∷ []))
          × (is_foreign engine.manager_uri c.manager_uri ≡ false))

  save_one-Turn :
      (i : ℕ) (iri : Text) (c : Contact) (s : Saving) → Turn i c s ((save_one engine i iri c s).0)
  unfolding save_one
  save_one-Turn i iri c s =
      let is_new = c.local_id == 0 in
      let n = normalize_contact engine.compatible engine.label is_new s.detail_mask c.details in
      let w =
        writeback_thumbnails engine.write_thumbnail engine.file_url is_new s.detail_mask n.0 in
      let s' : Saving = record s { detail_mask = w.mask } in
      elim (Bool-cases (is_empty iri)) [
        | inl h ↦ rw h (inl refl)
        | inr h ↦ elim (Bool-cases (is_foreign engine.manager_uri c.manager_uri)) [
          | inl h' ↦ rw (h, h') (inl refl)
          | inr h' ↦ elim (Bool-cases (is_no_error n.1)) [
            | inr e ↦ rw (h, h', e) (inl refl)
            | inl e ↦ elim (Bool-cases (is_no_error w.error)) [
              | inr e' ↦ rw (h, h', e, e') (inl refl)
              | inl e' ↦ rw (h, h', e, e') (inr (run_update-updated i iri c w.details s', refl))
            ]
          ]
        ]
      ]

  save_loop-Sublist :
      (i : ℕ) (cs : List Contact) (iris : List Text) (s : Saving)
      → (us : List ℕ) × ((save_loop engine i cs iris s).0.updated ≡ s.updated ++ us)
        × Sublist us (own_positions engine.manager_uri i cs)
  unfolding save_loop
  save_loop-Sublist i [] iris s = ([], sym (append-nil s.updated), nothing)
  save_loop-Sublist i (c ∷ cs) [] s = ([], sym (append-nil s.updated), nothing)
  save_loop-Sublist i (c ∷ cs) (iri ∷ iris) s =
      let (us, e, sub) = save_loop-Sublist (suc i) cs iris ((save_one engine i iri c s).0) in
      let rest = own_positions engine.manager_uri (suc i) cs in
      let foreign = is_foreign engine.manager_uri c.manager_uri in
      elim (save_one-Turn i iri c s) [
        | inl same ↦ (us, e ∙ ap (λ l. l ++ us) same, skip_position foreign i us rest sub)
        | inr (one, own) ↦ (
          i ∷ us,
          e ∙ ap (λ l. l ++ us) one ∙ append_assoc s.updated (i ∷ []) us,
          keep_position foreign i us rest own sub,
        )
      ]

Lookup-cases :
    {A : Type 0} (l : Lookup A)
    → ((es : List SparqlError) × (l ≡ lookup_fails es)) ⊎ ((a : A) × (l ≡ looked_up a))
Lookup-cases (lookup_fails es) = inl (es, refl)
Lookup-cases (looked_up a) = inr (a, refl)

finish_saving-updated :
    (engine : Engine) (s : Saving) → (finish_saving engine s).updated ≡ s.updated
unfolding finish_saving report_result
finish_saving-updated engine s = elim (Lookup-cases (engine.resolve_ids s.contact_iris)) [
  | inl (es, h) ↦ rw (finish_saving, h) refl
  | inr (ids, h) ↦ rw (finish_saving, h) refl
]

collect_iris-updated :
    (uuid_iri : ℕ → Text) (cache : List (ℕ × Text)) (i : ℕ) (cs : List Contact) (s : Saving)
    → ((collect_iris uuid_iri cache i cs s).updated ≡ s.updated)
      × ((collect_iris uuid_iri cache i cs s).contacts ≡ s.contacts)
unfolding collect_iris
collect_iris-updated uuid_iri cache i [] s = (refl, refl)
collect_iris-updated uuid_iri cache i (c ∷ cs) s =
    let iri = iri_of uuid_iri cache i c.local_id in
    let found : Saving = record s { contact_iris = s.contact_iris ++ (iri ∷ []) } in
    let missing =
      contact_error i does_not_exist_error
        (record found { request = set_last_error s.request does_not_exist_error }) in
    let next = if is_empty iri then missing else found in
    let (e, e') = collect_iris-updated uuid_iri cache (suc i) cs next in
    let same : (next.updated ≡ s.updated) × (next.contacts ≡ s.contacts) =
      elim (Bool-cases (is_empty iri)) [ inl h ↦ rw h (refl, refl) | inr h ↦ rw h (refl, refl) ] in
    (e ∙ same.0, e' ∙ same.1)

resolve_contact_iris-updated :
    (engine : Engine) (s : Saving)
    → let s' = (resolve_contact_iris engine s).0 in
      (s'.updated ≡ s.updated) × (s'.contacts ≡ s.contacts)
unfolding resolve_contact_iris
resolve_contact_iris-updated engine s =
    elim (Lookup-cases
      (resolve_groups engine.resolve (group_ids engine.manager_uri s.contacts []) [])) [
        | inl (es, h) ↦ rw (resolve_contact_iris, h) (refl, refl)
        | inr (cache, h) ↦
            let s' = collect_iris engine.uuid_iri cache 0 s.contacts s in
            let same = collect_iris-updated engine.uuid_iri cache 0 s.contacts s in
            elim (Bool-cases (length s'.contacts == length s'.contact_iris)) [
              | inl h' ↦ rw (resolve_contact_iris, h, h') same
              | inr h' ↦ rw (resolve_contact_iris, h, h') same
            ]
      ]

save_contacts-Sublist :
    (engine : Engine) (s : Saving)
    → (us : List ℕ) × ((save_contacts engine s).updated ≡ s.updated ++ us)
      × Sublist us (own_positions engine.manager_uri 0 s.contacts)
unfolding save_contacts
save_contacts-Sublist engine s =
    let (us, e, sub) = save_loop-Sublist engine 0 s.contacts s.contact_iris s in
    let (s', cs) = save_loop engine 0 s.contacts s.contact_iris s in
    (us, finish_saving-updated engine (record s' { contacts = cs }) ∙ e, sub)

-- A save request runs its updates in the order of the contacts, at most one for each of them, and
-- none for a contact of another manager, whatever the resolvers, the files and the database answer.
pub run-Sublist :
    (engine : Engine) (contacts : List Contact) (mask : List Text)
    → Sublist
        ((run engine (start_saving contacts mask)).updated)
        (own_positions engine.manager_uri 0 contacts)
unfolding run start_saving init turn_irreversible
run-Sublist engine [] mask = nothing
run-Sublist engine (c ∷ cs) mask =
    let start : Saving = record (start_saving (c ∷ cs) mask) {
      request = (turn_irreversible init).0;
    } in
    let s = (resolve_contact_iris engine start).0 in
    let (none_yet, same) = resolve_contact_iris-updated engine start in
    let (us, e, sub) = save_contacts-Sublist engine s in
    let result = run engine (start_saving (c ∷ cs) mask) in
    let positions = own_positions engine.manager_uri 0 (c ∷ cs) in
    let sub' : Sublist us positions =
      subst (λ contacts. Sublist us (own_positions engine.manager_uri 0 contacts)) same sub in
    let as_before : result.updated ≡ [] → Sublist result.updated positions =
      λ eq. subst (λ l. Sublist l positions) (sym eq) nothing in
    elim (Bool-cases ((resolve_contact_iris engine start).1)) [
      | inr h ↦ as_before (rw (run, h) none_yet)
      | inl h ↦ elim (Bool-cases engine.valid) [
        | inr h' ↦ as_before (rw (run, h, h') none_yet)
        | inl h' ↦
            let saved : result ≡ save_contacts engine s = rw (run, h, h') refl in
            let eq : result.updated ≡ us =
              ap (λ (r : Saving). r.updated) saved ∙ e ∙ ap (λ l. l ++ us) none_yet in
            subst (λ l. Sublist l positions) (sym eq) sub'
      ]
    ]

-- ===== src/Save/Report.antt =====
-- src/engine/contactsaverequest.cpp: what a save request reports for each contact.
use qtcontacts_tracker.Base.{
  ℕ, suc, true, false, not, ◌&&◌, ltb, ◌==◌, if◌then◌else◌, Text, List, [], ◌∷◌, is_empty, length,
  nat_eq, text_eq, lookup, ◌≡◌, inl, inr, refl, arith, Bool-cases, Option-cases, ap, sym, ◌∙◌,
}
use mathlib.Core.Path.{subst}
use qtcontacts_tracker.Request.{
  init, Error, unspecified_error, is_no_error, set_last_error, turn_irreversible,
}
use qtcontacts_tracker.Save.Run.{
  Contact, Saving, looked_up, collect_iris, assign_ids, least, first_error, start_saving, group_ids,
  resolve_groups, report_result, Engine, resolve_contact_iris, save_loop, finish_saving,
  save_contacts, run,
}
use qtcontacts_tracker.Save.Settled.{AllSettled, with_unresolved, assign_ids-Settled}
use qtcontacts_tracker.Save.Recorded.{
  AllErrors, Recorded, insert-AllErrors, SavingRecorded, save_loop-Recorded, collect_iris-Recorded,
}

with_unresolved-AllErrors :
    (i id : ℕ) (errors : List (ℕ × Error))
    → AllErrors errors
    → AllErrors (with_unresolved i id errors)
      × (is_empty errors ≡ false → is_empty (with_unresolved i id errors) ≡ false)
with_unresolved-AllErrors i id errors a =
    let (all, some_) = insert-AllErrors i unspecified_error errors refl a in
    elim (Bool-cases (id == 0)) [
      | inr z ↦ rw z (a, λ h. h)
      | inl z ↦ elim (Option-cases (lookup i errors)) [
        | inl h ↦ rw (z, h) (all, λ h'. some_)
        | inr (e, h) ↦ rw (z, h) (a, λ h'. h')
      ]
    ]

assign_ids-Recorded :
    (own : Text) (last : Error) (i : ℕ) (cs : List Contact) (ids : List ℕ)
    (errors : List (ℕ × Error))
    → Recorded last errors
    → Recorded last ((assign_ids own i cs ids errors).1)
unfolding assign_ids
assign_ids-Recorded own last i [] [] errors inv = inv
assign_ids-Recorded own last i (c ∷ cs) [] errors inv = inv
assign_ids-Recorded own last i [] (id ∷ ids) errors inv = inv
assign_ids-Recorded own last i (c ∷ cs) (id ∷ ids) errors inv =
    let (all, some_) = with_unresolved-AllErrors i id errors inv.0 in
    assign_ids-Recorded own last (suc i) cs ids (with_unresolved i id errors) (
      all,
      elim (Bool-cases (is_empty errors)) [
        | inl h ↦ ground (arith, h, inv.1)
        | inr h ↦ ground (arith, some_ h)
      ],
    )

length-assign_ids :
    (own : Text) (i : ℕ) (cs : List Contact) (ids : List ℕ) (errors : List (ℕ × Error))
    → length ((assign_ids own i cs ids errors).0) ≡ length cs
unfolding assign_ids
length-assign_ids own i [] [] errors = refl
length-assign_ids own i (c ∷ cs) [] errors = refl
length-assign_ids own i [] (id ∷ ids) errors = refl
length-assign_ids own i (c ∷ cs) (id ∷ ids) errors =
    ap suc (length-assign_ids own (suc i) cs ids (with_unresolved i id errors))

least-error :
    (k : ℕ) (e : Error) (errors : List (ℕ × Error))
    → is_no_error e ≡ false
    → AllErrors errors
    → is_no_error (least k e errors) ≡ false
unfolding least
least-error k e [] h a = h
least-error k e ((j, e') ∷ errors) h a = elim (Bool-cases (ltb j k)) [
  | inl l ↦ rw l (least-error j e' errors a.0 a.1)
  | inr l ↦ rw l (least-error k e errors h a.1)
]

report_result-error :
    (s : Saving)
    → SavingRecorded s
    → is_no_error ((report_result s).request.last_error) ≡ is_empty s.error_map
unfolding report_result
report_result-error s inv = go s.error_map inv
  where
    go :
        (errors : List (ℕ × Error))
        → Recorded s.request.last_error errors
        → is_no_error (
            (if is_no_error s.request.last_error && not (is_empty errors)
              then set_last_error s.request (first_error errors)
              else s.request).last_error)
          ≡ is_empty errors
    go [] (all, h) = ground (arith, h)
    go ((k, e) ∷ errors) (all, h) = ground (arith, h, least-error k e errors all.0 all.1)

module _ (engine : Engine) where
  -- A resolver that gives an id for each IRI.
  abbrev pub Resolves : Type 0
  Resolves =
      (iris : List Text)
      → (ids : List ℕ) × (engine.resolve_ids iris ≡ looked_up ids) × (length ids ≡ length iris)

  abbrev Reported : ℕ → Saving → Type 0
  Reported n s =
      (length s.contacts ≡ n)
      × AllSettled engine.manager_uri s.error_map 0 s.contacts
      × (is_no_error s.request.last_error ≡ is_empty s.error_map)

  finish_saving-Reported :
      (s : Saving)
      → Resolves
      → SavingRecorded s
      → length s.contact_iris ≡ length s.contacts
      → Reported (length s.contacts) (finish_saving engine s)
  unfolding finish_saving report_result
  finish_saving-Reported s resolves inv l =
      let (ids, e, l') = resolves s.contact_iris in
      let own = engine.manager_uri in
      let errors = (assign_ids own 0 s.contacts ids s.error_map).1 in
      let cs = (assign_ids own 0 s.contacts ids s.error_map).0 in
      let s' : Saving = record s { contacts = cs; error_map = errors } in
      let same : finish_saving engine s ≡ report_result s' = rw (finish_saving, e) refl in
      subst (Reported (length s.contacts)) (sym same) (
        length-assign_ids own 0 s.contacts ids s.error_map,
        assign_ids-Settled own 0 s.contacts ids s.error_map errors (l' ∙ l) refl,
        report_result-error s'
            (assign_ids-Recorded own s.request.last_error 0 s.contacts ids s.error_map inv),
      )

  save_contacts-Reported :
      (s : Saving)
      → Resolves
      → SavingRecorded s
      → length s.contact_iris ≡ length s.contacts
      → Reported (length s.contacts) (save_contacts engine s)
  unfolding save_contacts
  save_contacts-Reported s resolves inv l =
      let (inv', e, l') = save_loop-Recorded engine 0 s.contacts s.contact_iris s inv in
      let looped = save_loop engine 0 s.contacts s.contact_iris s in
      let s' : Saving = record (looped.0) { contacts = looped.1 } in
      let same : length s'.contact_iris ≡ length s'.contacts = ap length e ∙ l ∙ sym l' in
      subst (λ n. Reported n (finish_saving engine s')) l'
        (finish_saving-Reported s' resolves inv' same)

  -- If the connection is valid and the lookups of IRIs and of ids succeed, then a save request ends
  -- with as many contacts as it was given, and for each of them there is an error at its position,
  -- or it has this manager and an id that is not 0. The request ends with `NoError` exactly if no
  -- contact has an error. The condition on ids: their resolver gives as many ids as it gets IRIs.
  pub run-start_saving :
      (contacts : List Contact) (mask : List Text) (cache : List (ℕ × Text))
      → engine.valid ≡ true
      → resolve_groups engine.resolve (group_ids engine.manager_uri contacts []) []
        ≡ looked_up cache
      → Resolves
      → let s = run engine (start_saving contacts mask) in
        (length s.contacts ≡ length contacts)
        × AllSettled engine.manager_uri s.error_map 0 s.contacts
        × (is_no_error s.request.last_error ≡ is_empty s.error_map)
  unfolding run start_saving init turn_irreversible resolve_contact_iris
  run-start_saving [] mask cache valid found resolves = (refl, tt, refl)
  run-start_saving (c ∷ cs) mask cache valid found resolves =
      let start : Saving = record (start_saving (c ∷ cs) mask) {
        request = (turn_irreversible init).0;
      } in
      let (inv, l, e) = collect_iris-Recorded engine.uuid_iri cache 0 (c ∷ cs) start (tt, refl) in
      let s = collect_iris engine.uuid_iri cache 0 (c ∷ cs) start in
      let l' : length s.contact_iris ≡ length s.contacts = omega (arith, l, ap length e) in
      let resolved : resolve_contact_iris engine start ≡ (s, true) = ground (arith, found, l') in
      let same : run engine (start_saving (c ∷ cs) mask) ≡ save_contacts engine s =
        rw (run, resolved, valid) refl in
      subst (Reported (length (c ∷ cs))) (sym same) (
        subst (λ n. Reported n (save_contacts engine s)) (ap length e)
          (save_contacts-Reported s resolves inv l'))

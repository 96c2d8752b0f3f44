-- ===== src/Save/Recorded.antt =====
-- src/engine/contactsaverequest.cpp: where the request has an error, one is recorded for a contact.
use qtcontacts_tracker.Base.{
  ℕ, suc, ◌+◌, Bool, true, false, not, ◌||◌, ◌==◌, if◌then◌else◌, Text, List, [], ◌∷◌, ◌++◌, none,
  some, is_empty, length, length-append, nat_eq, text_eq, insert, ◌≡◌, inl, inr, refl, arith,
  Bool-cases, Option-cases, All, ap, ◌∙◌,
}
use qtcontacts_tracker.Request.{
  Request, Error, does_not_exist_error, is_no_error, set_last_error, Answer, run_query, fails,
  answers, translate_error, no_space, unsupported, other,
}
use qtcontacts_tracker.Save.Details.{Detail, normalize_contact, writeback_thumbnails}
use qtcontacts_tracker.Save.Run.{
  Contact, Saving, is_foreign, contact_error, iri_of, collect_iris, Engine, run_update, save_one,
  save_loop,
}

-- No recorded error is `NoError`, and where the request has an error, one is recorded.
abbrev pub AllErrors : List (ℕ × Error) → Type 0
AllErrors errors = All (λ p. is_no_error p.1 ≡ false) errors

abbrev pub Recorded : Error → List (ℕ × Error) → Type 0
Recorded last errors = AllErrors errors × (is_no_error last || not (is_empty errors) ≡ true)

pub insert-AllErrors :
    (i : ℕ) (e : Error) (errors : List (ℕ × Error))
    → is_no_error e ≡ false
    → AllErrors errors
    → AllErrors (insert i e errors) × (is_empty (insert i e errors) ≡ false)
unfolding insert
insert-AllErrors i e [] h a = ((h, tt), refl)
insert-AllErrors i e ((j, e') ∷ errors) h a = elim (Bool-cases (j == i)) [
  | inl same ↦ rw same ((h, a.1), refl)
  | inr differ ↦ rw differ ((a.0, (insert-AllErrors i e errors h a.1).0), refl)
]

insert-Recorded :
    (i : ℕ) (e last : Error) (errors : List (ℕ × Error))
    → is_no_error e ≡ false
    → AllErrors errors
    → Recorded last (insert i e errors)
insert-Recorded i e last errors h a =
    let (all, some_) = insert-AllErrors i e errors h a in (all, ground (arith, some_))

run_query-error :
    (r : Request) (valid : Bool) (a : Answer (Unit {0}))
    → (run_query r valid a).1 ≡ none
    → is_no_error ((run_query r valid a).0.last_error) ≡ false
unfolding run_query translate_error
run_query-error r false a h = refl
run_query-error r true (fails no_space) h = refl
run_query-error r true (fails unsupported) h = refl
run_query-error r true (fails other) h = refl
run_query-error r true (answers x) h = absurd (ground (arith, h))

run_query-same :
    (r : Request) (valid : Bool) (a : Answer (Unit {0})) (x : Unit {0})
    → (run_query r valid a).1 ≡ some x
    → (run_query r valid a).0 ≡ r
unfolding run_query
run_query-same r false a x h = absurd (ground (arith, h))
run_query-same r true (fails e) x h = absurd (ground (arith, h))
run_query-same r true (answers y) x h = refl

abbrev pub SavingRecorded : Saving → Type 0
SavingRecorded s = Recorded s.request.last_error s.error_map

module _ (engine : Engine) where
  run_update-Recorded :
      (i : ℕ) (iri : Text) (c : Contact) (details : List Detail) (s : Saving)
      → SavingRecorded s
      → SavingRecorded (run_update engine i iri c details s)
        × ((run_update engine i iri c details s).contact_iris ≡ s.contact_iris)
  unfolding run_update
  run_update-Recorded i iri c details s inv =
      let answer = engine.update i iri s.detail_mask details in
      let r = (run_query s.request engine.valid answer).0 in
      elim (Option-cases ((run_query s.request engine.valid answer).1)) [
        | inl h ↦
            rw (run_update, h)
              (
                insert-Recorded i r.last_error r.last_error s.error_map
                    (run_query-error s.request engine.valid answer h) inv.0,
                refl,
              )
        | inr (x, h) ↦
            rw (run_update, h)
              (
                (inv.0, ground (arith, inv.1, run_query-same s.request engine.valid answer x h)),
                refl,
              )
      ]

  save_one-Recorded :
      (i : ℕ) (iri : Text) (c : Contact) (s : Saving)
      → SavingRecorded s
      → SavingRecorded ((save_one engine i iri c s).0)
        × ((save_one engine i iri c s).0.contact_iris ≡ s.contact_iris)
  unfolding save_one
  save_one-Recorded i iri c s inv =
      let is_new = c.local_id == 0 in
      let n = normalize_contact engine.compatible engine.label is_new s.detail_mask c.details in
      let w =
        writeback_thumbnails engine.write_thumbnail engine.file_url is_new s.detail_mask n.0 in
      let s' : Saving = record s { detail_mask = w.mask } in
      elim (Bool-cases (is_empty iri)) [
        | inl h ↦ rw h (inv, refl)
        | inr h ↦ elim (Bool-cases (is_foreign engine.manager_uri c.manager_uri)) [
          | inl h' ↦
              rw (h, h')
                (
                  insert-Recorded i does_not_exist_error s.request.last_error s.error_map refl
                      inv.0,
                  refl,
                )
          | inr h' ↦ elim (Bool-cases (is_no_error n.1)) [
            | inr e ↦
                rw (h, h', e) (insert-Recorded i n.1 s.request.last_error s.error_map e inv.0, refl)
            | inl e ↦ elim (Bool-cases (is_no_error w.error)) [
              | inr e' ↦
                  rw (h, h', e, e')
                    (insert-Recorded i w.error s.request.last_error s.error_map e' inv.0, refl)
              | inl e' ↦ rw (h, h', e, e') (run_update-Recorded i iri c w.details s' inv)
            ]
          ]
        ]
      ]

  pub save_loop-Recorded :
      (i : ℕ) (cs : List Contact) (iris : List Text) (s : Saving)
      → SavingRecorded s
      → SavingRecorded ((save_loop engine i cs iris s).0)
        × ((save_loop engine i cs iris s).0.contact_iris ≡ s.contact_iris)
        × (length ((save_loop engine i cs iris s).1) ≡ length cs)
  unfolding save_loop
  save_loop-Recorded i [] iris s inv = (inv, refl, refl)
  save_loop-Recorded i (c ∷ cs) [] s inv = (inv, refl, refl)
  save_loop-Recorded i (c ∷ cs) (iri ∷ iris) s inv =
      let (inv', e) = save_one-Recorded i iri c s inv in
      let (inv'', e', l) =
        save_loop-Recorded (suc i) cs iris ((save_one engine i iri c s).0) inv' in
      (inv'', e' ∙ e, ap suc l)

-- Each contact gets an IRI, or an error and an empty one.
pub collect_iris-Recorded :
    (uuid_iri : ℕ → Text) (cache : List (ℕ × Text)) (i : ℕ) (cs : List Contact) (s : Saving)
    → SavingRecorded s
    → let s' = collect_iris uuid_iri cache i cs s in
      SavingRecorded s'
      × (length s'.contact_iris ≡ length s.contact_iris + length cs)
      × (s'.contacts ≡ s.contacts)
unfolding collect_iris
collect_iris-Recorded uuid_iri cache i [] s inv = (inv, omega arith, refl)
collect_iris-Recorded uuid_iri cache i (c ∷ cs) s inv =
    let iri = iri_of uuid_iri cache i c.local_id in
    let l = length-append s.contact_iris (iri ∷ []) in
    let found : Saving = record s { contact_iris = s.contact_iris ++ (iri ∷ []) } in
    let missing =
      contact_error i does_not_exist_error
        (record found { request = set_last_error s.request does_not_exist_error }) in
    let next = if is_empty iri then missing else found in
    let inv' : SavingRecorded next = elim (Bool-cases (is_empty iri)) [
      | inl h ↦
          rw h (insert-Recorded i does_not_exist_error does_not_exist_error s.error_map refl inv.0)
      | inr h ↦ rw h inv
    ] in
    let l' : length next.contact_iris ≡ length s.contact_iris + 1 = ground (arith, l) in
    let e : next.contacts ≡ s.contacts = ground arith in
    let (inv'', l'', e') = collect_iris-Recorded uuid_iri cache (suc i) cs next inv' in
    (inv'', omega (arith, l', l''), e' ∙ e)

-- ===== src/Save/Settled.antt =====
-- src/engine/contactsaverequest.cpp: the ids that are assigned after the updates.
use qtcontacts_tracker.Base.{
  ℕ, suc, true, false, ◌==◌, if◌then◌else◌, Text, List, [], ◌∷◌, none, some, length, nat_eq,
  text_eq, lookup, insert, lookup-insert, ◌≡◌, ◌≢◌, ◌⊎◌, inl, inr, refl, arith, Bool-cases,
  Option-cases, ap, sym, ◌∙◌,
}
use qtcontacts_tracker.Request.{Error, unspecified_error}
use qtcontacts_tracker.Save.Run.{Contact, assign_ids}

-- A contact is saved at a position, or it has an error.
abbrev pub Settled : Text → List (ℕ × Error) → ℕ → Contact → Type 0
Settled own errors i c =
    ((e : Error) × (lookup i errors ≡ some e)) ⊎ ((c.manager_uri ≡ own) × (c.local_id ≢ 0))

abbrev pub AllSettled : Text → List (ℕ × Error) → ℕ → List Contact → Type 0
AllSettled own errors i [] = Unit {0}
AllSettled own errors i (c ∷ cs) = Settled own errors i c × AllSettled own errors (suc i) cs

-- The errors after a turn of the loop that assigns ids.
abbrev pub with_unresolved : ℕ → ℕ → List (ℕ × Error) → List (ℕ × Error)
with_unresolved i id errors =
    let unresolved : List (ℕ × Error) = elim (lookup i errors) [
      | some e ↦ errors
      | none ↦ insert i unspecified_error errors
    ] in
    if id == 0 then unresolved else errors

with_unresolved-keeps :
    (i id j : ℕ) (errors : List (ℕ × Error)) (e : Error)
    → lookup j errors ≡ some e
    → lookup j (with_unresolved i id errors) ≡ some e
with_unresolved-keeps i id j errors e h =
    ground (arith, h, lookup-insert i j unspecified_error errors)

with_unresolved-notes :
    (i id : ℕ) (errors : List (ℕ × Error))
    → (id == 0) ≡ true
    → (e : Error) × (lookup i (with_unresolved i id errors) ≡ some e)
with_unresolved-notes i id errors z = elim (Option-cases (lookup i errors)) [
  | inl h ↦ (unspecified_error, ground (arith, z, h, lookup-insert i i unspecified_error errors))
  | inr (e, h) ↦ (e, ground (arith, h))
]

-- An error that is there stays there.
assign_ids-keeps :
    (own : Text) (i j : ℕ) (cs : List Contact) (ids : List ℕ) (errors : List (ℕ × Error))
    (e : Error)
    → lookup j errors ≡ some e
    → lookup j ((assign_ids own i cs ids errors).1) ≡ some e
unfolding assign_ids
assign_ids-keeps own i j [] [] errors e h = h
assign_ids-keeps own i j (c ∷ cs) [] errors e h = h
assign_ids-keeps own i j [] (id ∷ ids) errors e h = h
assign_ids-keeps own i j (c ∷ cs) (id ∷ ids) errors e h =
    assign_ids-keeps own (suc i) j cs ids (with_unresolved i id errors) e
      (with_unresolved-keeps i id j errors e h)

pub assign_ids-Settled :
    (own : Text) (i : ℕ) (cs : List Contact) (ids : List ℕ) (errors errors' : List (ℕ × Error))
    → length ids ≡ length cs
    → (assign_ids own i cs ids errors).1 ≡ errors'
    → AllSettled own errors' i ((assign_ids own i cs ids errors).0)
unfolding assign_ids
assign_ids-Settled own i [] [] errors errors' h h' = tt
assign_ids-Settled own i [] (id ∷ ids) errors errors' h h' = absurd (omega (arith, h))
assign_ids-Settled own i (c ∷ cs) [] errors errors' h h' = absurd (omega (arith, h))
assign_ids-Settled own i (c ∷ cs) (id ∷ ids) errors errors' h h' =
    let errors'' = with_unresolved i id errors in
    (
      settled (Bool-cases (id == 0)),
      assign_ids-Settled own (suc i) cs ids errors'' errors' (omega (arith, h)) h',
    )
  where
    settled :
        ((id == 0) ≡ true) ⊎ ((id == 0) ≡ false)
        → Settled own errors' i
            (if id == 0 then c else record c { manager_uri = own; local_id = id })
    settled (inl z) =
        let (e, noted) = with_unresolved-notes i id errors z in
        let kept = assign_ids-keeps own (suc i) i cs ids (with_unresolved i id errors) e noted in
        inl (e, ap (lookup i) (sym h') ∙ kept)
    settled (inr z) = rw z (inr (refl, ground (arith, z)))

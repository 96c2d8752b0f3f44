-- ===== src/Presence/Choice.antt =====
-- src/lib/presenceutils.cpp: which details the loop picks.
use qtcontacts_tracker.Base.{◌≤◌, ◌<◌, ◌≡◌, refl, ◌⊎◌, inl, inr, List, [], ◌∷◌, some, All, arith}
use mathlib.Core.Path.{subst}
use mathlib.Core.Option.{some-injective}
use qtcontacts_tracker.Presence.{Presence, Best, rank_of, time_of, best_step, best_from, best}

-- The detail is one of the list.
abbrev pub Among : Presence → List Presence → Type 0
Among p [] = ⊥
Among p (d ∷ ds) = (p ≡ d) ⊎ Among p ds

-- None of the list is more available, or more recent.
abbrev pub IsBest : Best → List Presence → Type 0
IsBest b = All λ d. (rank_of d ≤ rank_of b.most_available) × (time_of d ≤ time_of b.most_recent)

-- The most recent detail is the most available one, if that is as recent.
abbrev pub IsSettled : Best → Type 0
IsSettled b =
    (b.most_recent ≡ b.most_available) ⊎ (time_of b.most_available < time_of b.most_recent)

-- From one pair of details to a later one.
record Grows (b b' : Best) : Type 0 where
  more_available : rank_of b.most_available ≤ rank_of b'.most_available
  more_recent : time_of b.most_recent ≤ time_of b'.most_recent

best_step-IsSettled : (d : Presence) (b : Best) → IsSettled b → IsSettled (best_step d b)
unfolding best_step
best_step-IsSettled d b v = ground arith

best_step-Grows :
    (d : Presence) (b : Best) → Grows b (best_step d b) × IsBest (best_step d b) (d ∷ [])
unfolding best_step
best_step-Grows d b = ground arith

best_step-Among :
    (d : Presence) (b : Best)
    → (((best_step d b).most_available ≡ b.most_available) ⊎ ((best_step d b).most_available ≡ d))
      × (((best_step d b).most_recent ≡ b.most_recent) ⊎ ((best_step d b).most_recent ≡ d))
unfolding best_step
best_step-Among d b = ground arith

best_from-Grows :
    (b : Best) (ds : List Presence) → Grows b (best_from b ds) × IsBest (best_from b ds) ds
unfolding best_from
best_from-Grows b [] = (omega arith, tt)
best_from-Grows b (d ∷ ds) =
    let step = best_step-Grows d b in
    let rest = best_from-Grows (best_step d b) ds in
    (omega (arith, step, rest), (omega (arith, step, rest), rest.1))

best_from-IsSettled : (b : Best) (ds : List Presence) → IsSettled b → IsSettled (best_from b ds)
unfolding best_from
best_from-IsSettled b [] v = v
best_from-IsSettled b (d ∷ ds) v =
    best_from-IsSettled (best_step d b) ds (best_step-IsSettled d b v)

best_from-Among :
    (b : Best) (ds : List Presence)
    → (((best_from b ds).most_available ≡ b.most_available)
        ⊎ Among (best_from b ds).most_available ds)
      × (((best_from b ds).most_recent ≡ b.most_recent) ⊎ Among (best_from b ds).most_recent ds)
unfolding best_from
best_from-Among b [] = (inl refl, inl refl)
best_from-Among b (d ∷ ds) = ground (arith, best_step-Among d b, best_from-Among (best_step d b) ds)

-- The loop picks two details of the contact: one than which no other is more available, and one
-- than which no other is more recent. They are the same detail if the more available one is as
-- recent.
pub best_lem :
    (ds : List Presence) (b : Best)
    → best ds ≡ some b
    → Among b.most_available ds × Among b.most_recent ds × IsBest b ds × IsSettled b
unfolding best
best_lem [] b e = cc
best_lem (d ∷ ds) b e =
    let first : Best = record { most_available = d; most_recent = d } in
    let among = best_from-Among first (d ∷ ds) in
    let grows = best_from-Grows first (d ∷ ds) in
    let settled = best_from-IsSettled first (d ∷ ds) (inl refl) in
    let picked : best_from first (d ∷ ds) ≡ b = some-injective _ _ e in
    subst
      (λ b.
        Among b.most_available (d ∷ ds)
        × Among b.most_recent (d ∷ ds)
        × IsBest b (d ∷ ds)
        × IsSettled b)
      picked (first_of_two among.0, first_of_two among.1, grows.1, settled)
  where
    first_of_two : {p : Presence} → (p ≡ d) ⊎ Among p (d ∷ ds) → Among p (d ∷ ds)
    first_of_two (inl e) = inl e
    first_of_two (inr m) = m

-- ===== src/IdFetch/Tests.antt =====
-- src/engine/contactidfetchrequest.cpp: the theorems at concrete answers.
use qtcontacts_tracker.Base.{ℕ, Bool, false, List, [], ◌∷◌}
use qtcontacts_tracker.Request.{init}
use qtcontacts_tracker.IdFetch.{IdFetch}

abbrev never : ℕ → Bool
never k = false

abbrev rows : List ℕ
rows = 7 ∷ 3 ∷ 7 ∷ 3 ∷ 9 ∷ []

abbrev fresh : IdFetch
fresh = record { request = init; local_ids = [] }

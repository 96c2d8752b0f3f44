-- ===== src/Remove/Tests.antt =====
-- src/engine/contactremoverequest.cpp: the theorems at a concrete removal.
use qtcontacts_tracker.Base.{ℕ, ◌≡◌, refl, true, false, List, [], ◌∷◌, nat_eq}
use qtcontacts_tracker.Request.{init, Answer, answers, permissions_error, no_error}
use qtcontacts_tracker.Resolver.Queries.{concat}
use qtcontacts_tracker.Remove.{run}
use qtcontacts_tracker.Remove.Sending.{run_removes}

abbrev works : List (List ℕ) → Answer (Unit {0})
works qs = answers tt

run_removes_example :
    let s = run true (7, no_error) works init (7 ∷ 8 ∷ []) in
    (concat s.queries ≡ 8 ∷ [])
    × (s.request ≡ record init { cancelable = false; last_error = permissions_error })
unfolding init
run_removes_example = run_removes 7 works init (7 ∷ 8 ∷ []) (λ qs. refl) refl

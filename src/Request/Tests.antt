-- ===== src/Request/Tests.antt =====
-- src/engine/abstractrequest.cpp: the theorems at concrete requests.
use qtcontacts_tracker.Base.{◌≡◌, ◌⊎◌, false, not, [], ◌∷◌}
use qtcontacts_tracker.Request.Cancel.{run, run_exclusive, cancels, turns}

run_exclusive_example :
    let h = run (turns ∷ cancels ∷ []) in
    ((h.canceled_once ≡ false) ⊎ (h.turned_once ≡ false))
    × (h.request.canceled ≡ h.canceled_once)
    × (h.request.cancelable ≡ not h.turned_once)
run_exclusive_example = run_exclusive (turns ∷ cancels ∷ [])

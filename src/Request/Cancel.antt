-- ===== src/Request/Cancel.antt =====
-- src/engine/abstractrequest.cpp: cancellation against the point of no return.
use qtcontacts_tracker.Base.{
  ◌≡◌, ◌⊎◌, Bool, true, false, not, ◌||◌, List, [], ◌∷◌, arith, if◌then◌else◌,
}
use qtcontacts_tracker.Request.{
  Request, canceled_state, finished_state, init, cancel, turn_irreversible, exec,
}

-- The calls of the threads that share a request, in the order in which they get its lock.
pub data Call : Type 0 where
  cancels turns : Call

-- The request after a history of calls, and whether any `cancel` and any `turn_irreversible` in it
-- returned true.
pub record History : Type 0 where
  pub request : Request
  pub canceled_once : Bool
  pub turned_once : Bool

step : History → Call → History
step h cancels =
    let (r, done) = cancel h.request in
    record h { request = r; canceled_once = h.canceled_once || done }
step h turns =
    let (r, done) = turn_irreversible h.request in
    record h { request = r; turned_once = h.turned_once || done }

run_from : History → List Call → History
run_from h [] = h
run_from h (c ∷ cs) = run_from (step h c) cs

pub run : List Call → History
unfolding run_from
run = run_from (record { request = init; canceled_once = false; turned_once = false })

record Inv (h : History) : Type 0 where
  canceled_shown : h.request.canceled ≡ h.canceled_once
  turned_shown : h.turned_once ≡ true → h.request.cancelable ≡ false
  cancelable_shown : h.request.cancelable ≡ false → h.turned_once ≡ true
  one_wins : h.canceled_once ≡ true → h.turned_once ≡ false

step-Inv : (h : History) (c : Call) → Inv h → Inv (step h c)
unfolding step cancel turn_irreversible
step-Inv h cancels v = ground arith
step-Inv h turns v = ground arith

run_from-Inv : (h : History) (cs : List Call) → Inv h → Inv (run_from h cs)
unfolding run_from
run_from-Inv h [] v = v
run_from-Inv h (c ∷ cs) v = run_from-Inv (step h c) cs (step-Inv h c v)

run-Inv : (cs : List Call) → Inv (run cs)
unfolding run init
run-Inv cs = run_from-Inv _ cs (ground arith)

-- In no history of calls on a new request does both a `cancel` and a `turn_irreversible` succeed,
-- and the request shows which did: it is canceled exactly if a `cancel` succeeded, and can be
-- canceled exactly as long as no `turn_irreversible` succeeded.
pub run_exclusive :
    (cs : List Call)
    → let h = run cs in
      ((h.canceled_once ≡ false) ⊎ (h.turned_once ≡ false))
      × (h.request.canceled ≡ h.canceled_once)
      × (h.request.cancelable ≡ not h.turned_once)
run_exclusive cs = ground (arith, run-Inv cs)

-- A worker that starts by turning irreversible, and leaves the flag of cancellation alone after
-- that, is reported as canceled, having done nothing, if it was canceled before; otherwise it does
-- its work, and is reported as finished with the error that the work left.
pub exec_guarded :
    (body : Request → Request) (r : Request)
    → ((s : Request) → (body s).canceled ≡ s.canceled)
    → exec
        (λ s.
          if (turn_irreversible s).1 then body (turn_irreversible s).0 else (turn_irreversible s).0)
        r
      ≡ (if r.canceled then (r, canceled_state) else (
        body (record r { cancelable = false }),
        finished_state (body (record r { cancelable = false })).last_error,
      ))
unfolding exec turn_irreversible
exec_guarded body r keeps = ground (arith, keeps (record r { cancelable = false }))

-- ===== src/Dispatch/Tests.antt =====
-- src/engine/engine.cpp and src/engine/tasks.cpp: requests started in one queue, and in two.
use qtcontacts_tracker.Base.{ℕ, true, false, [], ◌∷◌, some, ◌≡◌, ◌≢◌, refl, lookup}
use qtcontacts_tracker.Dispatch.{
  Start, RequestType, contact_fetch_request, contact_save_request, Engine, init, async_task_queue,
  sync_task_queue, start_request_impl, request_of,
}
use qtcontacts_tracker.Dispatch.Tables.{
  IsMatched, Reach, Step, Reach-IsMatched, start_request_impl_lem,
}
use qtcontacts_tracker.Dispatch.Waiting.{served, tasks_of}
use qtcontacts_tracker.Dispatch.Served.{starts, starts-served}
use qtcontacts_tracker.Dispatch.Unserved.{starts-unserved}

abbrev start_of : RequestType → ℕ → ℕ → Start
start_of type request worker = record {
  request = request;
  type = type;
  special = false;
  missing = false;
  worker = worker;
  deleted_early = false;
  deleted_late = false;
}

abbrev fetch_one : Start
fetch_one = start_of contact_fetch_request 1 10

-- The same request again, with a new worker.
abbrev fetch_again : Start
fetch_again = start_of contact_fetch_request 1 11

abbrev save_two : Start
save_two = start_of contact_save_request 2 20

abbrev fetching : Engine
fetching = (start_request_impl fetch_one async_task_queue (init false)).0

fetching-Reach : Reach false fetching
unfolding init request_of lookup
fetching-Reach = Reach.next Reach.here (Step.start fetch_one async_task_queue refl)

Reach-IsMatched_example : IsMatched fetching
Reach-IsMatched_example = Reach-IsMatched fetching-Reach

start_request_impl_lem_example :
    let t = (start_request_impl fetch_again async_task_queue fetching).0 in
    (request_of 11 t ≡ some 1) × (request_of 10 t ≢ some 1)
unfolding start_request_impl init request_of
start_request_impl_lem_example =
    start_request_impl_lem fetch_again async_task_queue 10 fetching-Reach refl (λ h. cc h) refl

starts-served_example :
    served false false
      (tasks_of sync_task_queue (starts sync_task_queue (save_two ∷ fetch_one ∷ []) (init true)))
    ≡ true
starts-served_example = starts-served sync_task_queue true (save_two ∷ fetch_one ∷ [])

starts-unserved_example :
    served false false (
      tasks_of sync_task_queue
        (start_request_impl save_two sync_task_queue
          (starts async_task_queue (fetch_one ∷ []) (init true))).0)
    ≡ false
unfolding start_request_impl init
starts-unserved_example = starts-unserved true (fetch_one ∷ []) save_two refl (λ h. cc h)

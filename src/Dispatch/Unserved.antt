-- ===== src/Dispatch/Unserved.antt =====
-- src/engine/engine.cpp: the dependencies of tasks in a second queue.
use qtcontacts_tracker.Base.{
  ℕ, Bool, true, false, not, ◌&&◌, List, [], ◌∷◌, ◌++◌, none, ◌≡◌, ◌≢◌, refl, ap, ◌∙◌, arith, inl,
  inr, Bool-cases, Option-cases,
}
use qtcontacts_tracker.Dispatch.{
  Engine, init, TaskQueue, async_task_queue, sync_task_queue, Start, WorkerType, Task, request_task,
  guid_algorithm_task, dependencies, create_request_worker, require_cache, require_guid,
  enqueue_task, start_request_impl,
}
use qtcontacts_tracker.Dispatch.Waiting.{
  served, tasks_of, has_cache, has_cache-append, served-append, SameQueues,
  create_request_worker-SameQueues, cache_done, tasks_of-satisfied, tasks_of-enqueue_task,
  enqueue_task-satisfied,
}
use qtcontacts_tracker.Dispatch.Served.{starts}

-- A queue without the task that fills the cache, while the engine believes that it is enqueued.
abbrev Lacks : TaskQueue → Engine → Type 0
Lacks q s = (cache_done s ≡ true) × (has_cache false (tasks_of q s) ≡ false)

SameQueues-Lacks : (q : TaskQueue) (s t : Engine) → SameQueues s t → Lacks q s → Lacks q t
unfolding SameQueues
SameQueues-Lacks async_task_queue s t (a, b, d) h = rw (← a, ← d) h
SameQueues-Lacks sync_task_queue s t (a, b, d) h = rw (← b, ← d) h

require_cache-Lacks :
    (type : WorkerType) (q : TaskQueue) (s : Engine) → Lacks q s → Lacks q (require_cache type q s)
unfolding require_cache
require_cache-Lacks type q s h =
    let stays : ((dependencies type).resource_cache && not (cache_done s)) ≡ false =
      ground (arith, h.0) in
    rw (stays, require_cache) h

require_guid-Lacks :
    (type : WorkerType) (q : TaskQueue) (s : Engine) → Lacks q s → Lacks q (require_guid type q s)
unfolding require_guid
require_guid-Lacks type q s h =
    elim (Bool-cases
      ((dependencies type).guid_algorithm && not s.satisfied_dependencies.guid_algorithm)) [
        | inr n ↦ rw (n, require_guid) h
        | inl y ↦
            let s' = enqueue_task guid_algorithm_task q s in
            let d = enqueue_task-satisfied guid_algorithm_task q s in
            let e =
              tasks_of-satisfied q s' (record s'.satisfied_dependencies { guid_algorithm = true })
              ∙ tasks_of-enqueue_task q guid_algorithm_task s in
            rw (y, require_guid)
              (
                ap (λ d. d.resource_cache) d ∙ h.0,
                rw e (has_cache-append false (tasks_of q s) guid_algorithm_task ∙ h.1),
              )
      ]

depends_on_cache : (type : WorkerType) → (dependencies type).resource_cache ≡ true
unfolding dependencies
depends_on_cache WorkerType.contact_save = refl
depends_on_cache _ = refl

unserved_request :
    (ts : List Task) (w : ℕ) (type : WorkerType)
    → has_cache false ts ≡ false
    → served false false (ts ++ (request_task w type ∷ [])) ≡ false
unfolding served
unserved_request ts w type h =
    served-append false false ts (request_task w type) ∙ ground (arith, h, depends_on_cache type)

start_request_impl-unserved :
    (c : Start) (q : TaskQueue) (s : Engine)
    → Lacks q s
    → (start_request_impl c q s).1 ≢ none
    → served false false (tasks_of q (start_request_impl c q s).0) ≡ false
unfolding start_request_impl
start_request_impl-unserved c q s h started =
    let (s1, created) = create_request_worker c s in
    let h1 = SameQueues-Lacks q s s1 (create_request_worker-SameQueues c s) h in
    elim (Option-cases created) [
      | inl n ↦ absurd (started (rw (n, start_request_impl)))
      | inr (type, e) ↦
          let s2 = require_cache type q s1 in
          let s3 = require_guid type q s2 in
          let h3 = require_guid-Lacks type q s2 (require_cache-Lacks type q s1 h1) in
          let s4 = record s3 { active = s3.active ++ (c.request ∷ []) } in
          let h4 = SameQueues-Lacks q s3 s4 (unfold SameQueues in (refl, refl, refl)) h3 in
          let task = request_task c.worker type in
          elim (Bool-cases c.deleted_early) [
            | inl y ↦ absurd (started (rw (e, y, start_request_impl)))
            | inr n ↦ elim (Bool-cases c.deleted_late) [
              | inl y ↦ absurd (started (rw (e, n, y, start_request_impl)))
              | inr n' ↦
                  rw (e, n, n', start_request_impl)
                    (rw (tasks_of-enqueue_task q task s4)
                      (unserved_request (tasks_of q s4) c.worker type h4.1))
            ]
          ]
    ]

-- Requests for one queue leave the other one as it is.
start_request_impl-sync_queue :
    (c : Start) (s : Engine) → (start_request_impl c async_task_queue s).0.sync_queue ≡ s.sync_queue
unfolding start_request_impl require_cache require_guid enqueue_task SameQueues
start_request_impl-sync_queue c s =
    let (s1, created) = create_request_worker c s in
    let same = create_request_worker-SameQueues c s in ground (arith, same)

starts-sync_queue :
    (cs : List Start) (s : Engine) → (starts async_task_queue cs s).sync_queue ≡ s.sync_queue
starts-sync_queue [] s = refl
starts-sync_queue (c ∷ cs) s =
    starts-sync_queue cs (start_request_impl c async_task_queue s).0
    ∙ start_request_impl-sync_queue c s

-- With a second queue this fails. Once an asynchronous request has had the resource cache filled,
-- the first synchronous request gets its task in a queue where no such task is ahead of it.
pub starts-unserved :
    (skip : Bool) (cs : List Start) (c : Start)
    → let s = starts async_task_queue cs (init skip) in
      cache_done s ≡ true
      → (start_request_impl c sync_task_queue s).1 ≢ none
      → served false false (tasks_of sync_task_queue (start_request_impl c sync_task_queue s).0)
        ≡ false
unfolding init
starts-unserved skip cs c cached started =
    let s = starts async_task_queue cs (init skip) in
    let empty : s.sync_queue ≡ none = starts-sync_queue cs (init skip) in
    start_request_impl-unserved c sync_task_queue s (cached, rw (empty, has_cache) refl) started

-- ===== src/Dispatch/Served.antt =====
-- src/engine/engine.cpp: tasks that depend on the resource cache or on the GUID algorithm.
use qtcontacts_tracker.Base.{
  Bool, true, false, not, ◌&&◌, List, [], ◌∷◌, ◌++◌, ◌≡◌, refl, sym, ap, ◌∙◌, arith, inl, inr,
  Bool-cases, Option-cases,
}
use qtcontacts_tracker.Dispatch.{
  Engine, init, TaskQueue, async_task_queue, sync_task_queue, Start, WorkerType, Task, Dependencies,
  resource_cache_task, guid_algorithm_task, request_task, dependencies, drop_request,
  create_request_worker, require_cache, require_guid, enqueue_task, start_request_impl,
}
use qtcontacts_tracker.Dispatch.Waiting.{
  implies, served, tasks_of, has_cache, has_guid, served-append, has_cache-append, has_guid-append,
  IsServed, tasks_of-enqueue_task, SameQueues, drop_request-SameQueues,
  create_request_worker-SameQueues, SameQueues-IsServed, cache_done, guid_done,
  enqueue_task-satisfied, tasks_of-satisfied,
}

and_true : (true && true) ≡ true
and_true = refl

enqueue_task-IsServed :
    (q : TaskQueue) (t : Task) (s : Engine) (d : Dependencies)
    → IsServed q s
    → served (cache_done s) (guid_done s) (t ∷ []) ≡ true
    → has_cache (cache_done s) (t ∷ []) ≡ d.resource_cache
    → has_guid (guid_done s) (t ∷ []) ≡ d.guid_algorithm
    → IsServed q (record (enqueue_task t q s) { satisfied_dependencies = d })
enqueue_task-IsServed q t s d i a b c =
    let ts = tasks_of q s in
    let e = tasks_of-satisfied q (enqueue_task t q s) d ∙ tasks_of-enqueue_task q t s in
    record {
      ordered = rw e (cc (served-append false false ts t, i.ordered, i.cache, i.guid, a, and_true));
      cache = rw e (has_cache-append false ts t ∙ rw i.cache b);
      guid = rw e (has_guid-append false ts t ∙ rw i.guid c);
    }

require_cache-IsServed :
    (type : WorkerType) (q : TaskQueue) (s : Engine)
    → IsServed q s
    → IsServed q (require_cache type q s)
      × (implies (dependencies type).resource_cache (cache_done (require_cache type q s)) ≡ true)
unfolding require_cache served
require_cache-IsServed type q s i =
    elim (Bool-cases ((dependencies type).resource_cache && not (cache_done s))) [
      | inr n ↦ rw (n, require_cache) (i, ground (arith, n))
      | inl y ↦
          rw (y, require_cache)
            (
              enqueue_task-IsServed q resource_cache_task s
                  (record (enqueue_task resource_cache_task q s).satisfied_dependencies {
                    resource_cache = true;
                  })
                  i refl refl
                  (ap (λ d. d.guid_algorithm)
                    (sym (enqueue_task-satisfied resource_cache_task q s))),
              ground arith,
            )
    ]

require_guid-IsServed :
    (type : WorkerType) (q : TaskQueue) (s : Engine)
    → IsServed q s
    → IsServed q (require_guid type q s)
      × (implies (dependencies type).guid_algorithm (guid_done (require_guid type q s)) ≡ true)
      × (cache_done (require_guid type q s) ≡ cache_done s)
unfolding require_guid served
require_guid-IsServed type q s i =
    let d = enqueue_task-satisfied guid_algorithm_task q s in
    elim (Bool-cases ((dependencies type).guid_algorithm && not (guid_done s))) [
      | inr n ↦ rw (n, require_guid) (i, ground (arith, n), refl)
      | inl y ↦
          rw (y, require_guid)
            (
              enqueue_task-IsServed q guid_algorithm_task s
                  (record (enqueue_task guid_algorithm_task q s).satisfied_dependencies {
                    guid_algorithm = true;
                  })
                  i refl (ap (λ d. d.resource_cache) (sym d)) refl,
              ground arith,
              ap (λ d. d.resource_cache) d,
            )
    ]

start_request_impl-IsServed :
    (c : Start) (q : TaskQueue) (s : Engine)
    → IsServed q s
    → IsServed q (start_request_impl c q s).0
unfolding start_request_impl served
start_request_impl-IsServed c q s i =
    let (s1, created) = create_request_worker c s in
    let i1 = SameQueues-IsServed q s s1 (create_request_worker-SameQueues c s) i in
    elim (Option-cases created) [
      | inl n ↦ rw (n, start_request_impl) i1
      | inr (type, e) ↦
          let (i2, cached) = require_cache-IsServed type q s1 i1 in
          let s2 = require_cache type q s1 in
          let (i3, ready, kept) = require_guid-IsServed type q s2 i2 in
          let s3 = require_guid type q s2 in
          let s4 = record s3 { active = s3.active ++ (c.request ∷ []) } in
          let i4 = SameQueues-IsServed q s3 s4 (unfold SameQueues in (refl, refl, refl)) i3 in
          let task = request_task c.worker type in
          let d = enqueue_task-satisfied task q s4 in
          elim (Bool-cases c.deleted_early) [
            | inl y ↦
                rw (e, y, start_request_impl)
                  (SameQueues-IsServed q s1 (drop_request c.request s1)
                    (drop_request-SameQueues c.request s1) i1)
            | inr n ↦ elim (Bool-cases c.deleted_late) [
              | inl y ↦
                  rw (e, n, y, start_request_impl)
                    (SameQueues-IsServed q s4 (drop_request c.request s4)
                      (drop_request-SameQueues c.request s4) i4)
              | inr n' ↦
                  rw (e, n, n', start_request_impl)
                    (enqueue_task-IsServed q task s4 (enqueue_task task q s4).satisfied_dependencies
                      i4 (ground (arith, cached, ready, kept)) (ap (λ x. x.resource_cache) (sym d))
                      (ap (λ x. x.guid_algorithm) (sym d)))
            ]
          ]
    ]

-- Requests started one after the other in one queue.
abbrev pub starts : TaskQueue → List Start → Engine → Engine
starts q [] s = s
starts q (c ∷ cs) s = starts q cs (start_request_impl c q s).0

starts-IsServed :
    (q : TaskQueue) (cs : List Start) (s : Engine) → IsServed q s → IsServed q (starts q cs s)
starts-IsServed q [] s i = i
starts-IsServed q (c ∷ cs) s i =
    starts-IsServed q cs (start_request_impl c q s).0 (start_request_impl-IsServed c q s i)

init-IsServed : (q : TaskQueue) (skip : Bool) → IsServed q (init skip)
unfolding init served
init-IsServed async_task_queue skip = record { ordered = refl; cache = refl; guid = refl }
init-IsServed sync_task_queue skip = record { ordered = refl; cache = refl; guid = refl }

-- However many requests a new engine starts in one queue, each request's task there is behind the
-- tasks that fill the resource cache and prepare the GUID algorithm, if it depends on them.
pub starts-served :
    (q : TaskQueue) (skip : Bool) (cs : List Start)
    → served false false (tasks_of q (starts q cs (init skip))) ≡ true
starts-served q skip cs = (starts-IsServed q cs (init skip) (init-IsServed q skip)).ordered

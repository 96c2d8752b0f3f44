-- ===== src/Dispatch/Waiting.antt =====
-- src/engine/engine.cpp: the tasks that wait in a queue, and those before which they must not run.
use qtcontacts_tracker.Base.{
  ℕ, Bool, true, false, not, ◌&&◌, ◌||◌, List, [], ◌∷◌, ◌++◌, none, some, ◌≡◌, refl, arith,
  Option-cases,
}
use qtcontacts_tracker.Dispatch.{
  Engine, TaskQueue, async_task_queue, sync_task_queue, Start, Task, Dependencies,
  resource_cache_task, guid_algorithm_task, request_task, dependencies, check_security_tokens,
  drop_request, create_request_worker, enqueue_task,
}

abbrev pub implies : Bool → Bool → Bool
implies a b = not a || b

-- In a queue, each request's task is behind the tasks that it depends on. The flags tell which of
-- these are ahead of the list.
unfoldable pub served : Bool → Bool → List Task → Bool
unfolding dependencies
served cache guid [] = true
served cache guid (resource_cache_task ∷ ts) = served true guid ts
served cache guid (guid_algorithm_task ∷ ts) = served cache true ts
served cache guid (request_task w type ∷ ts) =
    (implies (dependencies type).resource_cache cache
      && implies (dependencies type).guid_algorithm guid)
    && served cache guid ts

abbrev pub tasks_of : TaskQueue → Engine → List Task
tasks_of async_task_queue s = elim s.async_queue [ none ↦ [] | some tasks ↦ tasks ]
tasks_of sync_task_queue s = elim s.sync_queue [ none ↦ [] | some tasks ↦ tasks ]

abbrev pub has_cache : Bool → List Task → Bool
has_cache seen [] = seen
has_cache seen (resource_cache_task ∷ ts) = has_cache true ts
has_cache seen (guid_algorithm_task ∷ ts) = has_cache seen ts
has_cache seen (request_task w type ∷ ts) = has_cache seen ts

abbrev pub has_guid : Bool → List Task → Bool
has_guid seen [] = seen
has_guid seen (resource_cache_task ∷ ts) = has_guid seen ts
has_guid seen (guid_algorithm_task ∷ ts) = has_guid true ts
has_guid seen (request_task w type ∷ ts) = has_guid seen ts

pub served-append :
    (c g : Bool) (ts : List Task) (t : Task)
    → served c g (ts ++ (t ∷ []))
      ≡ (served c g ts && served (has_cache c ts) (has_guid g ts) (t ∷ []))
unfolding served
served-append c g [] t = refl
served-append c g (resource_cache_task ∷ ts) t = served-append true g ts t
served-append c g (guid_algorithm_task ∷ ts) t = served-append c true ts t
served-append c g (request_task w type ∷ ts) t = ground (arith, served-append c g ts t)

pub has_cache-append :
    (c : Bool) (ts : List Task) (t : Task)
    → has_cache c (ts ++ (t ∷ [])) ≡ has_cache (has_cache c ts) (t ∷ [])
has_cache-append c [] t = refl
has_cache-append c (resource_cache_task ∷ ts) t = has_cache-append true ts t
has_cache-append c (guid_algorithm_task ∷ ts) t = has_cache-append c ts t
has_cache-append c (request_task w type ∷ ts) t = has_cache-append c ts t

pub has_guid-append :
    (c : Bool) (ts : List Task) (t : Task)
    → has_guid c (ts ++ (t ∷ [])) ≡ has_guid (has_guid c ts) (t ∷ [])
has_guid-append c [] t = refl
has_guid-append c (resource_cache_task ∷ ts) t = has_guid-append c ts t
has_guid-append c (guid_algorithm_task ∷ ts) t = has_guid-append true ts t
has_guid-append c (request_task w type ∷ ts) t = has_guid-append c ts t

-- The flags of the engine are true to the queue, and the queue is in order.
pub record IsServed (q : TaskQueue) (s : Engine) : Type 0 where
  pub ordered : served false false (tasks_of q s) ≡ true
  pub cache : has_cache false (tasks_of q s) ≡ s.satisfied_dependencies.resource_cache
  pub guid : has_guid false (tasks_of q s) ≡ s.satisfied_dependencies.guid_algorithm

pub tasks_of-enqueue_task :
    (q : TaskQueue) (t : Task) (s : Engine)
    → tasks_of q (enqueue_task t q s) ≡ tasks_of q s ++ (t ∷ [])
unfolding enqueue_task
tasks_of-enqueue_task async_task_queue t s = ground (arith, Option-cases s.async_queue)
tasks_of-enqueue_task sync_task_queue t s = ground (arith, Option-cases s.sync_queue)

-- What does not touch the queues.
unfoldable pub SameQueues : Engine → Engine → Type 0
SameQueues s t =
    (s.async_queue ≡ t.async_queue)
    × (s.sync_queue ≡ t.sync_queue)
    × (s.satisfied_dependencies ≡ t.satisfied_dependencies)

pub drop_request-SameQueues : (r : ℕ) (s : Engine) → SameQueues s (drop_request r s)
unfolding drop_request SameQueues
drop_request-SameQueues r s = ground arith

pub create_request_worker-SameQueues :
    (c : Start) (s : Engine) → SameQueues s (create_request_worker c s).0
unfolding create_request_worker check_security_tokens SameQueues
create_request_worker-SameQueues c s =
    let s1 = (check_security_tokens c.missing s).0 in
    ground (arith, drop_request-SameQueues c.request s1)

pub SameQueues-IsServed :
    (q : TaskQueue) (s t : Engine) → SameQueues s t → IsServed q s → IsServed q t
unfolding SameQueues
SameQueues-IsServed async_task_queue s t (a, b, d) i = record {
  ordered = rw (← a) i.ordered;
  cache = rw (← a, ← d) i.cache;
  guid = rw (← a, ← d) i.guid;
}
SameQueues-IsServed sync_task_queue s t (a, b, d) i = record {
  ordered = rw (← b) i.ordered;
  cache = rw (← b, ← d) i.cache;
  guid = rw (← b, ← d) i.guid;
}

abbrev pub cache_done : Engine → Bool
cache_done s = s.satisfied_dependencies.resource_cache

abbrev pub guid_done : Engine → Bool
guid_done s = s.satisfied_dependencies.guid_algorithm

pub enqueue_task-satisfied :
    (t : Task) (q : TaskQueue) (s : Engine)
    → (enqueue_task t q s).satisfied_dependencies ≡ s.satisfied_dependencies
unfolding enqueue_task
enqueue_task-satisfied t async_task_queue s = refl
enqueue_task-satisfied t sync_task_queue s = refl

pub tasks_of-satisfied :
    (q : TaskQueue) (s : Engine) (d : Dependencies)
    → tasks_of q (record s { satisfied_dependencies = d }) ≡ tasks_of q s
tasks_of-satisfied async_task_queue s d = refl
tasks_of-satisfied sync_task_queue s d = refl

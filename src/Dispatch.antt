-- ===== src/Dispatch.antt =====
-- src/engine/engine.cpp and src/engine/tasks.cpp: how a request becomes a task of a queue.
--
-- Requests and workers are numbers, their addresses. Both tables are changed under the same locks,
-- so each method is one step. A queue is the list of the tasks that were ever enqueued there; what
-- it does with them is in Queue. Which security tokens are missing, the address of a new worker,
-- and whether a client deletes the request meanwhile are arguments.
use qtcontacts_tracker.Base.{
  ℕ, Bool, true, false, not, ◌&&◌, if◌then◌else◌, List, [], ◌∷◌, ◌++◌, Option, none, some, nat_eq,
  lookup, insert, remove,
}
pub mod Tables
pub mod Waiting
pub mod Served
mod Unserved
mod Tests

-- `QContactAbstractRequest::RequestType`.
pub data RequestType : Type 0 where
  contact_fetch_request contact_fetch_by_id_request contact_local_id_fetch_request : RequestType
  contact_remove_request contact_save_request relationship_fetch_request : RequestType
  relationship_remove_request relationship_save_request : RequestType
  detail_definition_fetch_request invalid_request detail_definition_remove_request : RequestType
  detail_definition_save_request : RequestType

-- The classes of workers.
pub data WorkerType : Type 0 where
  contact_fetch contact_fetch_by_id contact_id_fetch contact_remove : WorkerType
  contact_copy_and_remove contact_save contact_save_or_unmerge : WorkerType
  relationship_fetch relationship_remove relationship_save : WorkerType
  detail_definition_fetch : WorkerType

-- `QTrackerAbstractRequest::Dependencies`.
pub record Dependencies : Type 0 where
  pub resource_cache : Bool
  pub guid_algorithm : Bool

-- `dependencies()`: the worker that saves contacts has its own, and all others have the default.
unfoldable pub dependencies : WorkerType → Dependencies
dependencies contact_save = record { resource_cache = true; guid_algorithm = true }
dependencies _ = record { resource_cache = true; guid_algorithm = false }

pub data Task : Type 0 where
  resource_cache_task guid_algorithm_task : Task
  request_task : ℕ → WorkerType → Task

pub data TaskQueue : Type 0 where
  async_task_queue sync_task_queue : TaskQueue

-- The state of `QContactTrackerEngineData` that requests use, and the requests that were brought
-- into active state.
pub record Engine : Type 0 where
  pub mandatory_tokens_found : Bool
  pub workers_by_request : List (ℕ × ℕ)
  pub requests_by_worker : List (ℕ × ℕ)
  pub satisfied_dependencies : Dependencies
  pub async_queue : Option (List Task)
  pub sync_queue : Option (List Task)
  pub active : List ℕ

-- The constructor: `skip` is the debug flag `SkipSecurityChecks`.
unfoldable pub init : Bool → Engine
init skip = record {
  mandatory_tokens_found = skip;
  workers_by_request = [];
  requests_by_worker = [];
  satisfied_dependencies = record { resource_cache = false; guid_algorithm = false };
  async_queue = none;
  sync_queue = none;
  active = [];
}

-- The queue is made on demand.
abbrev pub append_task : Option (List Task) → Task → Option (List Task)
append_task none task = some (task ∷ [])
append_task (some tasks) task = some (tasks ++ (task ∷ []))

unfoldable pub enqueue_task : Task → TaskQueue → Engine → Engine
enqueue_task task async_task_queue s = record s { async_queue = append_task s.async_queue task }
enqueue_task task sync_task_queue s = record s { sync_queue = append_task s.sync_queue task }

-- `missing`: a required security token is missing.
unfoldable pub check_security_tokens : Bool → Engine → Engine × Bool
check_security_tokens missing s =
    if s.mandatory_tokens_found
    then (s, true)
    else (if missing then (s, false) else (record s { mandatory_tokens_found = true }, true))

-- `dropRequest`, and `requestDestroyed`, which calls it.
unfoldable pub drop_request : ℕ → Engine → Engine
unfolding lookup remove
drop_request request s = elim (lookup request s.workers_by_request) [
  | none ↦ s
  | some worker ↦ record s {
    workers_by_request = remove request s.workers_by_request;
    requests_by_worker = remove worker s.requests_by_worker;
  }
]

-- The switch: `special` tells that the request is the subclass for merging, or for unmerging.
unfoldable pub worker_type : RequestType → Bool → Option WorkerType
worker_type contact_fetch_request special = some contact_fetch
worker_type contact_fetch_by_id_request special = some contact_fetch_by_id
worker_type contact_local_id_fetch_request special = some contact_id_fetch
worker_type contact_remove_request special =
    some (if special then contact_copy_and_remove else contact_remove)
worker_type contact_save_request special =
    some (if special then contact_save_or_unmerge else contact_save)
worker_type relationship_fetch_request special = some relationship_fetch
worker_type relationship_remove_request special = some relationship_remove
worker_type relationship_save_request special = some relationship_save
worker_type detail_definition_fetch_request special = some detail_definition_fetch
worker_type invalid_request special = none
worker_type detail_definition_remove_request special = none
worker_type detail_definition_save_request special = none

-- A request to start, and what its surroundings do.
pub record Start : Type 0 where
  pub request : ℕ
  pub type : RequestType
  pub special : Bool
  pub missing : Bool
  pub worker : ℕ
  pub deleted_early : Bool
  pub deleted_late : Bool

unfoldable pub create_request_worker : Start → Engine → Engine × Option WorkerType
unfolding check_security_tokens drop_request worker_type insert
create_request_worker c s =
    let (s1, found) = check_security_tokens c.missing s in
    let s2 = drop_request c.request s1 in
    let tracked = record s2 {
      workers_by_request = insert c.request c.worker s2.workers_by_request;
      requests_by_worker = insert c.worker c.request s2.requests_by_worker;
    } in
    if not found then (s1, none) else elim (worker_type c.type c.special) [
      | none ↦ (s2, none)
      | some type ↦ (tracked, some type)
    ]

-- The two tasks that other tasks wait for, each enqueued at most once.
unfoldable pub require_cache : WorkerType → TaskQueue → Engine → Engine
unfolding dependencies enqueue_task
require_cache type queue s =
    if (dependencies type).resource_cache && not s.satisfied_dependencies.resource_cache
    then (let s' = enqueue_task resource_cache_task queue s in
        record s' {
          satisfied_dependencies = record s'.satisfied_dependencies { resource_cache = true };
        })
    else s

unfoldable pub require_guid : WorkerType → TaskQueue → Engine → Engine
unfolding dependencies enqueue_task
require_guid type queue s =
    if (dependencies type).guid_algorithm && not s.satisfied_dependencies.guid_algorithm
    then (let s' = enqueue_task guid_algorithm_task queue s in
        record s' {
          satisfied_dependencies = record s'.satisfied_dependencies { guid_algorithm = true };
        })
    else s

-- `startRequestImpl`: the state, and the worker whose task was enqueued. A deleted request is
-- dropped, and its task is deleted.
unfoldable pub start_request_impl : Start → TaskQueue → Engine → Engine × Option ℕ
unfolding create_request_worker require_cache require_guid
start_request_impl c queue s =
    let (s1, created) = create_request_worker c s in
    elim created [
      | none ↦ (s1, none)
      | some type ↦
          let s2 = require_guid type queue (require_cache type queue s1) in
          let s3 = record s2 { active = s2.active ++ (c.request ∷ []) } in
          if c.deleted_early
          then (drop_request c.request s1, none)
          else (if c.deleted_late
              then (drop_request c.request s3, none)
              else (enqueue_task (request_task c.worker type) queue s3, some c.worker))
    ]

-- `request(worker)`.
unfoldable pub request_of : ℕ → Engine → Option ℕ
unfolding lookup
request_of worker s = lookup worker s.requests_by_worker

-- `onStateChanged` of the worker's task, with a state that ends the request: the state, and
-- whether the task says that it has finished.
unfoldable pub on_state_changed : ℕ → Engine → Engine × Bool
unfolding request_of drop_request
on_state_changed worker s = elim (request_of worker s) [
  | none ↦ (s, false)
  | some request ↦ (drop_request request s, true)
]

-- ===== src/Dispatch/Tables.antt =====
-- src/engine/engine.cpp: the two tables that bind requests and workers to each other.
use qtcontacts_tracker.Base.{
  ℕ, Bool, List, [], ◌∷◌, ◌++◌, Option, none, some, nat_eq, lookup, insert, remove, ◌≡◌, ◌↔◌, refl,
  lookup-insert, lookup-insert_self, lookup-remove, ◌≢◌, arith, inl, inr, Bool-cases, Option-cases,
}
use qtcontacts_tracker.Dispatch.{
  Engine, init, TaskQueue, Start, WorkerType, Task, check_security_tokens, drop_request,
  worker_type, create_request_worker, require_cache, require_guid, enqueue_task, start_request_impl,
  request_of, on_state_changed,
}

abbrev pub Matched : List (ℕ × ℕ) → List (ℕ × ℕ) → Type 0
Matched ws rs = (r w : ℕ) → (lookup r ws ≡ some w) ↔ (lookup w rs ≡ some r)

-- A worker is the worker of a request exactly if the request is the request of the worker.
abbrev pub IsMatched : Engine → Type 0
IsMatched s = Matched s.workers_by_request s.requests_by_worker

remove-Matched :
    (ws rs : List (ℕ × ℕ)) (r w : ℕ)
    → Matched ws rs
    → lookup r ws ≡ some w
    → Matched (remove r ws) (remove w rs)
remove-Matched ws rs r w m h q v =
    ground (arith, lookup-remove r q ws, lookup-remove w v rs, m q v, m r w, m r v, m q w)

some-ne-none {ℓ} : {A : Type ℓ} {a : A} → some a ≢ none
some-ne-none h = cc h

insert-Matched :
    (ws rs : List (ℕ × ℕ)) (r w : ℕ)
    → Matched ws rs
    → lookup r ws ≡ none
    → lookup w rs ≡ none
    → Matched (insert r w ws) (insert w r rs)
insert-Matched ws rs r w m h k q v =
    ground (arith, lookup-insert r q w ws, lookup-insert w v r rs, m q v, m r v, m q w)

drop_request-IsMatched : (r : ℕ) (s : Engine) → IsMatched s → IsMatched (drop_request r s)
unfolding drop_request
drop_request-IsMatched r s m = elim (Option-cases (lookup r s.workers_by_request)) [
  | inl n ↦ rw (n, drop_request) m
  | inr (w, e) ↦
      rw (e, drop_request) (remove-Matched s.workers_by_request s.requests_by_worker r w m e)
]

drop_request-free : (r : ℕ) (s : Engine) → lookup r (drop_request r s).workers_by_request ≡ none
unfolding drop_request
drop_request-free r s =
    ground
      (arith, Option-cases (lookup r s.workers_by_request), lookup-remove r r s.workers_by_request)

drop_request-fresh :
    (r w : ℕ) (s : Engine) → request_of w s ≡ none → request_of w (drop_request r s) ≡ none
unfolding drop_request request_of
drop_request-fresh r w s h = elim (Option-cases (lookup r s.workers_by_request)) [
  | inl n ↦ rw (n, drop_request) h
  | inr (v, e) ↦ rw (e, drop_request) (ground (arith, lookup-remove v w s.requests_by_worker))
]

-- What does not touch the tables.
SameTables : Engine → Engine → Type 0
SameTables s t =
    (s.workers_by_request ≡ t.workers_by_request) × (s.requests_by_worker ≡ t.requests_by_worker)

SameTables-IsMatched : (s t : Engine) → SameTables s t → IsMatched s → IsMatched t
unfolding SameTables
SameTables-IsMatched s t (a, b) m = rw (← a, ← b) m

check_security_tokens-SameTables :
    (missing : Bool) (s : Engine) → SameTables s (check_security_tokens missing s).0
unfolding check_security_tokens SameTables
check_security_tokens-SameTables missing s = ground arith

enqueue_task-SameTables :
    (task : Task) (queue : TaskQueue) (s : Engine) → SameTables s (enqueue_task task queue s)
unfolding enqueue_task SameTables
enqueue_task-SameTables task TaskQueue.async_task_queue s = (refl, refl)
enqueue_task-SameTables task TaskQueue.sync_task_queue s = (refl, refl)

require-SameTables :
    (type : WorkerType) (queue : TaskQueue) (s : Engine)
    → SameTables s (require_guid type queue (require_cache type queue s))
unfolding require_guid require_cache SameTables
require-SameTables type queue s =
    let s1 = require_cache type queue s in
    ground (
      arith,
      enqueue_task-SameTables Task.resource_cache_task queue s,
      enqueue_task-SameTables Task.guid_algorithm_task queue s1,
      enqueue_task-SameTables Task.guid_algorithm_task queue s,
    )

-- After the creation of a worker the tables match, and if there is one, it is the request's.
create_request_worker-IsMatched :
    (c : Start) (s : Engine)
    → request_of c.worker s ≡ none
    → IsMatched s
    → let (s', created) = create_request_worker c s in
      IsMatched s' × (created ≢ none → lookup c.request s'.workers_by_request ≡ some c.worker)
unfolding create_request_worker request_of
create_request_worker-IsMatched c s fresh m =
    let s1 = (check_security_tokens c.missing s).0 in
    let same = check_security_tokens-SameTables c.missing s in
    let s2 = drop_request c.request s1 in
    let m1 = SameTables-IsMatched s s1 same m in
    let m2 = drop_request-IsMatched c.request s1 m1 in
    let fresh1 : request_of c.worker s1 ≡ none = unfold SameTables in rw (← same.1) fresh in
    let free = drop_request-free c.request s1 in
    let fresh2 = drop_request-fresh c.request c.worker s1 fresh1 in
    let inserted =
      insert-Matched s2.workers_by_request s2.requests_by_worker c.request c.worker m2 free
        fresh2 in
    elim (Bool-cases (check_security_tokens c.missing s).1) [
      | inr refused ↦ rw refused (m1, λ h. absurd (h refl))
      | inl found ↦ elim (Option-cases (worker_type c.type c.special)) [
        | inl n ↦ rw (found, n, create_request_worker) (m2, λ h. absurd (h refl))
        | inr (type, e) ↦
            rw (found, e, create_request_worker)
              (inserted, λ h. lookup-insert_self c.request c.worker s2.workers_by_request)
      ]
    ]

abbrev Bound : Start → Engine × Option ℕ → Type 0
Bound c (s, started) = IsMatched s × (started ≢ none → request_of c.worker s ≡ some c.request)

start_request_impl-Bound :
    (c : Start) (queue : TaskQueue) (s : Engine)
    → request_of c.worker s ≡ none
    → IsMatched s
    → Bound c (start_request_impl c queue s)
unfolding start_request_impl request_of
start_request_impl-Bound c queue s fresh m =
    let (s1, created) = create_request_worker c s in
    let (m1, bound) = create_request_worker-IsMatched c s fresh m in
    elim (Option-cases created) [
      | inl n ↦ rw (n, start_request_impl) (m1, λ h. absurd (h refl))
      | inr (type, e) ↦
          let s2 = require_guid type queue (require_cache type queue s1) in
          let same = require-SameTables type queue s1 in
          let m2 = SameTables-IsMatched s1 s2 same m1 in
          let s3 = record s2 { active = s2.active ++ (c.request ∷ []) } in
          let task = Task.request_task c.worker type in
          let queued = enqueue_task-SameTables task queue s3 in
          let m4 = SameTables-IsMatched s3 (enqueue_task task queue s3) queued m2 in
          let here : lookup c.request s1.workers_by_request ≡ some c.worker =
            bound (rw e some-ne-none) in
          elim (Bool-cases c.deleted_early) [
            | inl d ↦
                rw (e, d, start_request_impl)
                  (drop_request-IsMatched c.request s1 m1, λ h. absurd (h refl))
            | inr d ↦ elim (Bool-cases c.deleted_late) [
              | inl d' ↦
                  rw (e, d, d', start_request_impl)
                    (drop_request-IsMatched c.request s3 m2, λ h. absurd (h refl))
              | inr d' ↦
                  rw (e, d, d', start_request_impl)
                    (
                      m4,
                      λ h.
                          (m4 c.request c.worker).0
                            (unfold SameTables in rw (← queued.0, ← same.0) here),
                    )
            ]
          ]
    ]

-- What an engine does to its tables. A new worker has an address that no tracked worker has.
pub data Step : Engine → Engine → Type 0 where
  start :
      {s : Engine} (c : Start) (queue : TaskQueue)
      → request_of c.worker s ≡ none
      → Step s (start_request_impl c queue s).0
  finish : {s : Engine} (worker : ℕ) → Step s (on_state_changed worker s).0
  destroy : {s : Engine} (request : ℕ) → Step s (drop_request request s)

pub data Reach (skip : Bool) : Engine → Type 0 where
  here : Reach skip (init skip)
  next : {s t : Engine} → Reach skip s → Step s t → Reach skip t

Step-IsMatched : {s t : Engine} → Step s t → IsMatched s → IsMatched t
unfolding on_state_changed
Step-IsMatched (start {s} c queue fresh) m = (start_request_impl-Bound c queue s fresh m).0
Step-IsMatched (finish {s} worker) m = elim (Option-cases (request_of worker s)) [
  | inl n ↦ rw (n, on_state_changed) m
  | inr (r, e) ↦ rw (e, on_state_changed) (drop_request-IsMatched r s m)
]
Step-IsMatched (destroy {s} request) m = drop_request-IsMatched request s m

-- In every reachable state of an engine, a worker is the one of a request exactly if the request is
-- the one of the worker. So a task that has lost its request, since that was destroyed or used
-- again, finds no request.
pub Reach-IsMatched : {skip : Bool} {s : Engine} → Reach skip s → IsMatched s
unfolding init lookup
Reach-IsMatched here = λ r w. ground arith
Reach-IsMatched (next r st) = Step-IsMatched st (Reach-IsMatched r)

-- A request that is started in a reachable state, and gets a task, is the request of its worker.
-- If another worker worked for it before, that one has no request any more.
pub start_request_impl_lem :
    {skip : Bool} {s : Engine} (c : Start) (queue : TaskQueue) (old : ℕ)
    → Reach skip s
    → request_of c.worker s ≡ none
    → (start_request_impl c queue s).1 ≢ none
    → request_of old s ≡ some c.request
    → let t = (start_request_impl c queue s).0 in
      (request_of c.worker t ≡ some c.request) × (request_of old t ≢ some c.request)
unfolding request_of
start_request_impl_lem {s = s} c queue old r fresh started was =
    let t = (start_request_impl c queue s).0 in
    let (m, bound) = start_request_impl-Bound c queue s fresh (Reach-IsMatched r) in
    let mine = bound started in
    (mine, λ h. cc ((m c.request c.worker).1 mine, (m c.request old).1 h, fresh, was))

-- ===== src/Queue/Shutdown.antt =====
-- src/lib/queue.cpp: closing the queue.
use qtcontacts_tracker.Base.{
  ℕ, suc, ◌+◌, ◌==◌, ◌||◌, ◌≡◌, Bool, true, false, not, any, All, List, [], ◌∷◌, ◌++◌, some, none,
  arith, if◌then◌else◌, refl,
}
use qtcontacts_tracker.Queue.{
  Queue, Effect, runs, deletes, deletes_later, disconnects, quits, emit, enqueue, dequeue, shutdown,
  later, is_disconnected, destroy,
}

-- How often the background thread was told to quit.
abbrev pub quits_in : List Effect → ℕ
quits_in [] = 0
quits_in (quits ∷ es) = suc (quits_in es)
quits_in (_ ∷ es) = quits_in es

quits_in-append : (xs ys : List Effect) → quits_in (xs ++ ys) ≡ quits_in xs + quits_in ys
quits_in-append [] ys = omega arith
quits_in-append (quits ∷ xs) ys = omega (arith, quits_in-append xs ys)
quits_in-append (runs t ∷ xs) ys = quits_in-append xs ys
quits_in-append (deletes t ∷ xs) ys = quits_in-append xs ys
quits_in-append (deletes_later t ∷ xs) ys = quits_in-append xs ys
quits_in-append (disconnects t ∷ xs) ys = quits_in-append xs ys

quits_in-later : (ts : List ℕ) → quits_in (later ts) ≡ 0
quits_in-later [] = omega arith
quits_in-later (t ∷ ts) = quits_in-later ts

-- Whether a task was deleted, at once or later.
abbrev pub is_deleted : ℕ → List Effect → Bool
is_deleted task [] = false
is_deleted task (deletes t ∷ es) = t == task || is_deleted task es
is_deleted task (deletes_later t ∷ es) = t == task || is_deleted task es
is_deleted task (_ ∷ es) = is_deleted task es

abbrev pub contains : List ℕ → ℕ → Bool
contains ts task = any (λ t. t == task) ts

is_deleted-append :
    (task : ℕ) (xs ys : List Effect)
    → is_deleted task (xs ++ ys) ≡ (is_deleted task xs || is_deleted task ys)
is_deleted-append task [] ys = refl
is_deleted-append task (runs t ∷ xs) ys = is_deleted-append task xs ys
is_deleted-append task (deletes t ∷ xs) ys = ground (arith, is_deleted-append task xs ys)
is_deleted-append task (deletes_later t ∷ xs) ys = ground (arith, is_deleted-append task xs ys)
is_deleted-append task (disconnects t ∷ xs) ys = is_deleted-append task xs ys
is_deleted-append task (quits ∷ xs) ys = is_deleted-append task xs ys

is_disconnected-append :
    (task : ℕ) (xs ys : List Effect)
    → is_disconnected task (xs ++ ys) ≡ (is_disconnected task xs || is_disconnected task ys)
is_disconnected-append task [] ys = refl
is_disconnected-append task (runs t ∷ xs) ys = is_disconnected-append task xs ys
is_disconnected-append task (deletes t ∷ xs) ys = is_disconnected-append task xs ys
is_disconnected-append task (deletes_later t ∷ xs) ys = is_disconnected-append task xs ys
is_disconnected-append task (disconnects t ∷ xs) ys =
    ground (arith, is_disconnected-append task xs ys)
is_disconnected-append task (quits ∷ xs) ys = is_disconnected-append task xs ys

is_deleted-later : (task : ℕ) (ts : List ℕ) → is_deleted task (later ts) ≡ contains ts task
is_deleted-later task [] = refl
is_deleted-later task (t ∷ ts) = ground (arith, is_deleted-later task ts)

is_disconnected-later :
    (task : ℕ) (ts : List ℕ) → is_disconnected task (later ts) ≡ contains ts task
is_disconnected-later task [] = refl
is_disconnected-later task (t ∷ ts) = ground (arith, is_disconnected-later task ts)

-- Tasks are destroyed, one after the other.
abbrev pub destroy_all : List ℕ → Queue → Queue
destroy_all [] q = q
destroy_all (t ∷ ts) q = destroy_all ts (destroy q t)

abbrev pub times : ℕ → List ℕ → ℕ
times task [] = 0
times task (t ∷ ts) = let rest = times task ts in if t == task then suc rest else rest

All-implies : {P Q : ℕ → Type 0} (ts : List ℕ) → ((t : ℕ) → P t → Q t) → All P ts → All Q ts
All-implies [] h a = tt
All-implies (t ∷ ts) h a = (h t a.0, All-implies ts h a.1)

every_member : {P : ℕ → Type 0} (ts : List ℕ) → ((t : ℕ) → contains ts t ≡ true → P t) → All P ts
every_member [] h = tt
every_member (t ∷ ts) h = (h t (ground arith), every_member ts (λ s e. h s (ground (arith, e))))

-- Of a closed queue only the task that is still connected makes the thread quit.
quits_in-destroy_all :
    (active : ℕ) (ts : List ℕ) (q : Queue)
    → q.queue ≡ none
    → All (λ t. is_disconnected t q.log ≡ not (t == active)) ts
    → quits_in (destroy_all ts q).log ≡ quits_in q.log + times active ts
unfolding destroy dequeue
quits_in-destroy_all active [] q closed h = omega arith
quits_in-destroy_all active (t ∷ ts) q closed h = ground (
  arith,
  h.0,
  closed,
  quits_in-append q.log (quits ∷ []),
  quits_in-destroy_all active ts q closed h.1,
  quits_in-destroy_all active ts (emit q quits) closed
      (All-implies ts (λ s e. ground (arith, e, is_disconnected-append s q.log (quits ∷ []))) h.1),
)

-- What closing adds to the log, where a task is running.
closed_log :
    (q : Queue) (active : ℕ) (waiting : List ℕ) (closing_down : Bool)
    → q.queue ≡ some (active ∷ waiting)
    → let end : List Effect = if closing_down then quits ∷ [] else [] in
      shutdown q closing_down ≡ record q { queue = none; log = q.log ++ (later waiting ++ end) }
unfolding shutdown
closed_log q active waiting closing_down e = ground (arith, e)

-- Closing a queue in which a task is running closes it for good. The running task is neither deleted
-- nor disconnected, each waiting one is both. So, whichever tasks of the queue are destroyed
-- afterwards, and in whatever order, the thread is told to quit as often as the running one is
-- among them, and not by the waiting ones; besides, it is told once at once if the application is
-- closing down. The conditions: the running task is not also waiting, and is still connected.
pub shutdown-destroy_all :
    (q : Queue) (active : ℕ) (waiting destroyed : List ℕ) (closing_down : Bool)
    → q.queue ≡ some (active ∷ waiting)
    → contains waiting active ≡ false
    → is_disconnected active q.log ≡ false
    → All (λ t. contains (active ∷ waiting) t ≡ true) destroyed
    → let closed = shutdown q closing_down in
      (closed.queue ≡ none)
      × (is_deleted active closed.log ≡ is_deleted active q.log)
      × (is_disconnected active closed.log ≡ false)
      × All (λ t. (is_deleted t closed.log ≡ true) × (is_disconnected t closed.log ≡ true)) waiting
      × (quits_in (destroy_all destroyed closed).log
          ≡ quits_in q.log + (if closing_down then 1 else 0) + times active destroyed)
shutdown-destroy_all q active waiting destroyed closing_down e single connected members =
    let end : List Effect = if closing_down then quits ∷ [] else [] in
    let closed : Queue = record q { queue = none; log = q.log ++ (later waiting ++ end) } in
    let deleted : (t : ℕ) → is_deleted t closed.log ≡ (is_deleted t q.log || contains waiting t) =
      λ t. ground (
        arith,
        is_deleted-append t q.log (later waiting ++ end),
        is_deleted-append t (later waiting) end,
        is_deleted-later t waiting,
      ) in
    let cut : (t : ℕ)
        → is_disconnected t closed.log ≡ (is_disconnected t q.log || contains waiting t) =
      λ t. ground (
        arith,
        is_disconnected-append t q.log (later waiting ++ end),
        is_disconnected-append t (later waiting) end,
        is_disconnected-later t waiting,
      ) in
    let told : quits_in closed.log ≡ quits_in q.log + (if closing_down then 1 else 0) = ground (
      arith,
      quits_in-append q.log (later waiting ++ end),
      quits_in-append (later waiting) end,
      quits_in-later waiting,
    ) in
    let ends =
      quits_in-destroy_all active destroyed closed refl
        (All-implies destroyed (λ t h. ground (arith, h, cut t, single, connected)) members) in
    rw (closed_log q active waiting closing_down e) (
      refl,
      ground (arith, deleted active, single),
      ground (arith, cut active, single, connected),
      every_member waiting (λ t h. (ground (arith, h, deleted t), ground (arith, h, cut t))),
      ground (arith, ends, told),
    )

-- Without a task the thread is told to quit at once.
pub shutdown_idle : (q : Queue) → q.queue ≡ some [] → (shutdown q false).log ≡ q.log ++ quits ∷ []
unfolding shutdown
shutdown_idle q e = ground (arith, e)

-- A task that comes after the queue was closed is deleted, and is never started.
pub enqueue_closed :
    (q : Queue) (closing_down own_thread : Bool) (task : ℕ)
    → enqueue (shutdown q closing_down) own_thread task ≡ record (shutdown q closing_down) {
      log = (shutdown q closing_down).log ++ deletes task ∷ [];
    }
unfolding enqueue shutdown
enqueue_closed q c o task = ground arith

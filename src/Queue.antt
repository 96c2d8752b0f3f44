-- ===== src/Queue.antt =====
-- src/lib/queue.cpp: the task queue of an engine or a change listener.
--
-- A task is named by a number, its address. `QctQueueData` holds the queue behind a pointer that
-- the destructor clears, and the background thread. Each method runs under the queue's mutex, so a
-- method is one step. What it asks of the Qt event loop (`run` posted to a task, a task deleted, the
-- signal disconnected, the thread told to quit) is a list of effects, oldest first.
use qtcontacts_tracker.Base.{
  ℕ, Bool, true, false, not, ◌==◌, ◌||◌, if◌then◌else◌, List, [], ◌∷◌, ◌++◌, Option, none, some,
  is_empty,
}
pub mod Order
pub mod Shutdown
mod Tests

-- One call into Qt.
pub data Effect : Type 0 where
  runs : ℕ → Effect
  deletes : ℕ → Effect
  deletes_later : ℕ → Effect
  disconnects : ℕ → Effect
  quits : Effect

-- `queue` is `m_queue`: `none` once the destructor has closed it. `log` is what Qt was asked for.
pub record Queue : Type 0 where
  pub queue : Option (List ℕ)
  pub log : List Effect

abbrev pub emit : Queue → Effect → Queue
emit q e = record q { log = q.log ++ e ∷ [] }

-- The constructor: an empty queue, and the background thread started.
pub init : Queue
init = record { queue = some []; log = [] }

-- `processQueue`: `run` is posted to the head, if there is one.
abbrev pub process_queue : Queue → Option (List ℕ) → Queue
process_queue q none = q
process_queue q (some []) = q
process_queue q (some (head ∷ rest)) = emit q (runs head)

-- The head of a queue is the given task.
abbrev pub is_head : ℕ → List ℕ → Bool
is_head task [] = false
is_head task (head ∷ rest) = task == head

accept : Queue → List ℕ → ℕ → Queue
accept q tasks task =
    let tasks' = tasks ++ task ∷ [] in
    let q' = record q { queue = some tasks' } in
    if is_head task tasks' then process_queue q' (some tasks') else q'

enqueue_open : Queue → Option (List ℕ) → ℕ → Queue
unfolding accept
enqueue_open q none task = emit q (deletes task)
enqueue_open q (some tasks) task = accept q tasks task

-- `enqueue(task)`: `own_thread` is `task->thread() == QThread::currentThread()`. A task of another
-- thread and a task for a closed queue are deleted.
pub enqueue : Queue → Bool → ℕ → Queue
unfolding enqueue_open
enqueue q own_thread task =
    if own_thread then enqueue_open q q.queue task else emit q (deletes task)

-- `QList::removeOne`: the first occurrence goes.
abbrev pub remove_one : ℕ → List ℕ → List ℕ
remove_one task [] = []
remove_one task (t ∷ ts) = if task == t then ts else t ∷ remove_one task ts

dequeue_open : Queue → Option (List ℕ) → ℕ → Queue
dequeue_open q none task = emit q quits
dequeue_open q (some []) task = q
dequeue_open q (some (head ∷ rest)) task =
    let tasks' = remove_one task (head ∷ rest) in
    let q' = record q { queue = some tasks' } in
    if task == head then process_queue q' (some tasks') else q'

-- `dequeue(task)`, which `onTaskDestroyed` calls when a task has been deleted. The removal is
-- successful whenever the task is the head, so the code's test on it is part of `task == head`.
pub dequeue : Queue → ℕ → Queue
unfolding dequeue_open
dequeue q task = dequeue_open q q.queue task

abbrev pub later : List ℕ → List Effect
later [] = []
later (t ∷ ts) = disconnects t ∷ deletes_later t ∷ later ts

abbrev pub shutdown_effects : List ℕ → List Effect
shutdown_effects [] = quits ∷ []
shutdown_effects (active ∷ waiting) = later waiting

shutdown_open : Queue → Option (List ℕ) → Bool → Queue
shutdown_open q none closing_down = q
shutdown_open q (some tasks) closing_down = record q {
  queue = none;
  log = q.log ++ (shutdown_effects tasks ++ (if closing_down then quits ∷ [] else []));
}

-- The destructor, up to the wait for the thread: the running task is left alone, the waiting ones
-- are disconnected and deleted, and `closing_down` is `qApp->closingDown()`. It runs once, on a
-- queue that is open.
pub shutdown : Queue → Bool → Queue
unfolding shutdown_open
shutdown q closing_down = shutdown_open q q.queue closing_down

-- Whether a task was disconnected from the queue.
abbrev pub is_disconnected : ℕ → List Effect → Bool
is_disconnected task [] = false
is_disconnected task (disconnects t ∷ es) = t == task || is_disconnected task es
is_disconnected task (_ ∷ es) = is_disconnected task es

-- A task is destroyed: its signal reaches `onTaskDestroyed` unless it was disconnected.
pub destroy : Queue → ℕ → Queue
unfolding dequeue
destroy q task = if is_disconnected task q.log then q else dequeue q task

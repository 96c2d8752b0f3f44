-- ===== src/Queue/Order.antt =====
-- src/lib/queue.cpp: the order in which tasks run.
use qtcontacts_tracker.Base.{
  ℕ, suc, ◌+◌, ◌≡◌, refl, ◌≢◌, true, List, map, sym, [], ◌∷◌, ◌++◌, Option, none, some, arith, ◌==◌,
  if◌then◌else◌, Bool-cases, inl, inr,
}
use mathlib.Core.Path.{subst}
use mathlib.Core.List.{append_assoc, append-nil}
use qtcontacts_tracker.Queue.{
  Queue, Effect, runs, deletes, deletes_later, disconnects, quits, init, enqueue, dequeue,
  remove_one, process_queue,
}

-- What a client does to an open queue: it enqueues a new task, or a task that was queued ends.
pub data Event : Type 0 where
  enqueues ends : ℕ → Event

-- How often `run` was posted to a task.
abbrev pub runs_of : ℕ → List Effect → ℕ
runs_of t [] = 0
runs_of t (runs u ∷ es) = let n = runs_of t es in if t == u then suc n else n
runs_of t (_ ∷ es) = runs_of t es

pub step : Queue → Event → Queue
step q (enqueues task) = enqueue q true task
step q (ends task) = dequeue q task

pub run : Queue → List Event → Queue
run q [] = q
run q (e ∷ es) = run (step q e) es

abbrev pub Apart : ℕ → List ℕ → Type 0
Apart t [] = Unit
Apart t (u ∷ us) = (u ≢ t) × Apart t us

-- The waiting tasks have not been started, and none is queued twice.
abbrev pub Waiting : List Effect → List ℕ → Type 0
Waiting log [] = Unit
Waiting log (t ∷ ts) = (runs_of t log ≡ 0) × Apart t ts × Waiting log ts

-- The head has been started once, and no other task of the queue has been.
abbrev pub Serial : List Effect → List ℕ → Type 0
Serial log [] = Unit
Serial log (h ∷ rest) = (runs_of h log ≡ 1) × Apart h rest × Waiting log rest

abbrev pub IsSerial : Queue → Type 0
IsSerial q = (tasks : List ℕ) × (q.queue ≡ some tasks) × Serial q.log tasks

abbrev pub ApartFrom : ℕ → Option (List ℕ) → Type 0
ApartFrom t none = Unit
ApartFrom t (some tasks) = Apart t tasks

-- A task is enqueued once: it is not in the queue, and has not been started.
abbrev pub IsFresh : Queue → Event → Type 0
IsFresh q (enqueues t) = (runs_of t q.log ≡ 0) × ApartFrom t q.queue
IsFresh q (ends t) = Unit

runs_of-append : (t : ℕ) (xs ys : List Effect) → runs_of t (xs ++ ys) ≡ runs_of t xs + runs_of t ys
runs_of-append t [] ys = omega arith
runs_of-append t (runs u ∷ xs) ys = ground (arith, runs_of-append t xs ys)
runs_of-append t (deletes u ∷ xs) ys = runs_of-append t xs ys
runs_of-append t (deletes_later u ∷ xs) ys = runs_of-append t xs ys
runs_of-append t (disconnects u ∷ xs) ys = runs_of-append t xs ys
runs_of-append t (quits ∷ xs) ys = runs_of-append t xs ys

Waiting-runs :
    (u : ℕ) (log : List Effect) (ts : List ℕ)
    → Apart u ts
    → Waiting log ts
    → Waiting (log ++ runs u ∷ []) ts
Waiting-runs u log [] a w = tt
Waiting-runs u log (t ∷ ts) a w =
    (ground (arith, runs_of-append t log (runs u ∷ [])), w.1, Waiting-runs u log ts a.1 w.2)

Apart-snoc : (t u : ℕ) (ts : List ℕ) → Apart t ts → u ≢ t → Apart t (ts ++ u ∷ [])
Apart-snoc t u [] a n = (n, tt)
Apart-snoc t u (x ∷ ts) a n = (a.0, Apart-snoc t u ts a.1 n)

Waiting-snoc :
    (t : ℕ) (log : List Effect) (ts : List ℕ)
    → runs_of t log ≡ 0
    → Apart t ts
    → Waiting log ts
    → Waiting log (ts ++ t ∷ [])
Waiting-snoc t log [] r a w = (r, tt, tt)
Waiting-snoc t log (u ∷ ts) r a w =
    (w.0, Apart-snoc u t ts w.1 (λ e. a.0 (cc)), Waiting-snoc t log ts r a.1 w.2)

enqueue-IsSerial :
    (q : Queue) (t : ℕ) → IsSerial q → IsFresh q (enqueues t) → IsSerial (enqueue q true t)
unfolding enqueue
enqueue-IsSerial q t ([], e, s) f =
    (t ∷ [], ground arith, ground (arith, runs_of-append t q.log (runs t ∷ [])))
enqueue-IsSerial q t (h ∷ rest, e, s) f =
    let apart = subst (ApartFrom t) e f.1 in
    (
      h ∷ rest ++ t ∷ [],
      ground (arith, apart.0),
      ground (
        arith,
        apart.0,
        Apart-snoc h t rest s.1 (λ e. apart.0 (sym e)),
        Waiting-snoc t q.log rest f.0 apart.1 s.2,
      ),
    )

Waiting-Serial :
    (log : List Effect) (ts : List ℕ)
    → Waiting log ts
    → Serial (process_queue (record { queue = some ts; log = log }) (some ts)).log ts
Waiting-Serial log [] w = tt
Waiting-Serial log (t ∷ ts) w =
    (ground (arith, runs_of-append t log (runs t ∷ [])), w.1, Waiting-runs t log ts w.1 w.2)

Apart-remove_one : (t u : ℕ) (ts : List ℕ) → Apart t ts → Apart t (remove_one u ts)
Apart-remove_one t u [] a = tt
Apart-remove_one t u (x ∷ ts) a = ground (arith, Apart-remove_one t u ts a.1)

Waiting-remove_one :
    (log : List Effect) (u : ℕ) (ts : List ℕ) → Waiting log ts → Waiting log (remove_one u ts)
Waiting-remove_one log u [] w = tt
Waiting-remove_one log u (x ∷ ts) w =
    ground (arith, Waiting-remove_one log u ts w.2, Apart-remove_one x u ts w.1)

dequeue-IsSerial : (q : Queue) (t : ℕ) → IsSerial q → IsSerial (dequeue q t)
unfolding dequeue
dequeue-IsSerial q t ([], e, s) = ([], ground arith, ground arith)
dequeue-IsSerial q t (h ∷ rest, e, s) = elim (Bool-cases (t == h)) [
  | inl same ↦ (rest, ground arith, ground (arith, Waiting-Serial q.log rest s.2))
  | inr other ↦ (
    h ∷ remove_one t rest,
    ground arith,
    ground (arith, Waiting-remove_one q.log t rest s.2, Apart-remove_one h t rest s.1),
  )
]

-- Whatever fresh task is enqueued and whatever task ends, in an open queue the head is the only
-- task that has been started: once, and the tasks behind it not at all.
pub step-IsSerial : (q : Queue) (e : Event) → IsSerial q → IsFresh q e → IsSerial (step q e)
unfolding step
step-IsSerial q (enqueues t) s f = enqueue-IsSerial q t s f
step-IsSerial q (ends t) s f = dequeue-IsSerial q t s

-- What has been posted when the tasks are in the queue.
abbrev started : List ℕ → List Effect
started [] = []
started (t ∷ ts) = runs t ∷ []

enqueue_run :
    (h : ℕ) (before ts : List ℕ) (log : List Effect) (es : List Event)
    → Apart h ts
    → run (record { queue = some (h ∷ before); log = log }) (map enqueues ts ++ es)
      ≡ run (record { queue = some (h ∷ before ++ ts); log = log }) es
unfolding run step enqueue
enqueue_run h before [] log es a = rw (append-nil before)
enqueue_run h before (t ∷ ts) log es a =
    let rest = enqueue_run h (before ++ t ∷ []) ts log es a.1 in
    let assoc = append_assoc before (t ∷ []) ts in ground (arith, rest, assoc, a.0)

end_run :
    (ts : List ℕ) (log : List Effect)
    → run (record { queue = some ts; log = log ++ started ts }) (map ends ts)
      ≡ record { queue = some []; log = log ++ map runs ts }
unfolding run step dequeue
end_run [] log = refl
end_run (t ∷ []) log = ground arith
end_run (t ∷ u ∷ us) log =
    let rest = end_run (u ∷ us) (log ++ runs t ∷ []) in
    ground (
      arith,
      rest,
      append_assoc log (runs t ∷ []) (runs u ∷ []),
      append_assoc log (runs t ∷ []) (map runs (u ∷ us)),
    )

-- Tasks run in the order in which they were enqueued: when a task and others unlike it are put
-- into a new queue and then end one after the other, `run` was posted to each of them once, in
-- that order, and the queue is empty.
pub run_fifo :
    (t : ℕ) (ts : List ℕ)
    → Apart t ts
    → run init (map enqueues (t ∷ ts) ++ map ends (t ∷ ts))
      ≡ record { queue = some []; log = map runs (t ∷ ts) }
unfolding run step enqueue init
run_fifo t ts a =
    ground (arith, enqueue_run t [] ts (runs t ∷ []) (map ends (t ∷ ts)) a, end_run (t ∷ ts) [])

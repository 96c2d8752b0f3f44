-- ===== src/Queue/Tests.antt =====
-- src/lib/queue.cpp: the theorems at concrete queues.
use qtcontacts_tracker.Base.{true, All, ◌≡◌, refl, false, [], ◌∷◌, some, none, arith}
use qtcontacts_tracker.Queue.{Queue, runs, init, dequeue, shutdown, is_disconnected}
use qtcontacts_tracker.Queue.Order.{IsSerial, step, step-IsSerial, ends, run, run_fifo, enqueues}
use qtcontacts_tracker.Queue.Shutdown.{quits_in, is_deleted, destroy_all, shutdown-destroy_all}

abbrev busy : Queue
busy = record { queue = some (7 ∷ 8 ∷ []); log = runs 7 ∷ [] }

next_starts : (dequeue busy 7).log ≡ runs 7 ∷ runs 8 ∷ []
unfolding dequeue
next_starts = refl

step-IsSerial_example : IsSerial (step busy (ends 7))
step-IsSerial_example =
    step-IsSerial busy (ends 7) (7 ∷ 8 ∷ [], refl, (refl, ((λ e. omega arith), tt), (refl, tt, tt)))
      tt

run_fifo_example :
    run init (enqueues 7 ∷ enqueues 8 ∷ ends 7 ∷ ends 8 ∷ [])
    ≡ record { queue = some []; log = runs 7 ∷ runs 8 ∷ [] }
run_fifo_example = run_fifo 7 (8 ∷ []) ((λ e. omega arith), tt)

shutdown-destroy_all_example :
    let closed = shutdown busy false in
    (closed.queue ≡ none)
    × (is_deleted 7 closed.log ≡ false)
    × (is_disconnected 7 closed.log ≡ false)
    × All (λ t. (is_deleted t closed.log ≡ true) × (is_disconnected t closed.log ≡ true)) (8 ∷ [])
    × (quits_in (destroy_all (8 ∷ 7 ∷ []) closed).log ≡ 1)
shutdown-destroy_all_example =
    shutdown-destroy_all busy 7 (8 ∷ []) (8 ∷ 7 ∷ []) false refl refl refl (refl, (refl, tt))

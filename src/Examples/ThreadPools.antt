-- ===== src/Examples/ThreadPools.antt =====
-- Runs of the thread pool with one thread at first and two at most.
use alter.Common.{ℕ, ◌-◌, ◌^◌, Bool, true, List, [], ◌∷◌, count, ◌≡◌, refl, arith, update}
use alter.Threads.Defs.{
  Threads, spawn, away, leaving, enqueue, look_waiters, look_opened, lock_mutex, recheck_waiters,
  recheck_opened, create_thread, count_opened, unlock_mutex, lead, take, resign, begin_work, Event,
  quiet, assigned, taken, enqueues, looks, looks_further, enters, rechecks, rechecks_further,
  creates, counts, leaves, leads, takes, resigns, begins, Run, start, after,
}
use alter.Threads.Leader.{InOrder}
use alter.Threads.Runs.{Run-InOrder, assign-Starves}
use alter.Common.Tally.{tally}
use alter.Threads.Consumers.{
  Pool, woken, consumers_from, spawn_consumers, assign_task, produce, hand, signal, sleep, Moves,
  sleeps, unseen,
}
use alter.Threads.Consumers
use alter.Threads.Wakeup.{no_deed, quiet_wait, NeverRuns, hand-signal-Strands}

abbrev works : ℕ → Bool
works pointer = true

abbrev zeros : ℕ → ℕ
zeros i = 0

abbrev spawned : Threads
spawned = spawn 1 2 zeros zeros

-- The thread `i` gets a pointer from the queue and goes to work.
abbrev goes_to_work : (i pointer : ℕ) → (rest : List ℕ) → Threads → Threads
goes_to_work i pointer rest s =
    begin_work i pointer (resign i pointer (take i pointer rest (lead i s)))

-- The caller `0` finds a thread that waits.
abbrev assign_waiting : ℕ → Threads → Threads
assign_waiting pointer s = look_waiters 0 (enqueue 0 pointer s)

-- The caller `1` opens a thread.
abbrev assign_opening : ℕ → Threads → Threads
assign_opening pointer s = unlock_mutex 1 (
    count_opened 1 (
      create_thread 1 (
        recheck_opened 1 (
          recheck_waiters 1
            (lock_mutex 1 (look_opened 1 (look_waiters 1 (enqueue 1 pointer s))))))))

abbrev one_works : Threads
one_works = goes_to_work 0 7 [] (assign_waiting 7 spawned)

abbrev both_work : Threads
both_work = goes_to_work 1 8 [] (assign_opening 8 one_works)

abbrev work_events : ℕ → List Event → List Event
work_events pointer es = quiet ∷ quiet ∷ taken pointer ∷ quiet ∷ es

abbrev one_events : List Event
one_events = work_events 7 (quiet ∷ assigned 7 ∷ [])

abbrev opening_events : List Event
opening_events =
    quiet ∷ quiet ∷ quiet ∷ quiet ∷ quiet ∷ quiet ∷ quiet ∷ quiet ∷ assigned 8 ∷ one_events

one-Run : Run works spawned one_events one_works
unfolding spawn enqueue look_waiters lead take resign begin_work
one-Run =
    after
      (after
        (after
          (after (after (after start (enqueues 0 7 refl)) (looks 0 refl))
            (leads 0 (omega arith) refl refl))
          (takes 0 7 [] (omega arith) refl refl))
        (resigns 0 7 (omega arith) refl))
      (begins 0 7 (omega arith) refl)

opening-Run : Run works spawned opening_events (assign_opening 8 one_works)
unfolding spawn enqueue look_waiters look_opened lock_mutex recheck_waiters recheck_opened
    create_thread count_opened unlock_mutex lead take resign begin_work
opening-Run =
    after
      (after
        (after
          (after
            (after
              (after
                (after (after (after one-Run (enqueues 1 8 refl)) (looks 1 refl))
                  (looks_further 1 refl))
                (enters 1 refl refl))
              (rechecks 1 refl))
            (rechecks_further 1 refl))
          (creates 1 refl))
        (counts 1 refl))
      (leaves 1 refl)

both-Run : Run works spawned (work_events 8 opening_events) both_work
unfolding spawn enqueue look_waiters look_opened lock_mutex recheck_waiters recheck_opened
    create_thread count_opened unlock_mutex lead take resign begin_work
both-Run =
    after
      (after
        (after (after opening-Run (leads 1 (omega arith) refl refl))
          (takes 1 8 [] (omega arith) refl refl))
        (resigns 1 8 (omega arith) refl))
      (begins 1 8 (omega arith) refl)

Run-InOrder_example : InOrder 1 (work_events 8 opening_events) both_work
Run-InOrder_example = Run-InOrder works 1 2 zeros zeros (omega arith) (omega arith) both-Run

assign-Starves_example :
    (both_work.waiters ≡ 2 ^ 32 - 1)
    × (look_waiters 2 (enqueue 2 9 both_work) ≡ record (enqueue 2 9 both_work) {
      callers = update (enqueue 2 9 both_work).callers 2 away;
    })
    × ((b : ℕ)
        → recheck_waiters b both_work
          ≡ record both_work { callers = update both_work.callers b leaving })
unfolding spawn enqueue look_waiters look_opened lock_mutex recheck_waiters recheck_opened
    create_thread count_opened unlock_mutex lead take resign begin_work tally
assign-Starves_example =
    assign-Starves works 1 2 zeros zeros 2 9 (omega arith) (omega arith) both-Run refl

-- The consumer has not come to its wait yet when it gets a pointer.
abbrev early_pool : Pool
early_pool = produce 7 [] (assign_task 7 (spawn_consumers 1 2 zeros zeros))

hand-signal-Strands_example :
    NeverRuns 0 (unseen ∷ [])
    × ((sleep 0 (signal 0 (hand 0 7 [] early_pool))).pointer 0 ≡ 7)
    × (count 0 (sleep 0 (signal 0 (hand 0 7 [] early_pool))).consumer_queue ≡ 0)
unfolding spawn_consumers consumers_from assign_task produce hand signal woken sleep
hand-signal-Strands_example =
    hand-signal-Strands works 0 7 early_pool [] (omega arith) refl refl refl
      (Consumers.after Consumers.start (sleeps 0 refl)) (quiet_wait no_deed)

-- ===== src/Threads/Runs.antt =====
-- Whole runs of the pool with a leader and followers.
use alter.Common.{
  ℕ, ◌+◌, ◌-◌, ◌^◌, ◌≤◌, ◌<◌, Bool, false, List, [], ◌∷◌, leb, ◌≡◌, refl, arith, update,
}
use alter.Threads.Defs.{
  Threads, spawn, away, leaving, enqueue, look_waiters, recheck_waiters, Event, Step, enqueues,
  looks, looks_further, enters, rechecks, rechecks_further, creates, counts, leaves, leads, takes,
  resigns, begins, ends, Run, start, after,
}
use alter.Common.Tally.{tally}
use alter.Threads.Tally.{is_led, is_running, has_pointer}
use alter.Threads.Leader.{
  InOrder, all_assigned, all_taken, all_executed, tally-followers, lead-InOrder, take-InOrder,
  resign-InOrder, begin_work-InOrder, end_work-InOrder,
}
use alter.Threads.Opening.{
  enqueue-InOrder, look_waiters-InOrder, look_opened-InOrder, lock_mutex-InOrder,
  recheck_waiters-InOrder, recheck_opened-InOrder, create_thread-InOrder, count_opened-InOrder,
  unlock_mutex-InOrder,
}

module _ (execute : ℕ → Bool) (min max : ℕ) (handled failed : ℕ → ℕ) where
  spawn-InOrder : min ≤ max → max < 2 ^ 32 → InOrder min [] (spawn min max handled failed)
  unfolding spawn all_assigned all_taken all_executed
  spawn-InOrder fits small = record {
    one_leader = tally-followers is_led min refl;
    order = refl;
    once = λ p nz. omega (arith, tally-followers (has_pointer p) min refl);
    waiting = omega (arith, small, fits, tally-followers is_running min refl);
    width = omega (arith, small, fits);
    admits = record {
      one_inside = λ a i. cc;
      room = λ a i. cc;
      counted = λ a e. cc;
      uncounted = λ e. refl;
      opened_bound = fits;
      bound = fits;
      small = small;
    };
  }

  Step-InOrder :
      {es : List Event} {s s' : Threads} {e : Event}
      → InOrder min es s
      → Step execute s e s'
      → InOrder min (e ∷ es) s'
  Step-InOrder h (enqueues a pointer at) = enqueue-InOrder min h a pointer at
  Step-InOrder h (looks a at) = look_waiters-InOrder min h a at
  Step-InOrder h (looks_further a at) = look_opened-InOrder min h a at
  Step-InOrder h (enters a at free) = lock_mutex-InOrder min h a at free
  Step-InOrder h (rechecks a at) = recheck_waiters-InOrder min h a at
  Step-InOrder h (rechecks_further a at) = recheck_opened-InOrder min h a at
  Step-InOrder h (creates a at) = create_thread-InOrder min h a at
  Step-InOrder h (counts a at) = count_opened-InOrder min h a at
  Step-InOrder h (leaves a at) = unlock_mutex-InOrder min h a at
  Step-InOrder h (leads i below at free) = lead-InOrder execute min h i below at free
  Step-InOrder h (takes i pointer rest below at queued) =
      take-InOrder execute min h i below pointer rest at queued
  Step-InOrder h (resigns i pointer below at) = resign-InOrder execute min h i below pointer at
  Step-InOrder h (begins i pointer below at) = begin_work-InOrder execute min h i below pointer at
  Step-InOrder h (ends i pointer below at) = end_work-InOrder execute min h i below pointer at

  -- In every run of the leader and follower threads behind spawn with min at most max and max
  -- below 2 ^ 32: at most one thread is between taking and giving up the lead, and exactly when
  -- the leader is set; pointers leave the queue in the order in which they were assigned; each
  -- pointer taken that is not null was executed once or is with one thread; waiters plus the
  -- threads in execute is min modulo 2 ^ 32; open is at most max, at most max threads are
  -- created, and at most one caller of assign is between the lock and the unlock of its mutex.
  pub Run-InOrder :
      {es : List Event} {s : Threads}
      → min ≤ max
      → max < 2 ^ 32
      → Run execute (spawn min max handled failed) es s
      → InOrder min es s
  Run-InOrder fits small start = spawn-InOrder fits small
  Run-InOrder fits small (after r step) = Step-InOrder (Run-InOrder fits small r) step

  -- In a run of the leader and follower threads, when one thread more than the min at the start
  -- is in execute, waiters is 2 ^ 32 - 1, whatever max is; a caller of assign that reads it
  -- right behind its push then returns, and one that reads it with the mutex opens no thread.
  pub assign-Starves :
      {es : List Event} {s : Threads} (a pointer : ℕ)
      → min ≤ max
      → max < 2 ^ 32
      → Run execute (spawn min max handled failed) es s
      → tally is_running s.phase s.threads ≡ min + 1
      → (s.waiters ≡ 2 ^ 32 - 1)
        × (look_waiters a (enqueue a pointer s) ≡ record (enqueue a pointer s) {
          callers = update (enqueue a pointer s).callers a away;
        })
        × ((b : ℕ) → recheck_waiters b s ≡ record s { callers = update s.callers b leaving })
  unfolding enqueue look_waiters recheck_waiters
  assign-Starves {es} {s} a pointer fits small r busy =
      let h = Run-InOrder fits small r in
      let most : s.waiters ≡ 2 ^ 32 - 1 = omega (arith, h.waiting, h.width, busy, small, fits) in
      let stays : leb s.waiters 0 ≡ false = ground (arith, most) in
      (most, rw stays refl, λ b. rw stays refl)

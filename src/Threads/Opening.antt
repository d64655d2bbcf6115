-- ===== src/Threads/Opening.antt =====
-- What each step of frl_threads::assign keeps, with other callers and the threads of the pool between them.
use alter.Common.{
  ℕ, suc, ◌+◌, ◌<◌, true, List, [], ◌∷◌, ◌++◌, ltb, leb, ◌==◌, update, ◌≡◌, refl, inl, inr, arith,
  Option, none, some, Bool-cases, ap, ◌∙◌,
}
use mathlib.Core.List.{append_assoc}
use alter.Threads.Defs.{
  Phase, follower, Threads, Event, quiet, assigned, Caller, away, queued, none_waiting, entering,
  entered, still_none, opening, created, leaving, enqueue, look_waiters, look_opened, lock_mutex,
  recheck_waiters, recheck_opened, create_thread, count_opened, unlock_mutex,
}
use alter.Common.Tally.{tally, tally-beyond}
use alter.Threads.Tally.{is_led, is_running, has_pointer}
use alter.Threads.Admission.{
  is_inside, has_room, is_created, Admits, Admits-move, lock_mutex-Admits, unlock_mutex-Admits,
  create-Admits, count-Admits,
}
use alter.Threads.Leader.{InOrder, all_assigned, all_taken, all_executed}

tally-fresh :
    (w : Phase → ℕ) (phase : ℕ → Phase) (n : ℕ)
    → w follower ≡ 0
    → tally w (update phase n follower) (n + 1) ≡ tally w phase n
unfolding tally
tally-fresh w phase n idle =
    let next : suc n ≡ n + 1 = omega arith in
    let here : (n == n) ≡ true = ground arith in
    rw (← next, here, idle, tally-beyond w phase n follower n (omega arith)) (omega arith)

module _ (min : ℕ) {es : List Event} {s : Threads} (h : InOrder min es s) where
  -- A step of a caller of assign that creates no thread.
  callers-InOrder :
      (mutex : Option ℕ) (callers : ℕ → Caller)
      → Admits mutex callers s.opened s.threads s.max
      → InOrder min (quiet ∷ es) (record s { mutex = mutex; callers = callers })
  unfolding all_assigned all_taken all_executed
  callers-InOrder mutex callers admits = record {
    one_leader = h.one_leader;
    order = h.order;
    once = h.once;
    waiting = h.waiting;
    width = h.width;
    admits = admits;
  }

  module _ (a : ℕ) where
    moves :
        (c : Caller)
        → (is_inside c ≡ true → is_inside (s.callers a) ≡ true)
        → (has_room c ≡ true → s.opened < s.max)
        → is_created c ≡ is_created (s.callers a)
        → InOrder min (quiet ∷ es) (record s { callers = update s.callers a c })
    moves c within fits same = callers-InOrder s.mutex _ (Admits-move h.admits a c within fits same)

    pub enqueue-InOrder :
        (pointer : ℕ)
        → s.callers a ≡ away
        → InOrder min (assigned pointer ∷ es) (enqueue a pointer s)
    unfolding all_assigned all_taken all_executed enqueue
    enqueue-InOrder pointer at = record {
      one_leader = h.one_leader;
      order =
          ap (λ q. q ++ pointer ∷ []) h.order
          ∙ append_assoc (all_taken es) s.task_queue (pointer ∷ []);
      once = h.once;
      waiting = h.waiting;
      width = h.width;
      admits = Admits-move h.admits a queued (λ e. cc) (λ e. cc) (rw at refl);
    }

    pub look_waiters-InOrder : s.callers a ≡ queued → InOrder min (quiet ∷ es) (look_waiters a s)
    unfolding look_waiters
    look_waiters-InOrder at = elim (Bool-cases (leb s.waiters 0)) [
      | inl e ↦ rw e (moves none_waiting (λ i. cc) (λ i. cc) (rw at refl))
      | inr e ↦ rw e (moves away (λ i. cc) (λ i. cc) (rw at refl))
    ]

    pub look_opened-InOrder :
        s.callers a ≡ none_waiting → InOrder min (quiet ∷ es) (look_opened a s)
    unfolding look_opened
    look_opened-InOrder at = elim (Bool-cases (ltb s.opened s.max)) [
      | inl e ↦ rw e (moves entering (λ i. cc) (λ i. cc) (rw at refl))
      | inr e ↦ rw e (moves away (λ i. cc) (λ i. cc) (rw at refl))
    ]

    pub recheck_waiters-InOrder :
        s.callers a ≡ entered → InOrder min (quiet ∷ es) (recheck_waiters a s)
    unfolding recheck_waiters
    recheck_waiters-InOrder at = elim (Bool-cases (leb s.waiters 0)) [
      | inl e ↦ rw e (moves still_none (λ i. rw at refl) (λ i. cc) (rw at refl))
      | inr e ↦ rw e (moves leaving (λ i. rw at refl) (λ i. cc) (rw at refl))
    ]

    pub recheck_opened-InOrder :
        s.callers a ≡ still_none → InOrder min (quiet ∷ es) (recheck_opened a s)
    unfolding recheck_opened
    recheck_opened-InOrder at = elim (Bool-cases (ltb s.opened s.max)) [
      | inl e ↦ rw e (moves opening (λ i. rw at refl) (λ i. ground (arith, e)) (rw at refl))
      | inr e ↦ rw e (moves leaving (λ i. rw at refl) (λ i. cc) (rw at refl))
    ]

    pub lock_mutex-InOrder :
        s.callers a ≡ entering → s.mutex ≡ none → InOrder min (quiet ∷ es) (lock_mutex a s)
    unfolding lock_mutex
    lock_mutex-InOrder at free = callers-InOrder (some a) _ (lock_mutex-Admits h.admits a at free)

    pub unlock_mutex-InOrder : s.callers a ≡ leaving → InOrder min (quiet ∷ es) (unlock_mutex a s)
    unfolding unlock_mutex
    unlock_mutex-InOrder at = callers-InOrder none _ (unlock_mutex-Admits h.admits a at)

    pub create_thread-InOrder : s.callers a ≡ opening → InOrder min (quiet ∷ es) (create_thread a s)
    unfolding all_assigned all_taken all_executed create_thread
    create_thread-InOrder at =
        let mine = h.admits.one_inside a (rw at refl) in
        let n : s.threads ≡ s.opened + 0 = rw at at (h.admits.counted a mine) in
        let even : s.opened ≡ s.threads = omega (arith, n) in
        record {
          one_leader = rw even (tally-fresh is_led s.phase s.threads refl ∙ h.one_leader);
          order = h.order;
          once = λ p nz.
              rw even
                (omega (arith, h.once p nz, tally-fresh (has_pointer p) s.phase s.threads refl));
          waiting =
              rw even (omega (arith, h.waiting, tally-fresh is_running s.phase s.threads refl));
          width = h.width;
          admits = create-Admits h.admits a at;
        }

    pub count_opened-InOrder : s.callers a ≡ created → InOrder min (quiet ∷ es) (count_opened a s)
    unfolding all_assigned all_taken all_executed count_opened
    count_opened-InOrder at = record {
      one_leader = h.one_leader;
      order = h.order;
      once = h.once;
      waiting = h.waiting;
      width = h.width;
      admits = count-Admits h.admits a at;
    }

-- ===== src/Queue/Wait.antt =====
-- A pop that may wait, while other threads work on the queue.
use alter.Common.{
  ℕ, ◌+◌, ◌-◌, ◌%◌, ◌^◌, true, Option, some, List, [], ◌∷◌, ◌≡◌, refl, Bool-cases, inl, inr,
}
use alter.Allocator.{Allocator}
use alter.Queue.Defs.{Queue, PopResult, returned, waiting, pop, pop_loop, sleep, unlock}
use alter.Queue.Invariant.{HoldsAt, HoldsAt-unlock, Holds}
use alter.Queue.Take.{empty_head, take_from}

-- The waits of a pop, with what the other threads do in them. Each begins on an empty queue.
pub data Woken (al : Allocator)
    : List (Queue al.State → Option (Queue al.State)) → (start q : Queue al.State) → Type 0 where
  awake :
      {acts : List (Queue al.State → Option (Queue al.State))} {q : Queue al.State}
      → Woken al acts q q
  wakes :
      {act : Queue al.State → Option (Queue al.State)}
      {acts : List (Queue al.State → Option (Queue al.State))} {start q q' : Queue al.State}
      → Holds al (unlock start) []
      → sleep al act start ≡ some q
      → Woken al acts q q'
      → Woken al (act ∷ acts) start q'

-- How a pop ends that began at `start`: after some waits it took the oldest pointer of the queue; or
-- it still waits, on an empty queue; or it was woken by the end of the queue, and the mutex stays
-- locked.
pub data PopsTo (al : Allocator) (acts : List (Queue al.State → Option (Queue al.State)))
    (start : Queue al.State) : Option (PopResult al.State) → Type 0 where
  popped :
      {q q' : Queue al.State} {w : ℕ} {vs : List ℕ}
      → Woken al acts start q
      → Holds al (unlock q) (w ∷ vs)
      → Holds al q' vs
      → PopsTo al acts start (some (returned w q'))
  still_waiting :
      {q : Queue al.State}
      → Woken al acts start q
      → Holds al (unlock q) []
      → PopsTo al acts start
          (some (waiting (unlock (record q { empty_waiters = (q.empty_waiters + 1) % 2 ^ 32 }))))
  ended :
      {q : Queue al.State}
      → Woken al acts start q
      → q.destroyed ≡ true
      → q.held ≡ true
      → PopsTo al acts start (some (returned 0 q))

-- What the other threads do in one wait leaves a queue, and the mutex free.
abbrev pub KeepsQueue : (al : Allocator) → (Queue al.State → Option (Queue al.State)) → Type 0
KeepsQueue al act =
    (q : Queue al.State) (vs : List ℕ)
    → Holds al q vs
    → (q' : Queue al.State) × (vs' : List ℕ) × (act q ≡ some q') × Holds al q' vs'

abbrev pub AllKeep : (al : Allocator) → List (Queue al.State → Option (Queue al.State)) → Type 0
AllKeep al [] = Unit
AllKeep al (act ∷ acts) = KeepsQueue al act × AllKeep al acts

module _ (al : Allocator) where
  -- The contents do not depend on the counters.
  recount :
      (waiters : ℕ) {q : Queue al.State} {xs vs : List ℕ}
      → HoldsAt al q xs vs
      → HoldsAt al (unlock (record q { empty_waiters = waiters })) xs vs
  recount waiters h = record {
    unlocked = refl;
    pool_valid = h.pool_valid;
    chain = h.chain;
    tail_out = h.tail_out;
    tail_next = h.tail_next;
    live = h.live;
    not_null = h.not_null;
    values = h.values;
    size = h.size;
  }

  -- With a pointer in the queue there is no wait.
  pop_loop-cons :
      (acts : List (Queue al.State → Option (Queue al.State))) (q : Queue al.State) {w : ℕ}
      {vs : List ℕ}
      → Holds al (unlock q) (w ∷ vs)
      → (q' : Queue al.State) × (pop_loop al acts q ≡ some (returned w q')) × Holds al q' vs
  unfolding pop_loop
  pop_loop-cons [] q h =
      let t = take_from al q h.nodes h.at in (unlock t.2.q', rw (t.0, t.2.runs), t.2.rest)
  pop_loop-cons (act ∷ acts) q h =
      let t = take_from al q h.nodes h.at in (unlock t.2.q', rw (t.0, t.2.runs), t.2.rest)

  -- A wait ends with the mutex held and a queue that holds something.
  sleep-Holds :
      (act : Queue al.State → Option (Queue al.State)) (q : Queue al.State)
      → KeepsQueue al act
      → Holds al (unlock q) []
      → (q' : Queue al.State) × (sleep al act q ≡ some q')
        × (q'.held ≡ true)
        × (vs : List ℕ) × Holds al (unlock q') vs
  unfolding sleep
  sleep-Holds act q keep h =
      let (q', vs', runs, after) =
        keep (unlock (record q { empty_waiters = (q.empty_waiters + 1) % 2 ^ 32 })) []
          (record { nodes = h.nodes; at = recount ((q.empty_waiters + 1) % 2 ^ 32) h.at }) in
      (
        record q' { held = true; empty_waiters = (q'.empty_waiters + 2 ^ 32 - 1) % 2 ^ 32 },
        simp (runs, after.at.unlocked),
        refl,
        vs',
        record { nodes = after.nodes; at = recount _ after.at },
      )

  after_wait :
      {act : Queue al.State → Option (Queue al.State)}
      {acts : List (Queue al.State → Option (Queue al.State))} {start q : Queue al.State}
      {m : Option (PopResult al.State)}
      → Holds al (unlock start) []
      → sleep al act start ≡ some q
      → PopsTo al acts q m
      → PopsTo al (act ∷ acts) start m
  after_wait h run (popped w a b) = popped (wakes h run w) a b
  after_wait h run (still_waiting w a) = still_waiting (wakes h run w) a
  after_wait h run (ended w a b) = ended (wakes h run w) a b

  pop_loop-PopsTo :
      (acts : List (Queue al.State → Option (Queue al.State))) (q : Queue al.State) (vs : List ℕ)
      → AllKeep al acts
      → Holds al (unlock q) vs
      → PopsTo al acts q (pop_loop al acts q)
  unfolding pop_loop
  pop_loop-PopsTo acts q (w ∷ vs) keep h =
      let (q', runs, rest) = pop_loop-cons acts q h in rw runs (popped awake h rest)
  pop_loop-PopsTo [] q [] keep h = rw (empty_head al q h.nodes h.at) (still_waiting awake h)
  pop_loop-PopsTo (act ∷ acts) q [] keep h =
      let (q', runs, held, vs, after) = sleep-Holds act q keep.0 h in
      rw (empty_head al q h.nodes h.at, runs)
        (elim (Bool-cases q'.destroyed) [
          | inl end ↦ simp end (ended (wakes h runs awake) end held)
          | inr on ↦ simp on (after_wait h runs (pop_loop-PopsTo acts q' vs keep.1 after))
        ])

  -- frl_queue_pop_lock_with on a queue that holds a pointer returns the oldest at once and
  -- leaves the others.
  pub pop-cons :
      (acts : List (Queue al.State → Option (Queue al.State))) {q : Queue al.State} {w : ℕ}
      {vs : List ℕ}
      → Holds al q (w ∷ vs)
      → (q' : Queue al.State) × (pop al acts q ≡ some (returned w q')) × Holds al q' vs
  unfolding pop
  pop-cons acts {q} h =
      let (q', runs, rest) =
        pop_loop-cons acts (record q { held = true })
          (record { nodes = h.nodes; at = HoldsAt-unlock al h.at }) in
      (q', simp (h.at.unlocked, runs), rest)

  -- While the other threads keep the queue in order, frl_queue_pop_lock_with takes the oldest
  -- pointer of the queue that it finds after its waits, or returns 0 with the mutex locked when
  -- the queue is destroyed in a wait, or is still waiting on an empty queue.
  pub pop-PopsTo :
      (acts : List (Queue al.State → Option (Queue al.State))) {q : Queue al.State} {vs : List ℕ}
      → AllKeep al acts
      → Holds al q vs
      → PopsTo al acts (record q { held = true }) (pop al acts q)
  unfolding pop
  pop-PopsTo acts {q} {vs} keep h = simp (h.at.unlocked) (
      pop_loop-PopsTo acts (record q { held = true }) vs keep
        (record { nodes = h.nodes; at = HoldsAt-unlock al h.at }))

-- ===== src/Threads/Leader.antt =====
-- What each step of the pool with a leader and followers keeps.
use alter.Common.{
  ℕ, zero, suc, ◌+◌, ◌%◌, ◌^◌, ◌≤◌, ◌<◌, Bool, List, [], ◌∷◌, ◌++◌, ◌==◌, count, count-append,
  update, ◌≡◌, ◌≢◌, refl, inl, inr, arith, Option, none, some, Bool-cases, ap, ◌∙◌, sym,
}
use mathlib.Core.List.{append_assoc}
use alter.Threads.Defs.{
  Phase, follower, leading, holding, resigned, running, Threads, lead, take, resign, begin_work,
  end_work, Event, quiet, assigned, taken, executed, ended,
}
use alter.Common.Tally.{tally, tally-move}
use alter.Threads.Admission.{Admits}
use alter.Threads.Tally.{is_led, is_running, has_pointer, led}

-- The pointers that a run assigned, took from the queue and executed.
unfoldable pub all_assigned : List Event → List ℕ
all_assigned [] = []
all_assigned (assigned p ∷ es) = all_assigned es ++ p ∷ []
all_assigned (_ ∷ es) = all_assigned es

unfoldable pub all_taken : List Event → List ℕ
all_taken [] = []
all_taken (taken p ∷ es) = all_taken es ++ p ∷ []
all_taken (_ ∷ es) = all_taken es

unfoldable pub all_executed : List Event → List ℕ
all_executed [] = []
all_executed (executed p ∷ es) = all_executed es ++ p ∷ []
all_executed (_ ∷ es) = all_executed es

-- The pool behind the events of a run.
pub record InOrder (min : ℕ) (es : List Event) (s : Threads) : Type 0 where
  pub one_leader : tally is_led s.phase s.threads ≡ led s.leader
  pub order : all_assigned es ≡ all_taken es ++ s.task_queue
  pub once :
      (p : ℕ)
      → p ≢ 0
      → count p (all_taken es) ≡ count p (all_executed es) + tally (has_pointer p) s.phase s.threads
  pub waiting : (s.waiters + tally is_running s.phase s.threads) % 2 ^ 32 ≡ min
  pub width : s.waiters < 2 ^ 32
  pub admits : Admits s.mutex s.callers s.opened s.threads s.max

led-bound : (o : Option ℕ) → led o ≤ 1
led-bound none = omega arith
led-bound (some i) = omega arith

pub tally-followers : (w : Phase → ℕ) (n : ℕ) → w follower ≡ 0 → tally w (λ i. follower) n ≡ 0
unfolding tally
tally-followers w zero idle = refl
tally-followers w (suc n) idle = omega (arith, tally-followers w n idle, idle)

module _ (execute : ℕ → Bool) (min : ℕ) {es : List Event} {s : Threads} (h : InOrder min es s) where
  module _ (i : ℕ) (below : i < s.threads) where
    pub lead-InOrder : s.phase i ≡ follower → s.leader ≡ none → InOrder min (quiet ∷ es) (lead i s)
    unfolding all_assigned all_taken all_executed lead
    lead-InOrder at free = record {
      one_leader = omega (
        arith,
        tally-move is_led s.phase i follower leading s.threads below at,
        h.one_leader,
        ap led free,
      );
      order = h.order;
      once = λ p nz. omega (
        arith,
        tally-move (has_pointer p) s.phase i follower leading s.threads below at,
        h.once p nz,
      );
      waiting =
          omega
            (arith, tally-move is_running s.phase i follower leading s.threads below at, h.waiting);
      width = omega (arith, h.width);
      admits = h.admits;
    }

    pub take-InOrder :
        (pointer : ℕ) (rest : List ℕ)
        → s.phase i ≡ leading
        → s.task_queue ≡ pointer ∷ rest
        → InOrder min (taken pointer ∷ es) (take i pointer rest s)
    unfolding all_assigned all_taken all_executed take
    take-InOrder pointer rest at queued = record {
      one_leader = omega (
        arith,
        tally-move is_led s.phase i leading (holding pointer) s.threads below at,
        h.one_leader,
      );
      order =
          h.order
          ∙ ap (λ q. all_taken es ++ q) queued
          ∙ sym (append_assoc (all_taken es) (pointer ∷ []) rest);
      once = λ p nz. omega (
        arith,
        tally-move (has_pointer p) s.phase i leading (holding pointer) s.threads below at,
        count-append p (all_taken es) (pointer ∷ []),
        h.once p nz,
      );
      waiting = omega (
        arith,
        tally-move is_running s.phase i leading (holding pointer) s.threads below at,
        h.waiting,
      );
      width = omega (arith, h.width);
      admits = h.admits;
    }

    pub resign-InOrder :
        (pointer : ℕ) → s.phase i ≡ holding pointer → InOrder min (quiet ∷ es) (resign i pointer s)
    unfolding all_assigned all_taken all_executed resign
    resign-InOrder pointer at = record {
      one_leader = omega (
        arith,
        tally-move is_led s.phase i (holding pointer) (resigned pointer) s.threads below at,
        h.one_leader,
        led-bound s.leader,
      );
      order = h.order;
      once = λ p nz. omega (
        arith,
        tally-move (has_pointer p) s.phase i (holding pointer) (resigned pointer) s.threads below
            at,
        h.once p nz,
      );
      waiting = omega (
        arith,
        tally-move is_running s.phase i (holding pointer) (resigned pointer) s.threads below at,
        h.waiting,
      );
      width = omega (arith, h.width);
      admits = h.admits;
    }

    pub begin_work-InOrder :
        (pointer : ℕ)
        → s.phase i ≡ resigned pointer
        → InOrder min (quiet ∷ es) (begin_work i pointer s)
    unfolding all_assigned all_taken all_executed begin_work
    begin_work-InOrder pointer at = record {
      one_leader = omega (
        arith,
        tally-move is_led s.phase i (resigned pointer) (running pointer) s.threads below at,
        h.one_leader,
      );
      order = h.order;
      once = λ p nz. omega (
        arith,
        tally-move (has_pointer p) s.phase i (resigned pointer) (running pointer) s.threads below
            at,
        h.once p nz,
      );
      waiting = omega (
        arith,
        tally-move is_running s.phase i (resigned pointer) (running pointer) s.threads below at,
        h.waiting,
      );
      width = omega (arith, h.width);
      admits = h.admits;
    }

    pub end_work-InOrder :
        (pointer : ℕ)
        → s.phase i ≡ running pointer
        → InOrder min (ended pointer ∷ es) (end_work execute i pointer s)
    unfolding all_assigned all_taken all_executed end_work
    end_work-InOrder pointer at = elim (Bool-cases (pointer == 0)) [
      | inl null ↦ rw null (record {
        one_leader = leads_on;
        order = h.order;
        once = λ p nz. ground (arith, null, moves p, h.once p nz, nz);
        waiting = waits_on;
        width = omega (arith, h.width);
        admits = h.admits;
      })
      | inr some_pointer ↦ rw some_pointer (record {
        one_leader = leads_on;
        order = h.order;
        once = λ p nz.
            omega (arith, moves p, count-append p (all_executed es) (pointer ∷ []), h.once p nz);
        waiting = waits_on;
        width = omega (arith, h.width);
        admits = h.admits;
      })
    ]
      where
        moves :
            (p : ℕ)
            → tally (has_pointer p) (update s.phase i follower) s.threads
                + has_pointer p (running pointer)
              ≡ tally (has_pointer p) s.phase s.threads + 0
        moves p = tally-move (has_pointer p) s.phase i (running pointer) follower s.threads below at

        leads_on : tally is_led (update s.phase i follower) s.threads ≡ led s.leader
        leads_on = omega (
          arith,
          tally-move is_led s.phase i (running pointer) follower s.threads below at,
          h.one_leader,
        )

        waits_on :
            ((s.waiters + 1) % 2 ^ 32 + tally is_running (update s.phase i follower) s.threads)
              % 2 ^ 32
            ≡ min
        waits_on = omega (
          arith,
          tally-move is_running s.phase i (running pointer) follower s.threads below at,
          h.waiting,
        )

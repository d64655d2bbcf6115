-- ===== src/Queue/Trypop.antt =====
-- A pop without waiting, and what frl_queue_peek reads.
use alter.Common.{ℕ, true, false, some, List, [], ◌∷◌, ◌≡◌, ◌==◌, ◌∙◌, ap}
use alter.Allocator.{Allocator}
use alter.Queue.Defs.{Queue, trypop, peek, unlock}
use alter.Queue.Invariant.{HoldsAt-unlock, Holds}
use alter.Queue.Take.{Takes, empty_head, take_from}

-- How a call of trypop on a queue with the pointers `vs` ends.
abbrev pub TryPops : (al : Allocator) → Queue al.State → List ℕ → Type 0
TryPops al q [] = trypop al q ≡ some (0, record q { held = false })
TryPops al q (w ∷ vs) =
    (q' : Queue al.State) × (trypop al q ≡ some (w, q'))
    × Holds al q' vs
    × (q'.signals ≡ q.signals)
    × (q'.empty_waiters ≡ q.empty_waiters)
    × (q'.destroyed ≡ q.destroyed)

module _ (al : Allocator) (q : Queue al.State) where
  abbrev locked : Queue al.State
  locked = record q { held = true }

  module _ {w : ℕ} {vs : List ℕ} (h : Holds al q (w ∷ vs)) where
    taken : ((q.head == q.tail) ≡ false) × ((q.head == 0) ≡ false) × Takes al locked w vs
    taken = take_from al locked h.nodes (HoldsAt-unlock al h.at)

    trypop-eq : trypop al q ≡ some (w, unlock taken.2.q')
    unfolding trypop
    trypop-eq = simp (h.at.unlocked, taken.0, taken.2.runs)

  -- frl_queue_trypop_lock_with on a queue that holds pointers takes the oldest and leaves the
  -- others, with the counters as they were; on an empty queue it returns 0 and changes nothing.
  pub trypop-TryPops : {vs : List ℕ} → Holds al q vs → TryPops al q vs
  trypop-TryPops {vs = []} h =
      unfold trypop in simp (h.at.unlocked, empty_head al locked h.nodes (HoldsAt-unlock al h.at))
  trypop-TryPops {vs = w ∷ vs} h =
      let t = (taken h).2 in
      (unlock t.q', trypop-eq h, t.rest, t.same_others.2, t.same_others.3, t.same_others.4)

-- The pointer in the head of a queue that is not empty is what peek returns.
peek-head :
    (al : Allocator) (q : Queue al.State) {v : ℕ} {vs : List ℕ}
    → Holds al q (v ∷ vs)
    → peek q ≡ some (q.entry q.head).pointer
unfolding peek
peek-head al q h = let t = taken al q h in rw (t.0, t.1)

-- After a trypop from a queue that holds two pointers or more, frl_queue_peek returns the
-- pointer that was popped, whatever the next one is.
pub peek-trypop :
    (al : Allocator) (q : Queue al.State) {w v : ℕ} {vs : List ℕ}
    → Holds al q (w ∷ v ∷ vs)
    → (q' : Queue al.State) × (trypop al q ≡ some (w, q'))
      × Holds al q' (v ∷ vs)
      × (peek q' ≡ some w)
peek-trypop al q h =
    let t = (taken al q h).2 in
    (
      unlock t.q',
      trypop-eq al q h,
      t.rest,
      peek-head al (unlock t.q') t.rest ∙ ap some (rw (t.same_entries, t.at_head) t.value),
    )

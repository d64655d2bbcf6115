-- ===== src/Slab/Races.antt =====
-- All runs of threads that allocate from a block and free to it without a lock.
use alter.Common.{
  ℕ, ◌+◌, ◌<◌, true, ◌∷◌, ◌==◌, count, remove_one, count-remove_one, update, if◌then◌else◌, none,
  ◌≡◌, refl, ap, ◌∙◌, arith, inl, inr, Bool-cases,
}
use alter.Common.Tally.{tally, tally-move}
use alter.Slab.LockFree.{
  Stand, outside, popping, popped, freeing, aiming, pushing, pushed, Shared, is_at, read_top,
  seize_top, take_top, give_back, read_attempt, read_free, seize_free, put_item, Turn, reads_top,
  seizes_top, takes_top, gives_back, reads_attempt, reads_free, seizes_free, puts, Turns, start,
  after,
}
use alter.Slab.Sharing.{
  IsShared, is_owner, owned, frees, busy, value, found, stacked, stacked-next, stacked-above,
  is_at-some, stroll-IsShared, seize-IsShared, release-IsShared,
}

module _ (n : ℕ) (total : ℕ → ℕ) {s : Shared} (h : IsShared n total s) (i : ℕ) (below : i < n) where
  -- The stack pointer is seized if it has not changed.
  swap-IsShared :
      (a : ℕ) (from to back : Stand)
      → s.stand i ≡ from
      → (is_owner from ≡ 0) × (is_owner to ≡ 1) × (is_owner back ≡ 0)
      → owned to ≡ a
      → ((x : ℕ) → (frees x from ≡ frees x to) × (frees x from ≡ frees x back))
      → IsShared n total (
          if is_at a s.stack_pointer
          then record s { stack_pointer = none; stand = update s.stand i to }
          else record s { stand = update s.stand i back })
  swap-IsShared a from to back at own height_is same = elim (Bool-cases (is_at a s.stack_pointer)) [
    | inl is ↦ rw is (
        seize-IsShared n total h i below from to a at (is_at-some a s.stack_pointer is)
          (own.0, own.1) height_is (λ x. (same x).0))
    | inr changed ↦
        rw changed (stroll-IsShared n total h i below from back at (own.0, own.2) (λ x. (same x).1))
  ]

  take_top-IsShared : (p : ℕ) → s.stand i ≡ popped p → IsShared n total (take_top i p s)
  unfolding take_top
  take_top-IsShared p at =
      release-IsShared n total h i below (popped p) outside p s.usage_stack
        (s.usage_stack (p + 1) ∷ s.live) at refl refl
        λ x. omega (arith, stacked-next x s.usage_stack p)

  put_item-IsShared :
      (item a cmpval : ℕ)
      → s.stand i ≡ pushed item a cmpval
      → IsShared n total (put_item i item a cmpval s)
  unfolding put_item
  put_item-IsShared item a cmpval at = elim (Bool-cases (s.usage_stack (a + 1) == cmpval)) [
    | inl same ↦
        let stack = update s.usage_stack (a + 1) item in
        let top : stack (a + 1) ≡ item =
          let here : (a + 1 == a + 1) ≡ true = ground arith in rw here refl in
        rw same (
          release-IsShared n total h i below (pushed item a cmpval) outside (a + 1) stack s.live at
            refl refl
            λ x. omega (
              arith,
              rw top at (stacked-next x stack a),
              stacked-above x s.usage_stack (a + 1) item a (omega arith),
            ))
    | inr changed ↦ rw changed (
        release-IsShared n total h i below (pushed item a cmpval) (freeing item) a s.usage_stack
          s.live at refl refl λ x. refl)
  ]

  give_back-IsShared :
      (item : ℕ)
      → s.stand i ≡ outside
      → 0 < count item s.live
      → IsShared n total (give_back i item s)
  unfolding give_back
  give_back-IsShared item at there =
      let own = tally-move owned s.stand i outside (freeing item) n below at in
      let still : tally owned (update s.stand i (freeing item)) n ≡ tally owned s.stand n =
        omega (arith, own) in
      record {
        owner =
            omega (arith, tally-move is_owner s.stand i outside (freeing item) n below at, h.owner);
        all = λ x.
            ap
              (λ t.
                stacked x s.usage_stack (value s.stack_pointer + t)
                + count x (remove_one item s.live)
                + tally (frees x) (update s.stand i (freeing item)) n)
              still
            ∙ omega (
              arith,
              tally-move (frees x) s.stand i outside (freeing item) n below at,
              count-remove_one item x s.live there,
              h.all x,
            );
      }

module _ (n : ℕ) (total : ℕ → ℕ) where
  Turn-IsShared : {s s' : Shared} → IsShared n total s → Turn n s s' → IsShared n total s'
  unfolding read_top seize_top read_attempt read_free seize_free
  Turn-IsShared h (reads_top i p below at free) =
      stroll-IsShared n total h i below outside (popping p) at (refl, refl) (λ x. refl)
  Turn-IsShared h (seizes_top i p below at) =
      swap-IsShared n total h i below (p + 1) (popping p) (popped p) outside at (refl, refl, refl)
        refl (λ x. (refl, refl))
  Turn-IsShared h (takes_top i p below at) = take_top-IsShared n total h i below p at
  Turn-IsShared h (gives_back i item below at there) =
      give_back-IsShared n total h i below item at there
  Turn-IsShared h (reads_attempt i item a below at free) =
      stroll-IsShared n total h i below (freeing item) (aiming item a) at (refl, refl) (λ x. refl)
  Turn-IsShared {s} h (reads_free i item a below at) =
      stroll-IsShared n total h i below (aiming item a) (pushing item a (s.usage_stack (a + 1))) at
        (refl, refl) (λ x. refl)
  Turn-IsShared h (seizes_free i item a cmpval below at) =
      swap-IsShared n total h i below a (pushing item a cmpval) (pushed item a cmpval)
        (freeing item) at (refl, refl, refl) refl (λ x. (refl, refl))
  Turn-IsShared h (puts i item a cmpval below at) =
      put_item-IsShared n total h i below item a cmpval at

-- In every run of threads that allocate from a block and free to it without a lock, when at the
-- start the stack pointer is busy exactly when one thread has made it so: that stays so, and no
-- two threads have; and each item is as often on the stack, handed out and with threads that
-- free it, together, as at the start.
pub Turns-IsShared :
    (n : ℕ) {s s' : Shared}
    → tally is_owner s.stand n ≡ busy s.stack_pointer
    → Turns n s s'
    → IsShared n (λ x. found n x s) s'
Turns-IsShared n own start = record { owner = own; all = λ x. refl }
Turns-IsShared n {s} own (after r turn) =
    Turn-IsShared n (λ x. found n x s) (Turns-IsShared n own r) turn

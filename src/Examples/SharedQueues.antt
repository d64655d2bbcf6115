-- ===== src/Examples/SharedQueues.antt =====
-- The lock-free queue with its first entry at 1: one thread pushes the pointer 70, another pops it.
use alter.Common.{ℕ, List, [], ◌∷◌, ◌++◌, ◌≡◌, refl, arith}
use alter.Queue.LockFree.{
  taking, Shared, start_push, read_tail, join_tail, read_head, look_tail, quiet, pushed, Run, start,
  after, starts_push, reads_tail, joins, reads_head, looks,
}
use alter.Queue.Links.{Links, pointers}
use alter.Queue.Fifo.{all_pushed, all_popped}
use alter.Queue.Order.{created, Run-order, Run-empty}

abbrev nowhere : ℕ → ℕ
nowhere a = 0

abbrev empty_queue : Shared
empty_queue = created 1 nowhere nowhere

-- The push links its entry in, but does not move the tail on. The pop reads head and tail before that.
abbrev looked : Shared
looked = look_tail 1 1 (read_head 1 empty_queue)

looked-Run : Run empty_queue (quiet ∷ quiet ∷ []) looked
unfolding read_head look_tail
looked-Run = after (after start (reads_head 1 refl)) (looks 1 1 refl)

Run-empty_example :
    (all_pushed (quiet ∷ quiet ∷ []) ≡ all_popped (quiet ∷ quiet ∷ []))
    × (looked.head ≡ 1)
    × (looked.tail ≡ 1)
unfolding read_head look_tail
Run-empty_example = Run-empty 1 nowhere nowhere looked-Run 1 1 refl refl

abbrev linked_in : Shared
linked_in = join_tail 0 2 1 (read_tail 0 2 (start_push 0 2 70 empty_queue))

linked_in-Run : Run empty_queue (pushed 70 ∷ quiet ∷ quiet ∷ []) linked_in
unfolding start_push read_tail join_tail
linked_in-Run =
    after (after (after start (starts_push 0 2 70 refl (omega arith) refl)) (reads_tail 0 2 refl))
      (joins 0 2 1 refl refl)

Run-order_example :
    (xs : List ℕ) × Links linked_in.next linked_in.head xs
    × (all_pushed (pushed 70 ∷ quiet ∷ quiet ∷ [])
        ≡ all_popped (pushed 70 ∷ quiet ∷ quiet ∷ []) ++ pointers linked_in.pointer xs)
    × ((i head next' p : ℕ) → linked_in.stand i ≡ taking head next' p → linked_in.pointer next' ≡ p)
Run-order_example = Run-order 1 nowhere nowhere linked_in-Run

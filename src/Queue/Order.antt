-- ===== src/Queue/Order.antt =====
-- All runs of the lock-free queue from a new one: first in, first out.
use alter.Common.{
  ℕ, ◌+◌, ◌-◌, ◌%◌, ◌^◌, ◌<◌, true, false, List, [], ◌∷◌, ◌++◌, ◌==◌, has, update, ◌≡◌, ◌≢◌, ◌⊎◌,
  refl, ap, sym, ◌∙◌, arith, inl, inr,
}
use mathlib.Core.List.{append-nil}
use alter.Queue.LockFree.{
  Stand, outside, linking, aiming, helping, joined, popping, looking, deciding, taking, leaving,
  Shared, read_tail, join_tail, help_tail, end_push, read_head, look_tail, read_next, find_empty,
  help_pop, move_head, read_pointer, end_pop, Event, quiet, returned,
}
use alter.Queue.Links.{Links, last, final, pointers, final-behind, Links-out}
use alter.Queue.Fifo.{
  all_pushed, all_popped, owns, IsPrivate, IsPast, IsAhead, Stands, at_outside, at_linking,
  at_aiming, at_helping, at_joined, at_popping, at_looking, at_deciding, at_taking, at_leaving,
  IsFifo,
}
use alter.Queue.LockFree.{
  Step, starts_push, reads_tail, joins, misses, helps, ends_push, reads_head, looks, reads_next,
  finds_empty, helps_pop, moves_head, misses_head, reads_pointer, ends_pop, Run, start, after,
}
use alter.Queue.Turns.{quiet-IsQuiet, returned-IsQuiet, tail-IsFifo, swing-IsFifo, stroll-IsFifo}
use alter.Queue.Runs.{start_push-IsFifo, join_tail-IsFifo, move_head-IsFifo}

module _ {es : List Event} {s : Shared} (h : IsFifo es s) (i : ℕ) where
  Stands-at : (x : Stand) → s.stand i ≡ x → Stands s h.linked h.rest x
  Stands-at x e = rw e at (h.stands i)

  -- A private entry stays one when a thread goes on, and the tail moves.
  still-IsPrivate :
      {n : ℕ} (v c : ℕ) (g : ℕ → Stand)
      → IsPrivate s h.linked h.rest n
      → IsPrivate (record s { tail = v; nelts = c; stand = g }) h.linked h.rest n
  still-IsPrivate v c g p = record {
    apart = p.apart;
    open_end = p.open_end;
    not_null = p.not_null;
    known = p.known;
  }

  -- What a thread finds that reads the tail behind a head with no next entry.
  past-end :
      (a : ℕ)
      → IsPast s h.linked h.rest a
      → s.next a ≡ 0
      → (h.rest ≡ []) × (s.head ≡ a) × (s.tail ≡ a)
  past-end a p open_end =
      let (none, same) = final-behind s.head a h.rest (h.at_end a p.old open_end) p.behind in
      (none, same, ground (arith, h.tail_in, ap (has s.tail) none, same))

  linking-IsFifo :
      (x : Stand) (n : ℕ)
      → s.stand i ≡ x
      → IsPrivate s h.linked h.rest n
      → ((m : ℕ) → owns m (linking n) ≡ owns m x)
      → IsFifo (quiet ∷ es) (read_tail i n s)
  unfolding read_tail
  linking-IsFifo x n at p same =
      stroll-IsFifo h i (aiming n s.tail) quiet quiet-IsQuiet
        (λ m o. ap (owns m) at ∙ sym (same m) ∙ o)
        (at_aiming (still-IsPrivate s.tail s.nelts (update s.stand i (aiming n s.tail)) p)
          (h.old s.tail h.tail_in))

  look_tail-IsFifo : (a : ℕ) → IsPast s h.linked h.rest a → IsFifo (quiet ∷ es) (look_tail i a s)
  unfolding look_tail
  look_tail-IsFifo a p =
      stroll-IsFifo h i (looking a s.tail) quiet quiet-IsQuiet (λ m o. cc)
        (at_looking (record { old = p.old; behind = p.behind })
          (record { has_next = next_there (ground arith); moved = λ ne e. ne (sym e) }))
    where
      next_there : (s.next a ≡ 0) ⊎ (0 < s.next a) → a ≢ s.tail → 0 < s.next a
      next_there (inl open_end) ne = absurd (ne (sym (past-end a p open_end).2))
      next_there (inr there) ne = there

  read_next-IsFifo :
      (a t : ℕ)
      → IsPast s h.linked h.rest a
      → IsAhead s h.linked h.rest a t
      → IsFifo (quiet ∷ es) (read_next i a t s)
  unfolding read_next
  read_next-IsFifo a t p ahead =
      stroll-IsFifo h i (deciding a t (s.next a)) quiet quiet-IsQuiet (λ m o. cc)
        (at_deciding (record { old = p.old; behind = p.behind })
          (record { has_next = ahead.has_next; moved = ahead.moved }) (λ pos. refl) ahead.has_next)

Step-IsFifo :
    {es : List Event} {s s' : Shared} {e : Event} → IsFifo es s → Step s e s' → IsFifo (e ∷ es) s'
unfolding join_tail help_tail end_push read_head find_empty help_pop move_head read_pointer end_pop
Step-IsFifo h (starts_push i n p at pos new) = start_push-IsFifo h i n p at pos new
Step-IsFifo {s} h (reads_tail i n at) = elim (Stands-at h i (linking n) at) [
  | at_linking p ↦ linking-IsFifo h i (linking n) n at p (λ m. refl)
]
Step-IsFifo {s} h (joins i n t at open_end) = elim (Stands-at h i (aiming n t) at) [
  | at_aiming p l ↦ join_tail-IsFifo h i n t at open_end p l
]
Step-IsFifo {s} h (misses i n t at taken) = elim (Stands-at h i (aiming n t) at) [
  | at_aiming p l ↦
      let full : (s.next t == 0) ≡ false = ground (arith, taken) in
      rw full (
        stroll-IsFifo h i (helping n t (s.next t)) quiet quiet-IsQuiet (λ m o. ap (owns m) at ∙ o)
          (at_helping
            (still-IsPrivate h i s.tail s.nelts (update s.stand i (helping n t (s.next t))) p) l
            refl taken))
]
Step-IsFifo {s} h (helps i n t x at) = elim (Stands-at h i (helping n t x) at) [
  | at_helping p l e pos ↦
      swing-IsFifo h i x t s.nelts (linking n) e pos (λ m o. ap (owns m) at ∙ o)
        λ v. at_linking (still-IsPrivate h i v s.nelts (update s.stand i (linking n)) p)
]
Step-IsFifo {s} h (ends_push i n t at) = elim (Stands-at h i (joined n t) at) [
  | at_joined l e pos ↦
      swing-IsFifo h i n t ((s.nelts + 1) % 2 ^ 32) outside e pos (λ m o. cc) (λ v. at_outside)
]
Step-IsFifo {s} h (reads_head i at) =
    stroll-IsFifo h i (popping s.head) quiet quiet-IsQuiet (λ m o. cc)
      (at_popping (record { old = h.old s.head (ground arith); behind = Links-out h.links }))
Step-IsFifo h (looks i a at) = elim (Stands-at h i (popping a) at) [
  | at_popping p ↦ look_tail-IsFifo h i a p
]
Step-IsFifo h (reads_next i a t at) = elim (Stands-at h i (looking a t) at) [
  | at_looking p ahead ↦ read_next-IsFifo h i a t p ahead
]
Step-IsFifo h (finds_empty i a at) =
    stroll-IsFifo h i outside quiet quiet-IsQuiet (λ m o. cc) at_outside
Step-IsFifo {s} h (helps_pop i a x at pos) = elim (Stands-at h i (deciding a a x) at) [
  | at_deciding p ahead leads some_next ↦
      swing-IsFifo h i x a s.nelts outside (leads pos) pos (λ m o. cc) (λ v. at_outside)
]
Step-IsFifo h (moves_head i a t x at ne at_head) = elim (Stands-at h i (deciding a t x) at) [
  | at_deciding p ahead leads some_next ↦
      move_head-IsFifo h i a t x at ne at_head ahead leads (some_next ne)
]
Step-IsFifo {s} h (misses_head i a t x at ne moved) =
    let gone : (s.head == a) ≡ false = ground (arith, moved) in
    rw gone (stroll-IsFifo h i outside quiet quiet-IsQuiet (λ m o. cc) at_outside)
Step-IsFifo {s} h (reads_pointer i a x p at) =
    stroll-IsFifo h i (leaving a) (returned (s.pointer x)) (returned-IsQuiet (s.pointer x))
      (λ m o. cc) at_leaving
Step-IsFifo {s} h (ends_pop i a at) =
    tail-IsFifo h i s.tail ((s.nelts + (2 ^ 32 - 1)) % 2 ^ 32) (a ∷ s.freed) outside quiet
      quiet-IsQuiet h.tail_in (λ b out ne. ne) (λ m o. cc) at_outside

-- frl_queue_create: a queue with a first entry, which has no pointer of its own, before any thread comes.
abbrev pub created : (first : ℕ) → (next pointer : ℕ → ℕ) → Shared
created first next pointer = record {
  head = first;
  tail = first;
  next = update next first 0;
  pointer = pointer;
  nelts = 0;
  seen = λ a. a == first;
  freed = [];
  stand = λ i. outside;
}

created-IsFifo : (first : ℕ) (next pointer : ℕ → ℕ) → IsFifo [] (created first next pointer)
unfolding all_pushed all_popped pointers final
created-IsFifo first next pointer = record {
  linked = λ a. a == first;
  rest = [];
  links = last (let here : (first == first) ≡ true = ground arith in rw here refl);
  old = λ a o. ground (arith, o);
  at_end = λ a l e. ground (arith, l);
  tail_in = ground arith;
  known = λ a l. l;
  stands = λ i. at_outside;
  apart = λ i j n o o'. cc;
  order = refl;
}

Run-IsFifo : {s : Shared} {es : List Event} {s' : Shared} → IsFifo [] s → Run s es s' → IsFifo es s'
Run-IsFifo h start = h
Run-IsFifo h (after r step) = Step-IsFifo (Run-IsFifo h r) step

module _ (first : ℕ) (next pointer : ℕ → ℕ) {es : List Event} {s : Shared}
    (r : Run (created first next pointer) es s) where
  runs : IsFifo es s
  runs = Run-IsFifo (created-IsFifo first next pointer) r

  -- In every run of threads that push to a new queue and pop from it without a lock, when the
  -- pool hands out no entry twice: the pointers pushed are, in their order, those popped and
  -- then those in the entries behind the head; and a thread that has moved the head on returns
  -- the pointer that it popped.
  pub Run-order :
      (xs : List ℕ) × Links s.next s.head xs
      × (all_pushed es ≡ all_popped es ++ pointers s.pointer xs)
      × ((i head next' p : ℕ) → s.stand i ≡ taking head next' p → s.pointer next' ≡ p)
  Run-order = (
    runs.rest,
    runs.links,
    runs.order,
    λ i head next' p at. taken (Stands-at runs i (taking head next' p) at),
  )
    where
      taken :
          {head next' p : ℕ}
          → Stands s runs.linked runs.rest (taking head next' p)
          → s.pointer next' ≡ p
      taken (at_taking l e) = e

  -- In every run of threads that push to a new queue and pop from it without a lock, when the
  -- pool hands out no entry twice: when a pop has found the head at the tail and no entry behind
  -- it, then when it read that link all pointers pushed had been popped, and head and tail stood
  -- there.
  pub Run-empty :
      (i head : ℕ)
      → s.stand i ≡ looking head head
      → s.next head ≡ 0
      → (all_pushed es ≡ all_popped es) × (s.head ≡ head) × (s.tail ≡ head)
  unfolding pointers
  Run-empty i head at open_end = elim (Stands-at runs i (looking head head) at) [
    | at_looking p ahead ↦
        let (none, at_head, at_tail) = past-end runs i head p open_end in
        (
          runs.order
              ∙ ap (λ xs. all_popped es ++ pointers s.pointer xs) none
              ∙ append-nil (all_popped es),
          at_head,
          at_tail,
        )
  ]

-- ===== src/Queue/LockFree.antt =====
-- The queue without a lock: frl_queue_push_lock_free, frl_queue_trypush_lock_free,
-- frl_queue_pop_lock_free and frl_queue_trypop_lock_free of src/lib/frl_queue.c, as the steps that
-- threads take in any order, each with one access to memory that others may write. The pool hands out
-- no entry that it has handed out before.
use alter.Common.{
  ℕ, ◌+◌, ◌-◌, ◌%◌, ◌^◌, ◌<◌, Bool, true, false, List, [], ◌∷◌, ◌==◌, update, if◌then◌else◌, ◌≡◌,
  ◌≢◌,
}

-- Where a thread stands. In a push with its entry: before and behind `tail = queue->tail`, with what
-- stands in the link of the tail, and with its entry linked. In a pop: with the head, with the tail too,
-- with the head's link too, with the head moved to the next entry, whose pointer is then `pointer`, and
-- with that pointer read.
pub data Stand : Type 0 where
  outside : Stand
  linking : (elts : ℕ) → Stand
  aiming : (elts tail : ℕ) → Stand
  helping : (elts tail swap : ℕ) → Stand
  joined : (elts tail : ℕ) → Stand
  popping : (head : ℕ) → Stand
  looking : (head tail : ℕ) → Stand
  deciding : (head tail next : ℕ) → Stand
  taking : (head next pointer : ℕ) → Stand
  leaving : (head : ℕ) → Stand

-- `frl_queue_t` with its entries. `seen` says which entries the pool has handed out, `freed` lists those
-- given back.
pub record Shared : Type 0 where
  pub head : ℕ
  pub tail : ℕ
  pub next : ℕ → ℕ
  pub pointer : ℕ → ℕ
  pub nelts : ℕ
  pub seen : ℕ → Bool
  pub freed : List ℕ
  pub stand : ℕ → Stand

abbrev at : ℕ → Stand → Shared → Shared
at i stand s = record s { stand = update s.stand i stand }

-- The push: frl_slab_palloc has given `elts`, which is filled in;
unfoldable pub start_push : (i elts pointer : ℕ) → Shared → Shared
start_push i elts pointer s = at i (linking elts) (record s {
  next = update s.next elts 0;
  pointer = update s.pointer elts pointer;
  seen = update s.seen elts true;
})

-- `tail = queue->tail`;
unfoldable pub read_tail : (i elts : ℕ) → Shared → Shared
read_tail i elts s = at i (aiming elts s.tail) s

-- `swap = apr_atomic_casptr(&tail->next, elts, 0)`;
unfoldable pub join_tail : (i elts tail : ℕ) → Shared → Shared
join_tail i elts tail s =
    if s.next tail == 0
    then at i (joined elts tail) (record s { next = update s.next tail elts })
    else at i (helping elts tail (s.next tail)) s

-- `apr_atomic_casptr(&queue->tail, to, from)`.
abbrev pub swing : (to from : ℕ) → Shared → Shared
swing to from s = record s { tail = if s.tail == from then to else s.tail }

-- With another entry in the link, the tail is moved there, and the push starts over;
unfoldable pub help_tail : (i elts tail to : ℕ) → Shared → Shared
help_tail i elts tail to s = at i (linking elts) (swing to tail s)

-- with its own there, the tail is moved to it, and the push is done.
unfoldable pub end_push : (i elts tail : ℕ) → Shared → Shared
end_push i elts tail s =
    let s' = swing elts tail s in at i outside (record s' { nelts = (s'.nelts + 1) % 2 ^ 32 })

-- The pop: `head = queue->head`;
unfoldable pub read_head : (i : ℕ) → Shared → Shared
read_head i s = at i (popping s.head) s

-- `tail = queue->tail`;
unfoldable pub look_tail : (i head : ℕ) → Shared → Shared
look_tail i head s = at i (looking head s.tail) s

-- `next = head->next`;
unfoldable pub read_next : (i head tail : ℕ) → Shared → Shared
read_next i head tail s = at i (deciding head tail (s.next head)) s

-- with the head at the tail and no next entry, the queue is empty: the trypop returns, and the pop waits
-- for a signal and starts over;
unfoldable pub find_empty : (i : ℕ) → Shared → Shared
find_empty i s = at i outside s

-- with the head at the tail and a next entry, the tail is moved there, and the pop starts over;
unfoldable pub help_pop : (i tail to : ℕ) → Shared → Shared
help_pop i tail to s = at i outside (swing to tail s)

-- otherwise, in the pop if there is a next entry, `swap = apr_atomic_casptr(&queue->head, next, head)`,
-- and if the head has moved the pop starts over;
unfoldable pub move_head : (i head next : ℕ) → Shared → Shared
move_head i head next s =
    if s.head == head
    then at i (taking head next (s.pointer next)) (record s { head = next })
    else at i outside s

-- `pointer = next->pointer`;
unfoldable pub read_pointer : (i head next : ℕ) → Shared → Shared
read_pointer i head next s = at i (leaving head) s

-- `frl_slab_pfree(head)`, and the pop is done.
unfoldable pub end_pop : (i head : ℕ) → Shared → Shared
end_pop i head s =
    at i outside (record s { freed = head ∷ s.freed; nelts = (s.nelts + (2 ^ 32 - 1)) % 2 ^ 32 })

-- What a step does to the queue as others see it, and the pointer that a pop returns.
pub data Event : Type 0 where
  quiet : Event
  pushed popped returned : (pointer : ℕ) → Event

pub data Step (s : Shared) : Event → Shared → Type 0 where
  starts_push :
      (i elts pointer : ℕ)
      → s.stand i ≡ outside
      → 0 < elts
      → s.seen elts ≡ false
      → Step s quiet (start_push i elts pointer s)
  reads_tail : (i elts : ℕ) → s.stand i ≡ linking elts → Step s quiet (read_tail i elts s)
  joins :
      (i elts tail : ℕ)
      → s.stand i ≡ aiming elts tail
      → s.next tail ≡ 0
      → Step s (pushed (s.pointer elts)) (join_tail i elts tail s)
  misses :
      (i elts tail : ℕ)
      → s.stand i ≡ aiming elts tail
      → 0 < s.next tail
      → Step s quiet (join_tail i elts tail s)
  helps :
      (i elts tail swap : ℕ)
      → s.stand i ≡ helping elts tail swap
      → Step s quiet (help_tail i elts tail swap s)
  ends_push :
      (i elts tail : ℕ) → s.stand i ≡ joined elts tail → Step s quiet (end_push i elts tail s)
  reads_head : (i : ℕ) → s.stand i ≡ outside → Step s quiet (read_head i s)
  looks : (i head : ℕ) → s.stand i ≡ popping head → Step s quiet (look_tail i head s)
  reads_next :
      (i head tail : ℕ) → s.stand i ≡ looking head tail → Step s quiet (read_next i head tail s)
  finds_empty : (i head : ℕ) → s.stand i ≡ deciding head head 0 → Step s quiet (find_empty i s)
  helps_pop :
      (i head next : ℕ)
      → s.stand i ≡ deciding head head next
      → 0 < next
      → Step s quiet (help_pop i head next s)
  moves_head :
      (i head tail next : ℕ)
      → s.stand i ≡ deciding head tail next
      → head ≢ tail
      → s.head ≡ head
      → Step s (popped (s.pointer next)) (move_head i head next s)
  misses_head :
      (i head tail next : ℕ)
      → s.stand i ≡ deciding head tail next
      → head ≢ tail
      → s.head ≢ head
      → Step s quiet (move_head i head next s)
  reads_pointer :
      (i head next pointer : ℕ)
      → s.stand i ≡ taking head next pointer
      → Step s (returned (s.pointer next)) (read_pointer i head next s)
  ends_pop : (i head : ℕ) → s.stand i ≡ leaving head → Step s quiet (end_pop i head s)

-- The events of a run, the last first.
pub data Run (s : Shared) : List Event → Shared → Type 0 where
  start : Run s [] s
  after :
      {es : List Event} {e : Event} {s' s'' : Shared}
      → Run s es s'
      → Step s' e s''
      → Run s (e ∷ es) s''

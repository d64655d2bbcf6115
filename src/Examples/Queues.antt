-- ===== src/Examples/Queues.antt =====
-- A queue on a slab pool: each theorem on src/lib/frl_queue.c at a concrete input.
use alter.Common.{
  ℕ, ◌+◌, true, false, Option, none, some, ◌≡◌, List, [], ◌∷◌, ◌++◌, ◌>>=◌, arith, refl, ◌==◌,
  if◌then◌else◌,
}
use alter.Slab.Defs.{Pool, pool_create}
use alter.Slab.Alloc.{palloc}
use alter.Slab.Allocation.{Fits}
use alter.Slab.Invariant.{ring}
use alter.Slab.Api.{slab_allocator}
use alter.Queue.Defs.{Queue, Entry, Status, create, push, trypop, pop, success}
use alter.Queue.Invariant.{Holds, HoldsAt-unlock}
use alter.Queue.Create.{Creates, created, null_written, create-Creates}
use alter.Queue.Push.{Pushes, pushed, out_of_memory, push-Pushes}
use alter.Queue.Trypop.{TryPops, trypop-TryPops}
use alter.Queue.Wait.{PopsTo, pop-PopsTo, KeepsQueue}
use alter.Examples.SlabPool.{
  empty_pool, empty_pool-PoolIsValid, no_mallocs, second_mallocs, no_mallocs-Fits,
}

abbrev no_entries : ℕ → Entry
no_entries a = record { pointer = 0; next = 0 }

abbrev queue_of : Option (Queue Pool) → Queue Pool
queue_of (some q) = q
queue_of none = record {
  pool = empty_pool;
  entry = no_entries;
  head = 0;
  tail = 0;
  empty_waiters = 0;
  destroyed = false;
  nelts = 0;
  held = false;
  signals = 0;
}

abbrev pushed_queue : Option (Status × Queue Pool) → Queue Pool
pushed_queue none = queue_of none
pushed_queue (some (st, q)) = q

abbrev empty_queue : Queue Pool
empty_queue = queue_of (create slab_allocator no_mallocs empty_pool no_entries)

Creates-Holds :
    {run : Option (Queue Pool)} {q : Queue Pool}
    → Creates slab_allocator run
    → run ≡ some q
    → Holds slab_allocator q []
Creates-Holds (created {q = q'} h) e = let same : q' ≡ _ = ground (arith, e) in rw same at h
Creates-Holds null_written e = cc

empty_queue-Holds : Holds slab_allocator empty_queue []
unfolding create palloc pool_create
empty_queue-Holds =
    Creates-Holds
      (create-Creates slab_allocator empty_pool no_mallocs no_entries empty_pool-PoolIsValid
        (no_mallocs-Fits empty_pool (omega arith)))
      refl

Pushes-Holds :
    {q q' : Queue Pool} {vs : List ℕ} {v signals : ℕ} {run : Option (Status × Queue Pool)}
    → Pushes slab_allocator q vs v signals run
    → run ≡ some (success, q')
    → Holds slab_allocator q' (vs ++ v ∷ [])
Pushes-Holds (pushed {q' = p} h a b c) e = let same : p ≡ _ = ground (arith, e) in rw same at h
Pushes-Holds out_of_memory e = cc

empty_queue-Fits : Fits empty_queue.pool no_mallocs
unfolding create palloc pool_create
empty_queue-Fits = no_mallocs-Fits empty_queue.pool (omega arith)

-- The queue with 7, and with 7 and 8.
abbrev one_queue : Queue Pool
one_queue = pushed_queue (push slab_allocator no_mallocs 7 empty_queue)

one_queue-Holds : Holds slab_allocator one_queue (7 ∷ [])
unfolding create palloc pool_create push
one_queue-Holds =
    Pushes-Holds (push-Pushes slab_allocator empty_queue-Holds no_mallocs 7 empty_queue-Fits) refl

ring-one_queue : ring one_queue.pool ≡ 100 ∷ []
unfolding create palloc pool_create push ring
ring-one_queue = refl

one_queue-Fits : Fits one_queue.pool second_mallocs
unfolding create palloc pool_create push
one_queue-Fits = record {
  grows = omega arith;
  new_block = λ b e. rw ring-one_queue (ground arith);
  small = λ a e. omega arith;
  new_arena = λ a c e i. let at_first = rw ring-one_queue at i in ground arith;
}

abbrev two_queue : Queue Pool
two_queue = pushed_queue (push slab_allocator second_mallocs 8 one_queue)

two_queue-Holds : Holds slab_allocator two_queue (7 ∷ 8 ∷ [])
unfolding create palloc pool_create push
two_queue-Holds =
    Pushes-Holds (push-Pushes slab_allocator one_queue-Holds second_mallocs 8 one_queue-Fits) refl

push-Pushes_example :
    Pushes slab_allocator one_queue
      (7 ∷ [])
      8
      (if one_queue.empty_waiters == 0 then one_queue.signals else one_queue.signals + 1)
      (push slab_allocator second_mallocs 8 one_queue)
push-Pushes_example = push-Pushes slab_allocator one_queue-Holds second_mallocs 8 one_queue-Fits

trypop-TryPops_example : TryPops slab_allocator two_queue (7 ∷ 8 ∷ [])
trypop-TryPops_example = trypop-TryPops slab_allocator two_queue two_queue-Holds

-- Another thread that does a trypop.
abbrev trypop_there : Queue Pool → Option (Queue Pool)
trypop_there q = trypop slab_allocator q >>= λ (v, q'). some q'

trypop_there-KeepsQueue : KeepsQueue slab_allocator trypop_there
trypop_there-KeepsQueue q [] h =
    let runs = trypop-TryPops slab_allocator q h in
    (
      record q { held = false },
      [],
      rw runs,
      record { nodes = h.nodes; at = HoldsAt-unlock slab_allocator h.at },
    )
trypop_there-KeepsQueue q (w ∷ vs) h =
    let (q', runs, rest, _, _, _) = trypop-TryPops slab_allocator q h in (q', vs, rw runs, rest)

pop-PopsTo_example :
    PopsTo slab_allocator
      (trypop_there ∷ [])
      (record empty_queue { held = true })
      (pop slab_allocator (trypop_there ∷ []) empty_queue)
pop-PopsTo_example =
    pop-PopsTo slab_allocator (trypop_there ∷ []) (trypop_there-KeepsQueue, tt) empty_queue-Holds

-- ===== src/Examples/SlabPool.antt =====
-- A pool of two items of 8 bytes: each theorem on src/lib/frl_slab_pool.c at a concrete input.
use alter.Common.Tally.{tally}
use alter.Slab.LockFree.{
  Shared, outside, read_top, seize_top, take_top, reads_top, seizes_top, takes_top, start, after,
}
use alter.Slab.Sharing.{IsShared, found}
use alter.Slab.Races.{Turns-IsShared}
use alter.Common.{
  ℕ, ◌*◌, ◌%◌, ◌^◌, ◌<◌, true, false, Option, none, some, ◌≡◌, [], ◌∷◌, arith, refl, inr, has, inl,
  sym, ◌==◌, if◌then◌else◌,
}
use alter.Common.Chain.{nil, cons}
use alter.Slab.Defs.{Pool, Block, Mem, Mallocs, lock_with, pool_create}
use alter.Slab.Alloc.{palloc, Search, search_ring}
use alter.Slab.Invariant.{PoolIsValid, Live, ring}
use alter.Slab.Allocation.{Fits, HandsOut}
use alter.Slab.Palloc.{Returns, palloc-Returns, palloc-no_memory}
use alter.Slab.Fresh.{IsEmpty, pool_create-IsEmpty, pool_clear-IsEmpty}
use alter.Slab.Counts.{refs, unrefs, Released, unrefs-refs}
use alter.Slab.Checkup.{BlockIsSafe, Checks, pool_safe-Checks}
use alter.Slab.Search.{Ends, search_ring-Ends}
use alter.Slab.Loops.{pool_safe, pool_clear}
use alter.Slab.Release.{Freed, pfree-Freed}

-- The values of a run that ends.
some_injective : {x y : Pool} → some x ≡ some y → x ≡ y
some_injective e = cc

abbrev pub no_blocks : ℕ → Block
no_blocks b = record { stack_pointer = 0; next = 0; usage_stack = λ i. 0; capacity = 0; arena = 0 }

abbrev pub no_mem : ℕ → Mem
no_mem a = record { refcount = 0; occupied = false; block = 0; pointer = 0 }

abbrev pub first_mallocs : Mallocs
first_mallocs = record { block = some 100; usage_stack = some 200; arena = some 1000 }

abbrev pub no_mallocs : Mallocs
no_mallocs = record { block = none; usage_stack = none; arena = none }

abbrev pub empty_pool : Pool
empty_pool = elim (pool_create true first_mallocs no_blocks no_mem (λ a. 0) 2 8 lock_with) [
  | none ↦ record {
    block = 0;
    held = false;
    per_size = 0;
    max_capacity = 0;
    lock = lock_with;
    blocks = no_blocks;
    mem = no_mem;
    flag = λ a. 0;
    n_blocks = 0;
  }
  | some pool ↦ pool
]

created_pool :
    (pool : Pool) × (pool_create true first_mallocs no_blocks no_mem (λ a. 0) 2 8 lock_with
      ≡ some pool)
    × (pool.max_capacity ≡ 2)
    × (pool.per_size ≡ 8)
    × IsEmpty pool
created_pool =
    pool_create-IsEmpty no_blocks no_mem (λ a. 0) 2 8 100 200 1000 lock_with (omega arith)
      (omega arith)

pool_create-IsEmpty_example :
    (pool : Pool) × (pool_create true first_mallocs no_blocks no_mem (λ a. 0) 2 8 lock_with
      ≡ some pool)
    × (pool.max_capacity ≡ 2)
    × (pool.per_size ≡ 8)
    × IsEmpty pool
pool_create-IsEmpty_example =
    pool_create-IsEmpty no_blocks no_mem (λ a. 0) 2 8 100 200 1000 lock_with (omega arith)
      (omega arith)

pub empty_pool-PoolIsValid : PoolIsValid empty_pool
unfolding pool_create
empty_pool-PoolIsValid =
    let e : created_pool.0 ≡ empty_pool = some_injective (sym created_pool.1) in
    rw e at created_pool.4.valid

-- What a call of palloc that succeeds gives.
pub handed :
    {g : Mallocs} {pool : Pool} {run : Option (Option ℕ × Pool)} {p : ℕ} {q : Pool}
    → Returns g pool run
    → run ≡ some (some p, q)
    → HandsOut pool p q
handed {p} {q} r e =
    let at_pointer : r.pointer ≡ some p = ground (arith, r.runs, e) in
    let at_pool : r.pool' ≡ q = ground (arith, r.runs, e) in rw (at_pointer, at_pool) at r.outcome

pub no_mallocs-Fits : (pool : Pool) → 0 < pool.max_capacity * 2 % 2 ^ 32 → Fits pool no_mallocs
no_mallocs-Fits pool grows = record {
  grows = grows;
  new_block = λ b e. cc;
  small = λ a e. cc;
  new_arena = λ a c e i. cc;
}

-- The pool that a call of palloc leaves.
abbrev after_palloc : Pool → Pool
after_palloc pool = elim (palloc no_mallocs pool) [ none ↦ pool | some run ↦ run.1 ]

abbrev pub one_out : Pool
one_out = after_palloc empty_pool

abbrev pub two_out : Pool
two_out = after_palloc one_out

pub empty_pool-Fits : Fits empty_pool no_mallocs
unfolding pool_create
empty_pool-Fits = no_mallocs-Fits empty_pool (omega arith)

pub first_out : HandsOut empty_pool 1076 one_out
unfolding pool_create palloc
first_out = handed (palloc-Returns empty_pool-PoolIsValid no_mallocs empty_pool-Fits) refl

one_out-Fits : Fits one_out no_mallocs
unfolding pool_create palloc
one_out-Fits = no_mallocs-Fits one_out (omega arith)

pub second_out : HandsOut one_out 1032 two_out
unfolding pool_create palloc
second_out = handed (palloc-Returns first_out.keeps_valid no_mallocs one_out-Fits) refl

pub two_out-Fits : Fits two_out no_mallocs
unfolding pool_create palloc
two_out-Fits = no_mallocs-Fits two_out (omega arith)

two_out-full : (b : ℕ) → has b (ring two_out) ≡ true → (two_out.blocks b).stack_pointer ≡ 0
unfolding pool_create palloc ring
two_out-full b i = ground arith

pub second-Live : Live two_out 1032
second-Live = (second_out.added 1032).1 (inl refl)

pub first-Live : Live two_out 1076
first-Live = (second_out.added 1076).1 (inr ((first_out.added 1076).1 (inl refl)))

-- The pool is full, and `malloc` gives memory for a second block.
abbrev pub second_mallocs : Mallocs
second_mallocs = record { block = some 300; usage_stack = some 400; arena = some 2000 }

ring-two_out : ring two_out ≡ 100 ∷ []
unfolding pool_create palloc ring
ring-two_out = refl

pub two_out-grows : Fits two_out second_mallocs
unfolding pool_create palloc
two_out-grows = record {
  grows = omega arith;
  new_block = λ b e. rw ring-two_out (ground arith);
  small = λ a e. omega arith;
  new_arena = λ a c e i. let at_first = rw ring-two_out at i in ground arith;
}

palloc-Returns_example : Returns second_mallocs two_out (palloc second_mallocs two_out)
palloc-Returns_example = palloc-Returns second_out.keeps_valid second_mallocs two_out-grows

palloc-no_memory_example :
    (pool' : Pool) × (palloc no_mallocs two_out ≡ some (none, pool'))
    × ((g' : Mallocs) → palloc g' pool' ≡ none)
palloc-no_memory_example =
    palloc-no_memory second_out.keeps_valid no_mallocs two_out-Fits refl two_out-full

pfree-Freed_example : (pool' : Pool) × Freed 1032 two_out pool'
pfree-Freed_example = pfree-Freed second_out.keeps_valid 1032 second-Live

pool_clear-IsEmpty_example : (pool' : Pool) × (pool_clear two_out ≡ some pool') × IsEmpty pool'
pool_clear-IsEmpty_example = pool_clear-IsEmpty second_out.keeps_valid

search_ring-Ends_example :
    (s : Search) × (search_ring two_out.blocks 100 1 100 100 ≡ some s)
    × Ends two_out.blocks 100 (100 ∷ []) s
unfolding pool_create palloc
search_ring-Ends_example =
    search_ring-Ends two_out.blocks 100 1 100 (cons refl refl nil) (omega arith) (omega arith)

unrefs-refs_example : Released 3 3 1032 two_out (unrefs 3 1032 (refs 2 1032 two_out))
unfolding pool_create palloc
unrefs-refs_example =
    unrefs-refs second_out.keeps_valid second-Live refl 3 2 (omega arith) (omega arith)

pool_safe-Checks_example :
    Checks (BlockIsSafe two_out (λ b. false)) (ring two_out) (pool_safe two_out (λ b. false))
pool_safe-Checks_example = pool_safe-Checks two_out (λ b. false) second_out.keeps_valid

-- A block of two items, 50 and 60, and two threads without an item.
abbrev quiet_block : Shared
quiet_block = record {
  stack_pointer = some 2;
  usage_stack = λ k. if k == 1 then 50 else 60;
  live = [];
  stand = λ i. outside;
}

-- Both read the stack pointer; the second thread gets it.
abbrev raced : Shared
raced = take_top 1 1 (seize_top 0 1 (seize_top 1 1 (read_top 1 1 (read_top 0 1 quiet_block))))

Turns-IsShared_example : IsShared 2 (λ x. found 2 x quiet_block) raced
unfolding tally read_top seize_top take_top
Turns-IsShared_example = Turns-IsShared 2 {s = quiet_block} {s' = raced} refl (
    after
      (after
        (after
          (after (after start (reads_top 0 1 (omega arith) refl refl))
            (reads_top 1 1 (omega arith) refl refl))
          (seizes_top 1 1 (omega arith) refl))
        (seizes_top 0 1 (omega arith) refl))
      (takes_top 1 1 (omega arith) refl))

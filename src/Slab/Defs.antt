-- ===== src/Slab/Defs.antt =====
-- The slab pool's data and its creation: src/lib/frl_slab_pool.h and frl_slab_block_create,
-- frl_slab_pool_create of src/lib/frl_slab_pool.c. An address is a number and NULL is 0. A pool is
-- seen with the memory that it owns: `blocks`, `mem` and `flag` give what stands at an address.
use alter.Common.{
  ℕ, zero, suc, ◌+◌, ◌*◌, ◌%◌, ◌^◌, Bool, true, false, Option, none, some, update, ◌>>=◌,
}

-- The sizes on a 64-bit target.
abbrev pub sizeof_frl_mem_t : ℕ
sizeof_frl_mem_t = 32

abbrev pub sizeof_frl_mem_safe_t : ℕ
sizeof_frl_mem_safe_t = 4

-- `enum frl_lock_u`
pub data Lock : Type 0 where
  lock_with lock_free : Lock

-- `struct frl_mem_t`, the header in front of each item.
pub record Mem : Type 0 where
  pub refcount : ℕ
  pub occupied : Bool
  pub block : ℕ
  pub pointer : ℕ

-- `struct frl_slab_block_t`. The stack pointer is counted from `usage_stack`. There is one pool,
-- so the field `pool` is left out.
pub record Block : Type 0 where
  pub stack_pointer : ℕ
  pub next : ℕ
  pub usage_stack : ℕ → ℕ
  pub capacity : ℕ
  pub arena : ℕ

-- `struct frl_slab_pool_t` and its memory: the blocks and item headers by address, and the flags of
-- `struct frl_mem_safe_t`. `held` says that `mutex` is locked. `n_blocks` is not in the struct: it
-- counts the blocks created, and bounds the rounds of the loops over the ring.
pub record Pool : Type 0 where
  pub block : ℕ
  pub held : Bool
  pub per_size : ℕ
  pub max_capacity : ℕ
  pub lock : Lock
  pub blocks : ℕ → Block
  pub mem : ℕ → Mem
  pub flag : ℕ → ℕ
  pub n_blocks : ℕ

-- What the calls of `malloc` in frl_slab_block_create return, in their order.
pub record Mallocs : Type 0 where
  pub block : Option ℕ
  pub usage_stack : Option ℕ
  pub arena : Option ℕ

-- The distance of two items in an arena; and how far the item `i` is from the start, where `i` times the
-- distance is computed in uint32_t.
abbrev pub stride : ℕ → ℕ
stride per_size = per_size + sizeof_frl_mem_t + sizeof_frl_mem_safe_t

unfoldable pub item_offset : (step i : ℕ) → ℕ
item_offset step i = i * step % 2 ^ 32

-- The loop of frl_slab_block_create over `usage_stack`: all items are on the stack.
unfoldable pub fill_stack : (base step : ℕ) → ℕ → (ℕ → ℕ) → ℕ → ℕ
unfolding item_offset
fill_stack base step zero us = us
fill_stack base step (suc i) us =
    update (fill_stack base step i us) (suc i) (base + item_offset step i)

-- The same loop over the flags behind the items.
unfoldable pub fill_flags : (base per_size : ℕ) → ℕ → (ℕ → ℕ) → ℕ → ℕ
unfolding item_offset
fill_flags base per_size zero flag = flag
fill_flags base per_size (suc i) flag =
    update (fill_flags base per_size i flag)
      (base + item_offset (stride per_size) i + per_size + sizeof_frl_mem_t) i

-- What frl_slab_block_create writes once its three allocations have succeeded.
unfoldable pub init_block : Pool → (capacity b arena : ℕ) → Pool
unfolding fill_stack fill_flags
init_block pool capacity b arena = record pool {
  blocks = update pool.blocks b (record {
    stack_pointer = capacity;
    next = 0;
    usage_stack = fill_stack arena (stride pool.per_size) capacity (pool.blocks b).usage_stack;
    capacity = capacity;
    arena = arena;
  });
  flag = fill_flags arena pool.per_size capacity pool.flag;
}

-- `frl_slab_block_create`: the new block's address, or `none` for APR_ENOMEM.
unfoldable pub block_create : Mallocs → Pool → ℕ → Option (ℕ × Pool)
unfolding init_block
block_create g pool capacity = g.block >>= λ b.
    g.usage_stack >>= λ _. g.arena >>= λ arena. some (b, init_block pool capacity b arena)

-- `frl_slab_pool_create`, in memory with the contents `blocks`, `mem` and `flag`. The first
-- argument says whether the `malloc` of the pool succeeds.
unfoldable pub pool_create :
    Bool
    → Mallocs
    → (ℕ → Block)
    → (ℕ → Mem)
    → (ℕ → ℕ)
    → (capacity per_size : ℕ) → Lock
    → Option Pool
unfolding block_create
pool_create false g blocks mem flag capacity per_size lock = none
pool_create true g blocks mem flag capacity per_size lock =
    block_create g
      (record {
        block = 0;
        held = false;
        per_size = per_size;
        max_capacity = capacity;
        lock = lock;
        blocks = blocks;
        mem = mem;
        flag = flag;
        n_blocks = 1;
      })
      capacity
    >>= λ (b, pool). some (record pool {
      block = b;
      blocks = update pool.blocks b (record (pool.blocks b) { next = b });
    })

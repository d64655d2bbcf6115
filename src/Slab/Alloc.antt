-- ===== src/Slab/Alloc.antt =====
-- Allocation from a pool with a lock: frl_slab_palloc_lock_with, frl_slab_pfree_lock_with and
-- frl_slab_pfree of src/lib/frl_slab_pool.c. `none` for the whole call means that it does not return
-- or has no defined behaviour: a mutex that is locked already, a failed assertion, an empty stack.
use alter.Common.{
  ℕ, zero, suc, ◌+◌, ◌-◌, ◌*◌, ◌%◌, ◌^◌, true, false, Option, none, some, ltb, ◌==◌, if◌then◌else◌,
  update, ◌>>=◌,
}
use alter.Slab.Defs.{Block, Pool, Mallocs, sizeof_frl_mem_t, block_create}

-- `apr_thread_mutex_lock` of a mutex that does not nest, with one thread at work.
abbrev pub mutex_lock : Pool → Option Pool
mutex_lock pool = if pool.held then none else some (record pool { held = true })

abbrev pub mutex_unlock : Pool → Pool
mutex_unlock pool = record pool { held = false }

-- How the walk over the ring ends: at a block with a free item, or after all blocks, with the last.
pub data Search : Type 0 where
  found : (block : ℕ) → Search
  full : (last_block : ℕ) → Search

-- The `do` loop of frl_slab_palloc_lock_with, from `pool->block`; `none` when the fuel runs out.
unfoldable pub search_ring : (ℕ → Block) → (start : ℕ) → ℕ → (last_block block : ℕ) → Option Search
search_ring blocks start zero last_block block = none
search_ring blocks start (suc k) last_block block =
    let next = (blocks block).next in
    let last' = if next == start then block else last_block in
    let rest = search_ring blocks start k last' next in
    if ltb 0 (blocks block).stack_pointer
    then some (found block)
    else if next == start
    then some (full last')
    else rest

-- The item on top of a block's stack is taken and its header written.
unfoldable pub take_item : Pool → ℕ → ℕ × Pool
take_item pool b =
    let block = pool.blocks b in
    let item = block.usage_stack block.stack_pointer in
    (
      item + sizeof_frl_mem_t,
      record pool {
        blocks = update pool.blocks b (record block { stack_pointer = block.stack_pointer - 1 });
        mem = update pool.mem item (record {
          refcount = 1;
          occupied = true;
          block = b;
          pointer = item + sizeof_frl_mem_t;
        });
      },
    )

-- `block->next = last_block->next; last_block->next = block; max_capacity *= 2`, and the block is
-- the pool's current one.
unfoldable pub link_block : Pool → (b last_block : ℕ) → Pool
link_block pool b last_block =
    let blocks =
      update pool.blocks b (record (pool.blocks b) { next = (pool.blocks last_block).next }) in
    record pool {
      blocks = update blocks last_block (record (blocks last_block) { next = b });
      max_capacity = pool.max_capacity * 2 % 2 ^ 32;
      block = b;
      n_blocks = pool.n_blocks + 1;
    }

-- The end of frl_slab_palloc_lock_with: a new block, twice as large. When there is no memory for
-- it the function returns NULL, and does not unlock the mutex.
unfoldable pub grow : Mallocs → Pool → ℕ → Option (Option ℕ × Pool)
unfolding block_create take_item link_block
grow g pool last_block = elim (block_create g pool (pool.max_capacity * 2 % 2 ^ 32)) [
  | none ↦ some (none, pool)
  | some (b, pool') ↦
      if ltb 0 (pool'.blocks b).stack_pointer
      then some
          (some (take_item pool' b).0, mutex_unlock (link_block (take_item pool' b).1 b last_block))
      else none
]

unfoldable pub finish : Mallocs → Pool → Search → Option (Option ℕ × Pool)
unfolding grow take_item
finish g pool (found b) =
    some (some (take_item pool b).0, mutex_unlock (record (take_item pool b).1 { block = b }))
finish g pool (full last_block) = grow g pool last_block

-- `frl_slab_palloc_lock_with`
unfoldable pub palloc : Mallocs → Pool → Option (Option ℕ × Pool)
unfolding search_ring finish
palloc g pool = mutex_lock pool >>= λ pool.
    search_ring pool.blocks pool.block pool.n_blocks pool.block pool.block >>= finish g pool

-- `frl_slab_pfree_lock_with`
unfoldable pub pfree_lock_with : ℕ → Pool → Option Pool
pfree_lock_with pointer pool =
    let item = pointer - sizeof_frl_mem_t in
    let b = (pool.mem item).block in
    let block = pool.blocks b in
    mutex_lock pool >>= λ pool. some (
      mutex_unlock (record pool {
        mem = update pool.mem item (record (pool.mem item) { occupied = false });
        blocks = update pool.blocks b (record block {
          stack_pointer = block.stack_pointer + 1;
          usage_stack = update block.usage_stack (block.stack_pointer + 1) item;
        });
      }))

-- `frl_slab_pfree` of a pool with a lock: the item must be in use.
unfoldable pub pfree : ℕ → Pool → Option Pool
unfolding pfree_lock_with
pfree pointer pool =
    if (pool.mem (pointer - sizeof_frl_mem_t)).occupied then pfree_lock_with pointer pool else none

-- ===== src/Slab/Loops.antt =====
-- The loops over all blocks of a pool: frl_slab_pool_clear, frl_slab_pool_destroy,
-- frl_slab_pool_safe and frl_slab_pool_stat of src/lib/frl_slab_pool.c. Their result is `none` when
-- the fuel, one round for each block, runs out.
use alter.Common.{
  ℕ, zero, suc, ◌+◌, ◌-◌, ◌%◌, ◌^◌, Bool, false, Option, none, some, List, [], ◌∷◌, ◌++◌, ltb, leb,
  ◌==◌, if◌then◌else◌, update, ◌>>=◌, ◌||◌, not,
}
use alter.Slab.Defs.{Block, Pool, sizeof_frl_mem_t, stride, item_offset, fill_stack, fill_flags}
use alter.Slab.Alloc.{mutex_lock, mutex_unlock}

-- `do { body; block = block->next; } while (block != start);`
unfoldable pub ring_loop {ℓ} :
    {S : Type ℓ} → (S → ℕ → ℕ) → (ℕ → S → S) → (start : ℕ) → ℕ → (block : ℕ) → S → Option S
ring_loop next body start zero b s = none
ring_loop next body start (suc k) b s =
    let s' = body b s in
    let rest = ring_loop next body start k (next s' b) s' in
    if next s' b == start then some s' else rest

-- The body of the loop of frl_slab_pool_clear.
unfoldable pub clear_block : ℕ → Pool → Pool
clear_block b pool =
    let block = pool.blocks b in
    record pool {
      blocks = update pool.blocks b (record block {
        usage_stack =
            fill_stack block.arena (stride pool.per_size) block.capacity block.usage_stack;
        stack_pointer = block.capacity;
      });
      flag = fill_flags block.arena pool.per_size block.capacity pool.flag;
    }

-- `frl_slab_pool_clear`
unfoldable pub pool_clear : Pool → Option Pool
unfolding ring_loop clear_block
pool_clear pool = mutex_lock pool >>= λ pool.
    ring_loop (λ pool b. (pool.blocks b).next) clear_block pool.block pool.n_blocks pool.block pool
    >>= λ pool. some (mutex_unlock pool)

-- `frl_slab_pool_destroy`: the blocks that are handed to frl_slab_block_destory, in order. The
-- successor of a block is read before that.
unfoldable pub pool_destroy : Pool → Option (List ℕ)
unfolding ring_loop
pool_destroy pool =
    ring_loop (λ _ b. (pool.blocks b).next) (λ b gone. gone ++ b ∷ []) pool.block pool.n_blocks
      pool.block []

-- `struct frl_mem_stat_t`
pub record Stat : Type 0 where
  pub per_size : ℕ
  pub capacity : ℕ
  pub usage : ℕ
  pub block_size : ℕ

-- The body of the loop of frl_slab_pool_stat. `usage` has 64 bits, the others 32.
unfoldable pub stat_block : Pool → ℕ → Stat → Stat
stat_block pool b stat =
    let block = pool.blocks b in
    record stat {
      block_size = (stat.block_size + 1) % 2 ^ 32;
      capacity = (stat.capacity + block.capacity) % 2 ^ 32;
      usage = (stat.usage + (block.capacity + 2 ^ 64 - block.stack_pointer)) % 2 ^ 64;
    }

-- `frl_slab_pool_stat`
unfoldable pub pool_stat : Pool → Option Stat
unfolding ring_loop stat_block
pool_stat pool =
    ring_loop (λ _ b. (pool.blocks b).next) (stat_block pool) pool.block pool.n_blocks pool.block
      (record { per_size = pool.per_size; capacity = 0; usage = 0; block_size = 0 })

-- What frl_slab_pool_safe returns.
pub data Safety : Type 0 where
  success memleak stackbusy stackerr : Safety

-- `for (i = 0; i < n; i++) if (bad(i)) return`: whether some round finds `bad`.
unfoldable pub any_below : (ℕ → Bool) → ℕ → Bool
any_below bad zero = false
any_below bad (suc n) = any_below bad n || bad n

-- The flag behind item `i` is not `i`.
abbrev pub flag_broken : Pool → Block → ℕ → Bool
flag_broken pool block i = not (
    pool.flag
      (block.arena + item_offset (stride pool.per_size) i + pool.per_size + sizeof_frl_mem_t)
    == i)

-- Entry `i + 1` of the stack lies outside the arena.
abbrev pub entry_outside : Pool → Block → ℕ → Bool
entry_outside pool block i =
    ltb (block.usage_stack (i + 1)) block.arena
    || leb (block.arena + item_offset (stride pool.per_size) block.capacity)
        (block.usage_stack (i + 1))

-- The loop of frl_slab_pool_safe. `busy` says of which blocks the stack pointer reads as
-- DCAS_BUSY_VAL, while another thread is in a lock-free exchange.
unfoldable pub safe_loop : Pool → (ℕ → Bool) → ℕ → ℕ → Option Safety
unfolding any_below
safe_loop pool busy zero b = none
safe_loop pool busy (suc k) b =
    let block = pool.blocks b in
    let rest = safe_loop pool busy k block.next in
    if any_below (flag_broken pool block) block.capacity
    then some memleak
    else if busy b
    then some stackbusy
    else if any_below (entry_outside pool block) block.capacity
    then some stackerr
    else if block.next == pool.block
    then some success
    else rest

-- `frl_slab_pool_safe`
unfoldable pub pool_safe : Pool → (ℕ → Bool) → Option Safety
unfolding safe_loop
pool_safe pool busy = safe_loop pool busy pool.n_blocks pool.block

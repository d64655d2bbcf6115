-- ===== src/Slab/Sweep.antt =====
-- What the loops over all blocks compute: frl_slab_pool_destroy, frl_slab_pool_stat and
-- frl_slab_pool_clear.
use alter.Common.{
  ℕ, ◌+◌, ◌-◌, ◌%◌, ◌^◌, ◌≤◌, ◌<◌, true, some, List, [], ◌∷◌, ◌++◌, ◌≡◌, ◌∙◌, refl, arith, foldl,
  has, length, ap, length-le_of_count,
}
use mathlib.Core.List.{append_assoc, append-nil}
use alter.Slab.Defs.{Pool, stride}
use alter.Slab.Loops.{pool_destroy, pool_stat, Stat, stat_block}
use alter.Slab.Rounds.{ring_loop-foldl}
use alter.Slab.Invariant.{
  PoolIsValid, ring, BlockIsValid, free_items, all_items, length-items, length-stack_items,
}

foldl-snoc : (xs ys : List ℕ) → foldl (λ t b. t ++ b ∷ []) ys xs ≡ ys ++ xs
foldl-snoc [] ys = rw append-nil
foldl-snoc (x ∷ xs) ys = rw (foldl-snoc xs (ys ++ x ∷ []), append_assoc)

-- frl_slab_pool_destroy of a well-formed pool returns, and destroys the blocks of the ring, in
-- its order.
pub pool_destroy-ring : {pool : Pool} → PoolIsValid pool → pool_destroy pool ≡ some (ring pool)
unfolding pool_destroy
pool_destroy-ring {pool} v =
    ring_loop-foldl (λ _ b. (pool.blocks b).next) (λ b gone. gone ++ b ∷ []) v (λ s b a. refl) []
      (λ a. refl)
    ∙ ap some (foldl-snoc (ring pool) [])

-- Sums over blocks.
unfoldable pub total_capacity : Pool → List ℕ → ℕ
total_capacity pool [] = 0
total_capacity pool (b ∷ bs) = (pool.blocks b).capacity + total_capacity pool bs

unfoldable pub total_used : Pool → List ℕ → ℕ
total_used pool [] = 0
total_used pool (b ∷ bs) =
    ((pool.blocks b).capacity - (pool.blocks b).stack_pointer) + total_used pool bs

-- A stack holds at most as many items as the block has.
pub stack_pointer-le :
    {pool : Pool} {b : ℕ}
    → BlockIsValid pool b
    → (pool.blocks b).stack_pointer ≤ (pool.blocks b).capacity
stack_pointer-le {pool} {b} v =
    let block = pool.blocks b in
    omega (
      arith,
      length-le_of_count (free_items block) (all_items pool.per_size block) v.counted,
      length-items block.arena (stride pool.per_size) block.capacity,
      length-stack_items block.usage_stack block.stack_pointer,
    )

foldl-stat :
    (pool : Pool) (xs : List ℕ) (s : Stat)
    → ((b : ℕ) → has b xs ≡ true → (pool.blocks b).stack_pointer ≤ (pool.blocks b).capacity)
    → s.capacity < 2 ^ 32
    → s.block_size < 2 ^ 32
    → s.usage < 2 ^ 64
    → foldl (λ t b. stat_block pool b t) s xs ≡ record {
      per_size = s.per_size;
      capacity = (s.capacity + total_capacity pool xs) % 2 ^ 32;
      usage = (s.usage + total_used pool xs) % 2 ^ 64;
      block_size = (s.block_size + length xs) % 2 ^ 32;
    }
unfolding stat_block total_capacity total_used
foldl-stat pool [] s le c n u = ground arith
foldl-stat pool (b ∷ bs) s le c n u =
    foldl-stat pool bs (stat_block pool b s) (λ d i. le d (ground (arith, i))) (omega arith)
      (omega arith) (omega arith)
    ∙ ground (arith, le b)

-- frl_slab_pool_stat of a well-formed pool gives the sum of the capacities, the number of items
-- on no stack and the number of blocks, each modulo the width of its field.
pub pool_stat_lem :
    {pool : Pool}
    → PoolIsValid pool
    → pool_stat pool
      ≡ some (record {
        per_size = pool.per_size;
        capacity = total_capacity pool (ring pool) % 2 ^ 32;
        usage = total_used pool (ring pool) % 2 ^ 64;
        block_size = pool.n_blocks % 2 ^ 32;
      })
unfolding pool_stat
pool_stat_lem {pool} v =
    let start : Stat = record {
      per_size = pool.per_size;
      capacity = 0;
      usage = 0;
      block_size = 0;
    } in
    ring_loop-foldl (λ _ b. (pool.blocks b).next) (stat_block pool) v (λ s b a. refl) start
      (λ a. refl)
    ∙ ap some (
        foldl-stat pool (ring pool) start (λ b i. stack_pointer-le (v.stocked.valid b i))
          (omega arith) (omega arith) (omega arith)
        ∙ ground (arith, v.size))

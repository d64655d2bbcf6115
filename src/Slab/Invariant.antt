-- ===== src/Slab/Invariant.antt =====
-- What makes a pool well formed: the ring of blocks, the items that each block may hand out, and
-- the items that are handed out.
use alter.Common.{
  ℕ, zero, suc, ◌+◌, ◌-◌, ◌*◌, ◌%◌, ◌^◌, ◌≤◌, ◌<◌, true, false, List, [], ◌∷◌, ◌==◌, if◌then◌else◌,
  update, ◌≡◌, ◌≢◌, ◌⊎◌, arith, count, has, length, refl,
}
use alter.Common.Chain.{Chain, walk}
use alter.Slab.Defs.{Block, Pool, sizeof_frl_mem_t, stride, item_offset, fill_stack}

-- The addresses of the items of an arena, the last one first.
unfoldable pub items : (base step : ℕ) → ℕ → List ℕ
items base step zero = []
items base step (suc n) = (base + n * step) ∷ items base step n

-- The items on a stack, the top first.
unfoldable pub stack_items : (ℕ → ℕ) → ℕ → List ℕ
stack_items us zero = []
stack_items us (suc n) = us (suc n) ∷ stack_items us n

abbrev pub free_items : Block → List ℕ
free_items b = stack_items b.usage_stack b.stack_pointer

abbrev pub all_items : ℕ → Block → List ℕ
all_items per_size b = items b.arena (stride per_size) b.capacity

-- The item `a` of a block is handed out.
abbrev pub IsUsed : ℕ → Block → ℕ → Type 0
IsUsed per_size b a = count a (free_items b) < count a (all_items per_size b)

-- The ring of the pool's blocks, from the current one.
unfoldable pub ring : Pool → List ℕ
unfolding walk
ring pool = walk (λ a. (pool.blocks a).next) pool.n_blocks pool.block

-- The regions of two arenas do not overlap.
abbrev pub Apart : ℕ → Block → Block → Type 0
Apart per_size b c =
    (b.arena + b.capacity * stride per_size ≤ c.arena)
    ⊎ (c.arena + c.capacity * stride per_size ≤ b.arena)

-- A block's stack holds items of its arena, none twice, and the headers of the others lead here. The
-- arena is smaller than 4 GiB, so that the computations in uint32_t do not wrap.
pub record BlockIsValid (pool : Pool) (b : ℕ) : Type 0 where
  pub counted :
      (a : ℕ)
      → count a (free_items (pool.blocks b)) ≤ count a (all_items pool.per_size (pool.blocks b))
  pub nonempty : 0 < (pool.blocks b).capacity
  pub small : (pool.blocks b).capacity * stride pool.per_size < 2 ^ 32
  pub header :
      (a : ℕ)
      → IsUsed pool.per_size (pool.blocks b) a
      → ((pool.mem a).block ≡ b) × ((pool.mem a).occupied ≡ true)

-- The blocks at the addresses `xs` are well formed, and share no memory.
pub record Stocked (pool : Pool) (xs : List ℕ) : Type 0 where
  pub valid : (b : ℕ) → has b xs ≡ true → BlockIsValid pool b
  pub apart :
      (b c : ℕ)
      → has b xs ≡ true
      → has c xs ≡ true
      → b ≢ c
      → Apart pool.per_size (pool.blocks b) (pool.blocks c)

-- A block of `xs` has handed out the item `a`.
pub record Used (pool : Pool) (xs : List ℕ) (a : ℕ) : Type 0 where
  pub block : ℕ
  pub in_ring : has block xs ≡ true
  pub used : IsUsed pool.per_size (pool.blocks block) a

-- A well-formed pool, no operation being under way: `xs` is the ring of blocks.
pub record RingIsValid (pool : Pool) (xs : List ℕ) : Type 0 where
  pub unlocked : pool.held ≡ false
  pub chain : Chain (λ a. (pool.blocks a).next) pool.block pool.block xs
  pub size : length xs ≡ pool.n_blocks
  pub some_block : 0 < pool.n_blocks
  pub stocked : Stocked pool xs

abbrev pub PoolIsValid : Pool → Type 0
PoolIsValid pool = RingIsValid pool (ring pool)

-- The pointer `p` has been handed out and not been given back.
pub record Live (pool : Pool) (p : ℕ) : Type 0 where
  pub above : sizeof_frl_mem_t ≤ p
  pub used : Used pool (ring pool) (p - sizeof_frl_mem_t)

pub count-items_bounds :
    (base step : ℕ) (n a : ℕ)
    → 0 < count a (items base step n)
    → (base ≤ a) × (a + step ≤ base + n * step)
unfolding items
count-items_bounds base step zero a h = absurd (omega arith)
count-items_bounds base step (suc n) a h = ground (arith, count-items_bounds base step n a)

-- Items lie in the arena, one after the other, so no address is there twice.
pub count-items_le : (base step : ℕ) (n a : ℕ) → 0 < step → count a (items base step n) ≤ 1
unfolding items
count-items_le base step zero a h = omega arith
count-items_le base step (suc n) a h =
    ground (arith, count-items_le base step n a h, count-items_bounds base step n a)

pub length-items : (base step n : ℕ) → length (items base step n) ≡ n
unfolding items
length-items base step zero = refl
length-items base step (suc n) = omega (arith, length-items base step n)

pub length-stack_items : (us : ℕ → ℕ) (n : ℕ) → length (stack_items us n) ≡ n
unfolding stack_items
length-stack_items us zero = refl
length-stack_items us (suc n) = omega (arith, length-stack_items us n)

-- A write above the top of the stack.
pub stack_items-update :
    (us : ℕ → ℕ) (n i v : ℕ) → n < i → stack_items (update us i v) n ≡ stack_items us n
unfolding stack_items
stack_items-update us zero i v h = refl
stack_items-update us (suc n) i v h = ground (arith, stack_items-update us n i v)

-- The stack that a new block gets holds every item.
pub stack_items-fill_stack :
    (base step n : ℕ) (us : ℕ → ℕ)
    → n * step < 2 ^ 32
    → stack_items (fill_stack base step n us) n ≡ items base step n
unfolding stack_items fill_stack items item_offset
stack_items-fill_stack base step zero us small = refl
stack_items-fill_stack base step (suc n) us small = ground (
  arith,
  small,
  stack_items-update (fill_stack base step n us) n (suc n) (base + n * step % 2 ^ 32),
  stack_items-fill_stack base step n us (omega (arith, small)),
)

-- No item belongs to two arenas.
pub Apart-count :
    (per_size : ℕ) (b c : Block) (a : ℕ)
    → Apart per_size b c
    → 0 < count a (all_items per_size b)
    → count a (all_items per_size c) ≡ 0
Apart-count per_size b c a h m = ground (
  arith,
  count-items_bounds b.arena (stride per_size) b.capacity a,
  count-items_bounds c.arena (stride per_size) c.capacity a,
)

-- The top of a stack, and what is below it.
pub count-pop :
    (us : ℕ → ℕ) (n a : ℕ)
    → 0 < n
    → count a (stack_items us n) ≡ (if a == us n then 1 else 0) + count a (stack_items us (n - 1))
unfolding stack_items
count-pop us zero a h = absurd (omega arith)
count-pop us (suc n) a h = let e : suc n - 1 ≡ n = omega arith in rw e

pub count-push :
    (us : ℕ → ℕ) (n v a : ℕ)
    → count a (stack_items (update us (n + 1) v) (n + 1))
      ≡ (if a == v then 1 else 0) + count a (stack_items us n)
unfolding stack_items
count-push us n v a =
    let e : n + 1 ≡ suc n = omega arith in rw e (ground (arith, stack_items-update us n (suc n) v))

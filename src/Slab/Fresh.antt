-- ===== src/Slab/Fresh.antt =====
-- A pool that has just been created or cleared is well formed and hands out nothing.
use alter.Common.{
  ℕ, ◌-◌, ◌*◌, ◌^◌, ◌<◌, true, some, List, [], ◌∷◌, ◌++◌, ◌==◌, ◌≡◌, ◌∙◌, refl, arith, foldl, has,
  count, Bool-cases, inl, inr, ap, sym, has-append,
}
use mathlib.Core.List.{append-nil, append_assoc}
use native.Mathlib.Nat.{le_of_eq}
use alter.Common.Chain
use alter.Common.Chain.{Chain, nil, cons}
use alter.Slab.Defs.{Block, Mem, Lock, Pool, stride, sizeof_frl_mem_t, pool_create}
use alter.Slab.Alloc.{mutex_unlock}
use alter.Slab.Loops.{clear_block, pool_clear}
use alter.Slab.Rounds.{ring_loop-foldl}
use alter.Slab.Invariant.{
  PoolIsValid, ring, RingIsValid, Live, free_items, all_items, stack_items-fill_stack,
}
use alter.Slab.Release.{PoolIsValid-of_ring, RingIsValid-ring}

-- Every item of the block is on its stack.
abbrev IsFull : ℕ → Block → Type 0
IsFull per_size b = (a : ℕ) → count a (free_items b) ≡ count a (all_items per_size b)

-- What the loop of frl_slab_pool_clear has done after the blocks `xs`.
record Cleared (pool q : Pool) (xs : List ℕ) : Type 0 where
  per_size : q.per_size ≡ pool.per_size
  n_blocks : q.n_blocks ≡ pool.n_blocks
  block : q.block ≡ pool.block
  next : (b : ℕ) → (q.blocks b).next ≡ (pool.blocks b).next
  capacity : (b : ℕ) → (q.blocks b).capacity ≡ (pool.blocks b).capacity
  arena : (b : ℕ) → (q.blocks b).arena ≡ (pool.blocks b).arena
  all_free : (b : ℕ) → has b xs ≡ true → IsFull q.per_size (q.blocks b)

clear_block-Cleared :
    {pool q : Pool} {done : List ℕ} (x : ℕ)
    → (pool.blocks x).capacity * stride pool.per_size < 2 ^ 32
    → Cleared pool q done
    → Cleared pool (clear_block x q) (done ++ x ∷ [])
unfolding clear_block
clear_block-Cleared {q} {done} x small c = record {
  per_size = c.per_size;
  n_blocks = c.n_blocks;
  block = c.block;
  next = λ b. ground (arith, c.next b);
  capacity = λ b. ground (arith, c.capacity b);
  arena = λ b. ground (arith, c.arena b);
  all_free = λ b i a. elim (Bool-cases (b == x)) [
    | inl e ↦
        let block = q.blocks x in
        rw e (
          ap (count a) (
            stack_items-fill_stack block.arena (stride q.per_size) block.capacity block.usage_stack
              (rw (c.capacity x, c.per_size) small)))
    | inr e ↦ rw e (c.all_free b (ground (arith, has-append b done (x ∷ []))) a)
  ];
}

foldl-clear :
    (xs : List ℕ) (pool q : Pool) (done : List ℕ)
    → ((b : ℕ) → has b xs ≡ true → (pool.blocks b).capacity * stride pool.per_size < 2 ^ 32)
    → Cleared pool q done
    → Cleared pool (foldl (λ t b. clear_block b t) q xs) (done ++ xs)
foldl-clear [] pool q done small c = rw append-nil c
foldl-clear (x ∷ xs) pool q done small c = rw append_assoc at (
    foldl-clear xs pool (clear_block x q) (done ++ x ∷ []) (λ b i. small b (ground (arith, i)))
      (clear_block-Cleared x (small x (ground arith)) c))

-- A pool all of whose items are on the stacks.
pub record IsEmpty (pool : Pool) : Type 0 where
  pub valid : PoolIsValid pool
  pub none_live : (p : ℕ) → ¬ Live pool p

all_free-IsEmpty :
    {pool : Pool} {xs : List ℕ}
    → RingIsValid pool xs
    → ((b : ℕ) → has b xs ≡ true → IsFull pool.per_size (pool.blocks b))
    → IsEmpty pool
all_free-IsEmpty {pool} r full = record {
  valid = PoolIsValid-of_ring r;
  none_live = λ p l.
      let u = rw (RingIsValid-ring r) at l.used in
      ground (arith, u.used, full u.block u.in_ring (p - sizeof_frl_mem_t));
}

Cleared-IsEmpty :
    {pool q : Pool} → PoolIsValid pool → Cleared pool q (ring pool) → IsEmpty (mutex_unlock q)
Cleared-IsEmpty {pool} {q} v c =
    all_free-IsEmpty {xs = ring pool}
      (record {
        unlocked = refl;
        chain = rw c.block (Chain.frame (λ a. (q.blocks a).next) v.chain λ a i. c.next a);
        size = v.size ∙ sym c.n_blocks;
        some_block = rw c.n_blocks v.some_block;
        stocked = record {
          valid = λ b i. record {
            counted = λ a. le_of_eq (c.all_free b i a);
            nonempty = rw (c.capacity b) (v.stocked.valid b i).nonempty;
            small = rw (c.capacity b, c.per_size) (v.stocked.valid b i).small;
            header = λ a u. absurd (ground (arith, c.all_free b i a, u));
          };
          apart = λ b d i j ne.
              rw (c.capacity b, c.capacity d, c.arena b, c.arena d, c.per_size)
                (v.stocked.apart b d i j ne);
        };
      })
      c.all_free

-- frl_slab_pool_clear of a well-formed pool returns, and the pool is well formed with no item
-- handed out.
pub pool_clear-IsEmpty :
    {pool : Pool}
    → PoolIsValid pool
    → (pool' : Pool) × (pool_clear pool ≡ some pool') × IsEmpty pool'
unfolding pool_clear
pool_clear-IsEmpty {pool} v =
    let locked : Pool = record pool { held = true } in
    let loop =
      ring_loop-foldl (λ (q : Pool) b. (q.blocks b).next) clear_block v (λ s b a. ground arith)
        locked (λ a. refl) in
    let all =
      foldl-clear (ring pool) pool locked [] (λ b i. (v.stocked.valid b i).small)
        (record {
          per_size = refl;
          n_blocks = refl;
          block = refl;
          next = λ b. refl;
          capacity = λ b. refl;
          arena = λ b. refl;
          all_free = λ b i. cc;
        }) in
    (
      mutex_unlock (foldl (λ t b. clear_block b t) locked (ring pool)),
      simp (v.unlocked, loop),
      Cleared-IsEmpty v all,
    )

-- frl_slab_pool_create with a capacity above 0, an arena of less than 4 GiB and memory for its
-- allocations gives a well-formed pool of the sizes asked for, with no item handed out.
pub pool_create-IsEmpty :
    (blocks : ℕ → Block) (mem : ℕ → Mem) (flag : ℕ → ℕ) (capacity per_size b us arena : ℕ)
    (lock : Lock)
    → 0 < capacity
    → capacity * stride per_size < 2 ^ 32
    → (pool : Pool) × (pool_create true
          (record { block = some b; usage_stack = some us; arena = some arena })
          blocks
          mem
          flag
          capacity
          per_size
          lock
        ≡ some pool)
      × (pool.max_capacity ≡ capacity)
      × (pool.per_size ≡ per_size)
      × IsEmpty pool
unfolding pool_create
pool_create-IsEmpty blocks mem flag capacity per_size b us arena lock pos small =
    let full =
      stack_items-fill_stack arena (stride per_size) capacity (blocks b).usage_stack small in
    (
      _,
      refl,
      refl,
      refl,
      all_free-IsEmpty {xs = b ∷ []}
          (record {
            unlocked = refl;
            chain = cons (ground arith) refl nil;
            size = refl;
            some_block = omega arith;
            stocked = record {
              valid = λ c i. record {
                counted = λ a. ground (arith, full);
                nonempty = ground arith;
                small = ground (arith, small);
                header = λ a u. absurd (ground (arith, full, u));
              };
              apart = λ c d i j ne. absurd (ground arith);
            };
          })
          (λ c i a. ground (arith, full)),
    )

-- ===== src/Slab/Palloc.antt =====
-- What frl_slab_palloc_lock_with does on every path.
use alter.Common.{
  ℕ, ◌+◌, ◌*◌, ◌%◌, ◌^◌, true, Option, none, some, ltb, ◌≡◌, ◌⊎◌, inl, inr, arith, has, refl,
  Option-cases, has-append, ◌∷◌,
}
use alter.Slab.Defs.{Pool, Mallocs, sizeof_frl_mem_t, block_create, init_block}
use alter.Slab.Alloc.{
  palloc, take_item, Search, found, full, finish, grow, search_ring, mutex_unlock,
}
use alter.Slab.Invariant.{PoolIsValid, ring}
use alter.Slab.Search.{Ends, Exhausted, search_ring-Ends}
use alter.Slab.Stock.{top}
use alter.Slab.Allocation.{
  Fits, HandsOut, taken, item, linked, found-HandsOut, linked-HandsOut, room,
}

-- No block has a free item and `malloc` has failed: the pool is as before, but its mutex is
-- still locked.
pub record NoMemory (g : Mallocs) (pool pool' : Pool) : Type 0 where
  pub exhausted : (b : ℕ) → has b (ring pool) ≡ true → (pool.blocks b).stack_pointer ≡ 0
  pub failed : (g.block ≡ none) ⊎ ((g.usage_stack ≡ none) ⊎ (g.arena ≡ none))
  pub left_locked : pool' ≡ record pool { held = true }

abbrev pub Outcome : Mallocs → Pool → Option ℕ → Pool → Type 0
Outcome g pool none pool' = NoMemory g pool pool'
Outcome g pool (some p) pool' = HandsOut pool p pool'

-- The end of a call that returns.
pub record Returns (g : Mallocs) (pool : Pool) (run : Option (Option ℕ × Pool)) : Type 0 where
  pub pointer : Option ℕ
  pub pool' : Pool
  pub runs : run ≡ some (pointer, pool')
  pub outcome : Outcome g pool pointer pool'

module _ {pool : Pool} (v : PoolIsValid pool) (g : Mallocs) (fits : Fits pool g) where
  abbrev held_pool : Pool
  held_pool = record pool { held = true }

  abbrev capacity : ℕ
  capacity = pool.max_capacity * 2 % 2 ^ 32

  failed-Returns :
      (last : ℕ)
      → Exhausted pool.blocks pool.block (ring pool) last
      → (g.block ≡ none) ⊎ ((g.usage_stack ≡ none) ⊎ (g.arena ≡ none))
      → grow g held_pool last ≡ some (none, held_pool)
      → Returns g pool (grow g held_pool last)
  failed-Returns last end why e = record {
    pointer = none;
    pool' = held_pool;
    runs = e;
    outcome = record { exhausted = end.empty; failed = why; left_locked = refl };
  }

  grow-Returns :
      (last : ℕ)
      → Exhausted pool.blocks pool.block (ring pool) last
      → Returns g pool (grow g held_pool last)
  grow-Returns last end = elim (Option-cases g.block) [
    | inl e ↦ failed-Returns last end (inl e) (unfold grow in rw e)
    | inr (b, e) ↦ elim (Option-cases g.usage_stack) [
      | inl e' ↦ failed-Returns last end (inr (inl e')) (unfold grow in rw (e, e'))
      | inr (us, e') ↦ elim (Option-cases g.arena) [
        | inl e'' ↦ failed-Returns last end (inr (inr e'')) (unfold grow in rw (e, e', e''))
        | inr (a, e'') ↦
            let new = fits.new_block b e in
            let away = λ (c : ℕ). fits.new_arena a c e'' in
            let filled : ltb 0 ((init_block held_pool capacity b a).blocks b).stack_pointer ≡ true =
              ground (arith, room v b a last end fits.grows (fits.small a e'') new away) in
            record {
              pointer =
                  some
                    (item v b a last end fits.grows (fits.small a e'') new away + sizeof_frl_mem_t);
              pool' = mutex_unlock (linked v b a last end fits.grows (fits.small a e'') new away);
              runs = unfold grow in rw (e, e', e'', filled);
              outcome = linked-HandsOut v b a last end fits.grows (fits.small a e'') new away;
            }
      ]
    ]
  ]

  finish-Returns :
      (s : Search)
      → Ends pool.blocks pool.block (ring pool) s
      → Returns g pool (finish g held_pool s)
  unfolding finish
  finish-Returns (found b) split = record {
    pointer = some (top (pool.blocks b) + sizeof_frl_mem_t);
    pool' = taken v b split;
    runs = unfold take_item in refl;
    outcome = found-HandsOut v b split;
  }
  finish-Returns (full last) end = grow-Returns last end

  palloc-eq :
      {s : Search}
      → search_ring pool.blocks pool.block pool.n_blocks pool.block pool.block ≡ some s
      → palloc g pool ≡ finish g held_pool s
  unfolding palloc
  palloc-eq run = simp (v.unlocked, run)

  -- From a well-formed pool, when the doubled capacity is not 0, an arena for it is smaller than
  -- 4 GiB, and malloc gives only memory that the pool does not use, frl_slab_palloc_lock_with
  -- returns. It hands out an item that was not handed out, keeps all others handed out and the
  -- pool well formed; or every block is full and malloc failed, and the pool is unchanged but
  -- for its mutex, which stays locked.
  pub palloc-Returns : Returns g pool (palloc g pool)
  palloc-Returns =
      let (s, run, ends) =
        search_ring-Ends pool.blocks pool.block pool.n_blocks pool.block v.chain
          (omega (arith, v.size, v.some_block)) (omega (arith, v.size)) in
      rw (palloc-eq run) (finish-Returns s ends)

-- On a pool whose mutex was left locked a further allocation does not return.
locked-palloc : (pool : Pool) (g : Mallocs) → pool.held ≡ true → palloc g pool ≡ none
unfolding palloc
locked-palloc pool g e = rw e

no_memory-grow :
    (g : Mallocs) (pool : Pool) (last : ℕ) → g.arena ≡ none → grow g pool last ≡ some (none, pool)
unfolding grow block_create
no_memory-grow g pool last e = elim (Option-cases g.block) [
  | inl e' ↦ rw e'
  | inr (b, p) ↦ elim (Option-cases g.usage_stack) [
    | inl e'' ↦ rw (p, e'')
    | inr (us, p') ↦ rw (p, p', e)
  ]
]

no_memory-finish :
    (pool : Pool) (g : Mallocs) (held : Pool) (s : Search)
    → g.arena ≡ none
    → ((b : ℕ) → has b (ring pool) ≡ true → (pool.blocks b).stack_pointer ≡ 0)
    → Ends pool.blocks pool.block (ring pool) s
    → finish g held s ≡ some (none, held)
unfolding finish
no_memory-finish pool g held (found b) e empty split =
    let in_ring : has b (ring pool) ≡ true =
      rw split.whole (ground (arith, has-append b split.before (b ∷ split.after))) in
    absurd (ground (arith, empty b in_ring, split.room))
no_memory-finish pool g held (full last) e empty end = no_memory-grow g held last e

-- When no block of a well-formed pool has a free item and malloc of the arena fails, the doubled
-- capacity is not 0 and malloc gives no block that the pool uses, frl_slab_palloc_lock_with
-- returns NULL with the mutex locked, and no later call of it returns.
pub palloc-no_memory :
    {pool : Pool}
    → PoolIsValid pool
    → (g : Mallocs) → Fits pool g
    → g.arena ≡ none
    → ((b : ℕ) → has b (ring pool) ≡ true → (pool.blocks b).stack_pointer ≡ 0)
    → (pool' : Pool) × (palloc g pool ≡ some (none, pool'))
      × ((g' : Mallocs) → palloc g' pool' ≡ none)
palloc-no_memory {pool} v g fits no_arena empty =
    let (s, run, ends) =
      search_ring-Ends pool.blocks pool.block pool.n_blocks pool.block v.chain
        (omega (arith, v.size, v.some_block)) (omega (arith, v.size)) in
    (
      record pool { held = true },
      rw (palloc-eq v g fits run)
          (no_memory-finish pool g (held_pool v g fits) s no_arena empty ends),
      λ g'. locked-palloc (record pool { held = true }) g' refl,
    )

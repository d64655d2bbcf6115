-- ===== src/Slab/Release.antt =====
-- frl_slab_pfree gives back an item that is handed out: the pool stays well formed, and exactly
-- that item is no longer handed out.
use alter.Common.{
  ℕ, ◌+◌, ◌-◌, true, false, none, some, List, ◌==◌, update, ◌≡◌, ◌≢◌, ◌↔◌, inl, inr, arith, has,
  refl, Bool-cases,
}
use alter.Common.Chain
use alter.Common.Chain.{Chain, walk-eq}
use alter.Slab.Defs.{Block, Pool, sizeof_frl_mem_t}
use alter.Slab.Alloc.{pfree}
use alter.Slab.Invariant.{
  IsUsed, BlockIsValid, Stocked, Used, RingIsValid, PoolIsValid, Live, ring, count-push,
  Apart-count,
}
use alter.Slab.Stock.{all_items_le}

pub RingIsValid-ring : {pool : Pool} {xs : List ℕ} → RingIsValid pool xs → ring pool ≡ xs
unfolding ring
RingIsValid-ring {pool} {xs} r = rw (← r.size) (walk-eq r.chain)

pub PoolIsValid-of_ring : {pool : Pool} {xs : List ℕ} → RingIsValid pool xs → PoolIsValid pool
PoolIsValid-of_ring r = rw (RingIsValid-ring r) r

-- A block with the item `a` put back on its stack.
abbrev pushed : Block → ℕ → Block
pushed b a = record b {
  stack_pointer = b.stack_pointer + 1;
  usage_stack = update b.usage_stack (b.stack_pointer + 1) a;
}

-- The pool after that.
abbrev freed : Pool → ℕ → ℕ → Pool
freed pool b a = record pool {
  held = false;
  mem = update pool.mem a (record (pool.mem a) { occupied = false });
  blocks = update pool.blocks b (pushed (pool.blocks b) a);
}

module _ {pool : Pool} {xs : List ℕ} (s : Stocked pool xs) (b a : ℕ) (i : has b xs ≡ true)
    (u : IsUsed pool.per_size (pool.blocks b) a) where
  abbrev owner : Block
  owner = pool.blocks b

  IsUsed-pushed :
      (c : ℕ) → IsUsed pool.per_size (pushed owner a) c ↔ (IsUsed pool.per_size owner c × (c ≢ a))
  IsUsed-pushed c =
      let e = count-push owner.usage_stack owner.stack_pointer a c in
      let one = all_items_le pool.per_size owner c in
      elim (Bool-cases (c == a)) [
        | inl eq ↦ (λ v. absurd (ground (arith, e, one, v, u)), λ w. absurd (ground (arith, w.1)))
        | inr ne ↦ (λ v. (ground (arith, e, v), ground arith), λ w. ground (arith, e, w.0))
      ]

  freed_block : BlockIsValid (freed pool b a) b
  freed_block = record {
    counted = λ c.
        ground
          (arith, (s.valid b i).counted c, u, count-push owner.usage_stack owner.stack_pointer a c);
    nonempty = ground (arith, (s.valid b i).nonempty);
    small = ground (arith, (s.valid b i).small);
    header = λ c v.
        let w = (IsUsed-pushed c).0 (ground (arith, v)) in
        ground (arith, (s.valid b i).header c w.0, w.1);
  }

  freed_other : (c : ℕ) → has c xs ≡ true → c ≢ b → BlockIsValid (freed pool b a) c
  freed_other c j ne = record {
    counted = λ d. ground (arith, (s.valid c j).counted d);
    nonempty = ground (arith, (s.valid c j).nonempty);
    small = ground (arith, (s.valid c j).small);
    header = λ d v. ground (
      arith,
      v,
      u,
      (s.valid c j).header d,
      Apart-count pool.per_size owner (pool.blocks c) a (s.apart b c i j (ground arith)),
    );
  }

  freed-Stocked : Stocked (freed pool b a) xs
  freed-Stocked = record {
    valid = λ c j. elim (Bool-cases (c == b)) [
      | inl e ↦ let e' : c ≡ b = ground arith in rw e' freed_block
      | inr e ↦ freed_other c j (ground arith)
    ];
    apart = λ c d j k ne. ground (arith, s.apart c d j k ne);
  }

  Used-freed : (c : ℕ) → Used (freed pool b a) xs c ↔ (Used pool xs c × (c ≢ a))
  Used-freed c = (
    λ v. elim (Bool-cases (v.block == b)) [
      | inl e ↦
          let w = (IsUsed-pushed c).0 (ground (arith, v.used)) in
          (record { block = b; in_ring = i; used = w.0 }, w.1)
      | inr e ↦
          let old : IsUsed pool.per_size (pool.blocks v.block) c = ground (arith, v.used) in
          (
            record { block = v.block; in_ring = v.in_ring; used = old },
            ground (
              arith,
              old,
              u,
              Apart-count pool.per_size owner (pool.blocks v.block) a
                  (s.apart b v.block i v.in_ring (ground arith)),
            ),
          )
    ],
    λ (v, ne). record {
      block = v.block;
      in_ring = v.in_ring;
      used = elim (Bool-cases (v.block == b)) [
        | inl e ↦
            let w : IsUsed pool.per_size owner c = ground (arith, v.used) in
            ground (arith, (IsUsed-pushed c).1 (w, ne))
        | inr e ↦ ground (arith, v.used)
      ];
    },
  )

pfree-eq :
    (pool : Pool) (p b : ℕ)
    → ((pool.mem (p - sizeof_frl_mem_t)).block ≡ b)
      × ((pool.mem (p - sizeof_frl_mem_t)).occupied ≡ true)
    → pool.held ≡ false
    → pfree p pool ≡ some (freed pool b (p - sizeof_frl_mem_t))
unfolding pfree
pfree-eq pool p b h e = rw (← h.0, h.1, e)

-- What frl_slab_pfree promises of a pointer that is handed out.
pub record Freed (p : ℕ) (pool pool' : Pool) : Type 0 where
  pub runs : pfree p pool ≡ some pool'
  pub keeps_valid : PoolIsValid pool'
  pub gone : (q : ℕ) → Live pool' q ↔ (Live pool q × (q ≢ p))

module _ {pool : Pool} (v : PoolIsValid pool) (p : ℕ) (live : Live pool p) where
  abbrev item : ℕ
  item = p - sizeof_frl_mem_t

  header : ((pool.mem item).block ≡ live.used.block) × ((pool.mem item).occupied ≡ true)
  header = (v.stocked.valid live.used.block live.used.in_ring).header item live.used.used

  freed-RingIsValid : RingIsValid (freed pool live.used.block item) (ring pool)
  freed-RingIsValid = record {
    unlocked = refl;
    chain = Chain.frame _ v.chain λ a j. ground arith;
    size = v.size;
    some_block = v.some_block;
    stocked = freed-Stocked v.stocked live.used.block item live.used.in_ring live.used.used;
  }

  Live-freed : (q : ℕ) → Live (freed pool live.used.block item) q ↔ (Live pool q × (q ≢ p))
  Live-freed q =
      let same = RingIsValid-ring freed-RingIsValid in
      let moved =
        Used-freed v.stocked live.used.block item live.used.in_ring live.used.used
          (q - sizeof_frl_mem_t) in
      (
        λ l.
            let w = moved.0 (rw same at l.used) in
            (record { above = l.above; used = w.0 }, λ e. w.1 (rw e)),
        λ (l, ne). record {
          above = l.above;
          used = rw same (moved.1 (l.used, λ e. ne (omega (arith, l.above, live.above))));
        },
      )

  -- A pointer that a well-formed pool has handed out can be freed: the assertion holds, the pool
  -- stays well formed, and exactly this pointer is no longer handed out.
  pub pfree-Freed : (pool' : Pool) × Freed p pool pool'
  unfolding pfree
  pfree-Freed = (
    freed pool live.used.block item,
    record {
      runs = pfree-eq pool p live.used.block header v.unlocked;
      keeps_valid = PoolIsValid-of_ring freed-RingIsValid;
      gone = Live-freed;
    },
  )

-- After a pointer that a well-formed pool has handed out has been freed, a second frl_slab_pfree
-- of it stops at the assertion.
pub pfree-twice :
    {pool : Pool}
    → PoolIsValid pool
    → (p : ℕ) → Live pool p
    → (pool' : Pool) × (pfree p pool ≡ some pool') × (pfree p pool' ≡ none)
pfree-twice {pool} v p live =
    let b = live.used.block in
    (
      freed pool b (p - sizeof_frl_mem_t),
      pfree-eq pool p b (header v p live) v.unlocked,
      unfold pfree in ground arith,
    )

-- ===== src/Slab/Growth.antt =====
-- A new block, and its place in the ring, keep the blocks well formed and hand out nothing.
use alter.Common.{
  ◌*◌, ◌^◌, ℕ, ◌<◌, Bool, true, false, List, ◌∷◌, ◌==◌, ◌≡◌, ◌↔◌, inl, inr, arith, has, refl,
  Bool-cases,
}
use alter.Slab.Defs.{Pool, stride, init_block}
use alter.Slab.Alloc.{link_block}
use alter.Slab.Invariant.{IsUsed, Apart, BlockIsValid, Stocked, Used, stack_items-fill_stack}

-- The pools agree on everything that says which items exist and which are handed out.
pub record SameItems (pool q : Pool) : Type 0 where
  pub per_size : q.per_size ≡ pool.per_size
  pub mem :
      (a : ℕ)
      → ((q.mem a).block ≡ (pool.mem a).block) × ((q.mem a).occupied ≡ (pool.mem a).occupied)
  pub stack_pointer : (b : ℕ) → (q.blocks b).stack_pointer ≡ (pool.blocks b).stack_pointer
  pub usage_stack : (b : ℕ) → (q.blocks b).usage_stack ≡ (pool.blocks b).usage_stack
  pub capacity : (b : ℕ) → (q.blocks b).capacity ≡ (pool.blocks b).capacity
  pub arena : (b : ℕ) → (q.blocks b).arena ≡ (pool.blocks b).arena

module _ {pool q : Pool} (same : SameItems pool q) where
  IsUsed-same :
      (b a : ℕ) → IsUsed q.per_size (q.blocks b) a ≡ IsUsed pool.per_size (pool.blocks b) a
  IsUsed-same b a =
      rw (same.stack_pointer b, same.usage_stack b, same.capacity b, same.arena b, same.per_size)

  pub Stocked-same : {xs : List ℕ} → Stocked pool xs → Stocked q xs
  Stocked-same s = record {
    valid = λ b i. record {
      counted = λ a.
          rw
            (same.stack_pointer b, same.usage_stack b, same.capacity b, same.arena b, same.per_size)
            ((s.valid b i).counted a);
      nonempty = rw (same.capacity b) (s.valid b i).nonempty;
      small = rw (same.capacity b, same.per_size) (s.valid b i).small;
      header = λ a u.
          let h = (s.valid b i).header a (rw (IsUsed-same b a) at u) in
          ground (arith, same.mem a, h);
    };
    apart = λ b c i j ne.
        rw (same.capacity b, same.arena b, same.capacity c, same.arena c, same.per_size)
          (s.apart b c i j ne);
  }

  pub Used-same : {xs : List ℕ} (a : ℕ) → Used q xs a ↔ Used pool xs a
  Used-same a = (
    λ u. record {
      block = u.block;
      in_ring = u.in_ring;
      used = rw (IsUsed-same u.block a) at u.used;
    },
    λ u. record { block = u.block; in_ring = u.in_ring; used = rw (IsUsed-same u.block a) u.used },
  )

-- The lock and the current block do not matter.
pub relabel-same :
    (pool : Pool) (block : ℕ) (held : Bool)
    → SameItems pool (record pool { block = block; held = held })
relabel-same pool block held = record {
  per_size = refl;
  mem = λ a. (refl, refl);
  stack_pointer = λ b. refl;
  usage_stack = λ b. refl;
  capacity = λ b. refl;
  arena = λ b. refl;
}

pub link_block-same : (pool : Pool) (b l : ℕ) → SameItems pool (link_block pool b l)
unfolding link_block
link_block-same pool b l = record {
  per_size = refl;
  mem = λ a. (refl, refl);
  stack_pointer = λ c. ground arith;
  usage_stack = λ c. ground arith;
  capacity = λ c. ground arith;
  arena = λ c. ground arith;
}

module _ {pool : Pool} {xs : List ℕ} (s : Stocked pool xs) (capacity b arena : ℕ)
    (small : capacity * stride pool.per_size < 2 ^ 32) (new : has b xs ≡ false) where
  abbrev after_init : Pool
  after_init = init_block pool capacity b arena

  none-IsUsed : (a : ℕ) → ¬ IsUsed after_init.per_size (after_init.blocks b) a
  unfolding init_block
  none-IsUsed a u = ground (
    arith,
    u,
    stack_items-fill_stack arena (stride pool.per_size) capacity (pool.blocks b).usage_stack small,
  )

  -- The blocks of `xs` are as before.
  old-IsUsed :
      (c a : ℕ)
      → has c xs ≡ true
      → IsUsed after_init.per_size (after_init.blocks c) a ≡ IsUsed pool.per_size (pool.blocks c) a
  unfolding init_block
  old-IsUsed c a i = let e : (c == b) ≡ false = ground arith in rw e

  old : (c : ℕ) → has c xs ≡ true → BlockIsValid after_init c
  unfolding init_block
  old c i = record {
    counted = λ a. ground (arith, (s.valid c i).counted a);
    nonempty = ground (arith, (s.valid c i).nonempty);
    small = ground (arith, (s.valid c i).small);
    header = λ a u. (s.valid c i).header a (rw (old-IsUsed c a i) at u);
  }

  pub Used-init_block : (a : ℕ) → Used after_init (b ∷ xs) a ↔ Used pool xs a
  Used-init_block a = (
    λ u. elim (Bool-cases (has u.block xs)) [
      | inl i ↦ record {
        block = u.block;
        in_ring = i;
        used = rw (old-IsUsed u.block a i) at u.used;
      }
      | inr e ↦
          let at_b : u.block ≡ b = ground (arith, u.in_ring) in
          absurd (none-IsUsed a (rw at_b at u.used))
    ],
    λ u. record {
      block = u.block;
      in_ring = ground (arith, u.in_ring);
      used = rw (old-IsUsed u.block a u.in_ring) u.used;
    },
  )

  new_valid : 0 < capacity → BlockIsValid after_init b
  unfolding init_block
  new_valid pos = record {
    counted = λ a. ground (
      arith,
      stack_items-fill_stack arena (stride pool.per_size) capacity (pool.blocks b).usage_stack
          small,
    );
    nonempty = ground arith;
    small = ground (arith, small);
    header = λ a u. absurd (none-IsUsed a u);
  }

  pub init_block-Stocked :
      0 < capacity
      → ((c : ℕ) → has c xs ≡ true → Apart pool.per_size (after_init.blocks b) (pool.blocks c))
      → Stocked after_init (b ∷ xs)
  unfolding init_block
  init_block-Stocked pos away = record {
    valid = λ c i. elim (Bool-cases (has c xs)) [
      | inl old_c ↦ old c old_c
      | inr e ↦ let at_b : c ≡ b = ground (arith, i) in rw at_b (new_valid pos)
    ];
    apart = λ c d i j ne. ground (arith, s.apart c d, away c, away d);
  }

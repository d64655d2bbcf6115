-- ===== src/Slab/Stock.antt =====
-- Taking an item, giving one back and adding a block keep the blocks well formed, and change
-- which items are handed out as they should.
use alter.Common.{
  ℕ, ◌-◌, ◌≤◌, ◌<◌, true, List, ◌==◌, ◌≡◌, ◌≢◌, ◌⊎◌, ◌↔◌, inl, inr, arith, count, has, Bool-cases,
}
use alter.Slab.Defs.{Block, Pool, stride}
use alter.Slab.Alloc.{take_item}
use alter.Slab.Invariant.{
  free_items, all_items, IsUsed, BlockIsValid, Stocked, Used, count-items_le, Apart-count,
  count-pop,
}

pub all_items_le : (per_size : ℕ) (b : Block) (a : ℕ) → count a (all_items per_size b) ≤ 1
all_items_le per_size b a = count-items_le b.arena (stride per_size) b.capacity a (omega arith)

-- The item on top of the stack of a block.
abbrev pub top : Block → ℕ
top b = b.usage_stack b.stack_pointer

module _ {pool : Pool} {xs : List ℕ} (s : Stocked pool xs) (b : ℕ) (i : has b xs ≡ true) where
  module _ (room : 0 < (pool.blocks b).stack_pointer) where
    abbrev block : Block
    block = pool.blocks b

    abbrev popped : Block
    popped = record block { stack_pointer = block.stack_pointer - 1 }

    top_free : count (top block) (free_items block) ≡ 1
    top_free = ground (
      arith,
      (s.valid b i).counted (top block),
      all_items_le pool.per_size block (top block),
      count-pop block.usage_stack block.stack_pointer (top block) room,
    )

    top_owned : count (top block) (all_items pool.per_size block) ≡ 1
    top_owned = ground (
      arith,
      top_free,
      (s.valid b i).counted (top block),
      all_items_le pool.per_size block (top block),
    )

    -- The item on top of the stack is not handed out, by this block or another.
    pub not-Used-top : ¬ Used pool xs (top block)
    not-Used-top u = elim (Bool-cases (u.block == b)) [
      | inl e ↦ ground (arith, u.used, top_free, top_owned)
      | inr e ↦ ground (
        arith,
        u.used,
        top_owned,
        Apart-count pool.per_size block (pool.blocks u.block) (top block)
            (s.apart b u.block i u.in_ring (ground arith)),
      )
    ]

    popped-BlockIsValid : BlockIsValid (take_item pool b).1 b
    unfolding take_item
    popped-BlockIsValid = record {
      counted = λ a.
          ground (
            arith,
            (s.valid b i).counted a,
            count-pop block.usage_stack block.stack_pointer a room,
          );
      nonempty = ground (arith, (s.valid b i).nonempty);
      small = ground (arith, (s.valid b i).small);
      header = λ a u. ground (
        arith,
        u,
        (s.valid b i).header a,
        count-pop block.usage_stack block.stack_pointer a room,
      );
    }

    take_item-other : (c : ℕ) → has c xs ≡ true → c ≢ b → BlockIsValid (take_item pool b).1 c
    unfolding take_item
    take_item-other c j ne = record {
      counted = λ a. ground (arith, (s.valid c j).counted a);
      nonempty = ground (arith, (s.valid c j).nonempty);
      small = ground (arith, (s.valid c j).small);
      header = λ a u. ground (
        arith,
        u,
        (s.valid c j).header a,
        top_owned,
        Apart-count pool.per_size block (pool.blocks c) (top block)
            (s.apart b c i j (ground arith)),
      );
    }

    pub take_item-Stocked : Stocked (take_item pool b).1 xs
    take_item-Stocked = record {
      valid = λ c j. elim (Bool-cases (c == b)) [
        | inl e ↦ let e' : c ≡ b = ground arith in rw e' popped-BlockIsValid
        | inr e ↦ take_item-other c j (ground arith)
      ];
      apart = λ c d j k ne. unfold take_item in ground (arith, s.apart c d j k ne);
    }

    IsUsed-popped :
        (a : ℕ) → IsUsed pool.per_size popped a ↔ ((a ≡ top block) ⊎ IsUsed pool.per_size block a)
    IsUsed-popped a =
        let c = count-pop block.usage_stack block.stack_pointer a room in
        elim (Bool-cases (a == top block)) [
          | inl e ↦ (λ u. inl (ground arith), λ w. ground (arith, c, top_free, top_owned))
          | inr e ↦ (λ u. inr (ground (arith, c, u)), λ w. ground (arith, c, w))
        ]

    -- Afterwards that item is handed out, and the others as before.
    pub Used-take_item :
        (a : ℕ) → Used (take_item pool b).1 xs a ↔ ((a ≡ top block) ⊎ Used pool xs a)
    unfolding take_item
    Used-take_item a = (
      λ u. elim (Bool-cases (u.block == b)) [
        | inl e ↦ elim ((IsUsed-popped a).0 (ground (arith, u.used))) [
          | inl t ↦ inl t
          | inr v ↦ inr (record { block = b; in_ring = i; used = v })
        ]
        | inr e ↦
            inr (record { block = u.block; in_ring = u.in_ring; used = ground (arith, u.used) })
      ],
      λ w. elim w [
        | inl t ↦ record {
          block = b;
          in_ring = i;
          used = ground (arith, (IsUsed-popped a).1 (inl t));
        }
        | inr u ↦ record {
          block = u.block;
          in_ring = u.in_ring;
          used = elim (Bool-cases (u.block == b)) [
            | inl e ↦ ground (arith, u.used, (IsUsed-popped a).1 (inr (ground (arith, u.used))))
            | inr e ↦ ground (arith, u.used)
          ];
        }
      ],
    )

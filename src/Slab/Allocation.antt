-- ===== src/Slab/Allocation.antt =====
-- frl_slab_palloc_lock_with hands out an item that was not handed out, or finds no memory.
use alter.Common.{
  ℕ, ◌+◌, ◌-◌, ◌*◌, ◌%◌, ◌^◌, ◌≤◌, ◌<◌, true, false, some, List, [], ◌∷◌, ◌++◌, ◌==◌, ◌≡◌, ◌≢◌, ◌⊎◌,
  ◌↔◌, inl, inr, arith, has, length, refl, has-append, length-append, ◌||◌,
}
use alter.Common.Chain
use alter.Common.Chain.{Chain, nil, cons}
use alter.Slab.Defs.{Pool, Mallocs, stride, sizeof_frl_mem_t, init_block}
use alter.Slab.Alloc.{take_item, link_block, mutex_unlock}
use alter.Slab.Invariant.{Stocked, Used, RingIsValid, PoolIsValid, Live, ring}
use alter.Slab.Search.{Split, Exhausted}
use alter.Slab.Stock.{top, take_item-Stocked, not-Used-top, Used-take_item}
use alter.Slab.Growth.{
  Stocked-same, Used-same, link_block-same, relabel-same, init_block-Stocked, Used-init_block,
}
use alter.Slab.Release.{RingIsValid-ring, PoolIsValid-of_ring}

-- `ys` lists only blocks of `xs`.
abbrev Within : List ℕ → List ℕ → Type 0
Within ys xs = (b : ℕ) → has b ys ≡ true → has b xs ≡ true

Stocked-Within : {pool : Pool} {xs ys : List ℕ} → Within ys xs → Stocked pool xs → Stocked pool ys
Stocked-Within w s = record {
  valid = λ b i. s.valid b (w b i);
  apart = λ b c i j ne. s.apart b c (w b i) (w c j) ne;
}

Used-Within :
    {pool : Pool} {xs ys : List ℕ} {a : ℕ} → Within ys xs → Used pool ys a → Used pool xs a
Used-Within w u = record { block = u.block; in_ring = w u.block u.in_ring; used = u.used }

-- What the next growth of the pool needs: the doubled capacity does not wrap round to 0, an
-- arena of that capacity is smaller than 4 GiB, and `malloc` returns memory that the pool does not use yet.
pub record Fits (pool : Pool) (g : Mallocs) : Type 0 where
  pub grows : 0 < pool.max_capacity * 2 % 2 ^ 32
  pub new_block : (b : ℕ) → g.block ≡ some b → has b (ring pool) ≡ false
  pub small :
      (a : ℕ) → g.arena ≡ some a → pool.max_capacity * 2 % 2 ^ 32 * stride pool.per_size < 2 ^ 32
  pub new_arena :
      (a c : ℕ)
      → g.arena ≡ some a
      → has c (ring pool) ≡ true
      → (a + pool.max_capacity * 2 % 2 ^ 32 * stride pool.per_size ≤ (pool.blocks c).arena)
        ⊎ ((pool.blocks c).arena + (pool.blocks c).capacity * stride pool.per_size ≤ a)

-- The item `p` is new, and is now handed out besides the others.
pub record HandsOut (pool : Pool) (p : ℕ) (pool' : Pool) : Type 0 where
  pub keeps_valid : PoolIsValid pool'
  pub not_null : 0 < p
  pub fresh : ¬ Live pool p
  pub added : (q : ℕ) → Live pool' q ↔ ((q ≡ p) ⊎ Live pool q)

-- From facts on items to facts on pointers.
hands_out :
    {pool pool' : Pool} {xs : List ℕ} (a : ℕ)
    → RingIsValid pool' xs
    → ¬ Used pool (ring pool) a
    → ((c : ℕ) → Used pool' xs c ↔ ((c ≡ a) ⊎ Used pool (ring pool) c))
    → HandsOut pool (a + sizeof_frl_mem_t) pool'
hands_out {pool} {pool'} a r out added = record {
  keeps_valid = PoolIsValid-of_ring r;
  not_null = omega arith;
  fresh = λ l. out (rw e at l.used);
  added = λ q. (
    λ l. elim ((added (q - sizeof_frl_mem_t)).0 (rw (RingIsValid-ring r) at l.used)) [
      | inl e ↦ inl (omega (arith, l.above))
      | inr u ↦ inr (record { above = l.above; used = u })
    ],
    λ w. elim w [
      | inl e ↦ record {
        above = omega arith;
        used = rw (RingIsValid-ring r) ((added (q - sizeof_frl_mem_t)).1 (inl (omega arith)));
      }
      | inr l ↦ record {
        above = l.above;
        used = rw (RingIsValid-ring r) ((added (q - sizeof_frl_mem_t)).1 (inr l.used));
      }
    ],
  );
}
  where
    e : a + sizeof_frl_mem_t - sizeof_frl_mem_t ≡ a
    e = omega arith

module _ {pool : Pool} (v : PoolIsValid pool) where
  abbrev pub locked : Pool
  locked = record pool { held = true }

  locked-Stocked : Stocked locked (ring pool)
  locked-Stocked = Stocked-same (relabel-same pool pool.block true) v.stocked

  Used-locked : (a : ℕ) → Used locked (ring pool) a ↔ Used pool (ring pool) a
  Used-locked a = Used-same (relabel-same pool pool.block true) a

  module _ (b : ℕ) (split : Split pool.blocks pool.block (ring pool) b) where
    abbrev pub taken : Pool
    taken = mutex_unlock (record (take_item locked b).1 { block = b })

    abbrev turned : List ℕ
    turned = (b ∷ split.after) ++ split.before

    in_ring : has b (ring pool) ≡ true
    in_ring = rw split.whole (ground (arith, has-append b split.before (b ∷ split.after)))

    turned_same : (c : ℕ) → has c turned ≡ has c (ring pool)
    turned_same c = rw split.whole (
        ground (
          arith,
          has-append c split.before (b ∷ split.after),
          has-append c (b ∷ split.after) split.before,
        ))

    taken-RingIsValid : RingIsValid taken turned
    unfolding take_item
    taken-RingIsValid = record {
      unlocked = refl;
      chain =
          Chain.frame _
            (Chain.append split.from_block split.to_block λ a i. ground (arith, split.apart a))
            λ a i. ground arith;
      size = omega (arith, sizes, v.size);
      some_block = v.some_block;
      stocked =
          Stocked-Within {xs = ring pool} (λ c i. rw (← turned_same c) i)
            (Stocked-same (relabel-same (take_item locked b).1 b false)
              (take_item-Stocked locked-Stocked b in_ring split.room));
    }
      where
        sizes : length turned ≡ length (ring pool)
        sizes = rw split.whole (
            omega (
              arith,
              length-append split.before (b ∷ split.after),
              length-append split.after split.before,
            ))

    Used-taken :
        (c : ℕ) → Used taken turned c ↔ ((c ≡ top (pool.blocks b)) ⊎ Used pool (ring pool) c)
    Used-taken c =
        let same = Used-same (relabel-same (take_item locked b).1 b false) {xs = ring pool} c in
        let step = Used-take_item locked-Stocked b in_ring split.room c in
        (
          λ u. elim (step.0 (same.0 (Used-Within (λ d i. rw (← turned_same d) i) u))) [
            | inl e ↦ inl e
            | inr w ↦ inr ((Used-locked c).0 w)
          ],
          λ w.
              Used-Within (λ d i. rw (turned_same d) i)
                (same.1 (step.1 (elim w [ inl e ↦ inl e | inr u ↦ inr ((Used-locked c).1 u) ]))),
        )

    pub found-HandsOut : HandsOut pool (top (pool.blocks b) + sizeof_frl_mem_t) taken
    found-HandsOut =
        hands_out (top (pool.blocks b)) taken-RingIsValid
          (λ u.
            not-Used-top locked-Stocked b in_ring split.room
              ((Used-locked (top (pool.blocks b))).1 u))
          Used-taken

  module _ (b arena last : ℕ) (end : Exhausted pool.blocks pool.block (ring pool) last)
      (grows : 0 < pool.max_capacity * 2 % 2 ^ 32)
      (small : pool.max_capacity * 2 % 2 ^ 32 * stride pool.per_size < 2 ^ 32)
      (new : has b (ring pool) ≡ false)
      (away : (c : ℕ)
        → has c (ring pool) ≡ true
        → (arena + pool.max_capacity * 2 % 2 ^ 32 * stride pool.per_size ≤ (pool.blocks c).arena)
          ⊎ ((pool.blocks c).arena + (pool.blocks c).capacity * stride pool.per_size ≤ arena)) where
    abbrev pub capacity : ℕ
    capacity = pool.max_capacity * 2 % 2 ^ 32

    abbrev pub larger : Pool
    larger = init_block locked capacity b arena

    abbrev pub linked : Pool
    linked = link_block (take_item larger b).1 b last

    pub larger-Stocked : Stocked larger (b ∷ ring pool)
    unfolding init_block
    larger-Stocked =
        init_block-Stocked locked-Stocked capacity b arena small new grows
          λ c i. ground (arith, away c i)

    in_front : has b (b ∷ ring pool) ≡ true
    in_front = ground arith

    pub room : 0 < (larger.blocks b).stack_pointer
    unfolding init_block
    room = ground arith

    in_pool : (c : ℕ) → has c (ring pool) ≡ (has c end.before || (c == last))
    in_pool c = rw end.whole (ground (arith, has-append c end.before (last ∷ [])))

    last_ne : last ≢ b
    last_ne = ground (arith, new, in_pool last)

    next_new : (linked.blocks b).next ≡ pool.block
    unfolding init_block take_item link_block
    next_new = ground (arith, last_ne, end.back)

    next_last : (linked.blocks last).next ≡ b
    unfolding init_block take_item link_block
    next_last = ground (arith, last_ne)

    next_old : (c : ℕ) → has c end.before ≡ true → (linked.blocks c).next ≡ (pool.blocks c).next
    unfolding init_block take_item link_block
    next_old c i = ground (arith, in_pool c, new, end.fresh)

    linked-Chain : Chain (λ a. (linked.blocks a).next) b b (b ∷ ring pool)
    linked-Chain =
        let front = Chain.frame (λ a. (linked.blocks a).next) end.to_last next_old in
        cons next_new new (rw end.whole (Chain.snoc front end.fresh next_last))

    abbrev pub item : ℕ
    item = top (larger.blocks b)

    linked-RingIsValid : RingIsValid (mutex_unlock linked) (b ∷ ring pool)
    unfolding link_block
    linked-RingIsValid = record {
      unlocked = refl;
      chain = unfold init_block take_item in linked-Chain;
      size = unfold init_block take_item in omega (arith, v.size);
      some_block = omega arith;
      stocked = Stocked-same (relabel-same linked b false) (
          Stocked-same (link_block-same (take_item larger b).1 b last)
            (take_item-Stocked larger-Stocked b in_front room));
    }

    Used-linked :
        (c : ℕ)
        → Used (mutex_unlock linked) (b ∷ ring pool) c ↔ ((c ≡ item) ⊎ Used pool (ring pool) c)
    unfolding link_block
    Used-linked c =
        let relabelled = Used-same (relabel-same linked b false) {xs = b ∷ ring pool} c in
        let joined =
          Used-same (link_block-same (take_item larger b).1 b last) {xs = b ∷ ring pool} c in
        let step = Used-take_item larger-Stocked b in_front room c in
        let made = Used-init_block locked-Stocked capacity b arena small new c in
        (
          λ u. elim (step.0 (joined.0 (relabelled.0 u))) [
            | inl e ↦ inl e
            | inr w ↦ inr ((Used-locked c).0 (made.0 w))
          ],
          λ w. relabelled.1 (
              joined.1
                (step.1 (elim w [ inl e ↦ inl e | inr u ↦ inr (made.1 ((Used-locked c).1 u)) ]))),
        )

    pub linked-HandsOut : HandsOut pool (item + sizeof_frl_mem_t) (mutex_unlock linked)
    linked-HandsOut =
        hands_out item linked-RingIsValid
          (λ u. not-Used-top larger-Stocked b in_front room (
            (Used-init_block locked-Stocked capacity b arena small new item).1
              ((Used-locked item).1 u)))
          Used-linked

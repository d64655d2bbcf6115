-- ===== src/Slab/Search.antt =====
-- The walk over the ring in frl_slab_palloc_lock_with ends, at the first block with a free item or
-- after all blocks.
use alter.Common.{
  ℕ, zero, suc, ◌≤◌, ◌<◌, true, false, some, List, [], ◌∷◌, ◌++◌, ltb, ◌==◌, ◌≡◌, arith, has,
  length, refl, Bool-cases, inl, inr, has-append,
}
use mathlib.Core.List.{append_assoc}
use alter.Common.Chain
use alter.Common.Chain.{Chain, nil, cons}
use alter.Slab.Defs.{Block}
use alter.Slab.Alloc.{Search, found, full, search_ring}

abbrev pub next_of : (ℕ → Block) → ℕ → ℕ
next_of blocks a = (blocks a).next

-- The block that the walk stops at cuts the ring in two.
pub record Split (blocks : ℕ → Block) (start : ℕ) (xs : List ℕ) (b : ℕ) : Type 0 where
  pub before : List ℕ
  pub after : List ℕ
  pub to_block : Chain (next_of blocks) b start before
  pub from_block : Chain (next_of blocks) start b (b ∷ after)
  pub apart : (a : ℕ) → has a before ≡ true → has a (b ∷ after) ≡ false
  pub whole : xs ≡ before ++ b ∷ after
  pub room : 0 < (blocks b).stack_pointer
  pub passed : (a : ℕ) → has a before ≡ true → (blocks a).stack_pointer ≡ 0

-- No block has a free item, and `l` is the last of the ring.
pub record Exhausted (blocks : ℕ → Block) (start : ℕ) (xs : List ℕ) (l : ℕ) : Type 0 where
  pub before : List ℕ
  pub to_last : Chain (next_of blocks) l start before
  pub fresh : has l before ≡ false
  pub back : (blocks l).next ≡ start
  pub whole : xs ≡ before ++ l ∷ []
  pub empty : (a : ℕ) → has a xs ≡ true → (blocks a).stack_pointer ≡ 0

abbrev pub Ends : (ℕ → Block) → ℕ → List ℕ → Search → Type 0
Ends blocks start xs (found b) = Split blocks start xs b
Ends blocks start xs (full l) = Exhausted blocks start xs l

-- A walk that has passed `before` and stands at `cur`, with `after` still to come.
record Walking (blocks : ℕ → Block) (start cur q : ℕ) (before after : List ℕ) : Type 0 where
  to_cur : Chain (next_of blocks) cur start before
  step : (blocks cur).next ≡ q
  fresh : has cur after ≡ false
  apart : (a : ℕ) → has a before ≡ true → has a (cur ∷ after) ≡ false
  not_start : has start after ≡ false
  passed : (a : ℕ) → has a before ≡ true → (blocks a).stack_pointer ≡ 0

module _ (blocks : ℕ → Block) (start : ℕ) where
  advance :
      {cur q q' : ℕ} {before after : List ℕ}
      → Walking blocks start cur q before (q ∷ after)
      → (blocks cur).stack_pointer ≡ 0
      → (blocks q).next ≡ q'
      → has q after ≡ false
      → Walking blocks start q q' (before ++ cur ∷ []) after
  advance {cur} {q} {before} {after} w empty e out = record {
    to_cur = Chain.snoc w.to_cur (not_before) w.step;
    step = e;
    fresh = out;
    apart = λ a i. ground (arith, has-append a before (cur ∷ []), w.apart a, w.fresh);
    not_start = ground (arith, w.not_start);
    passed = λ a i. ground (arith, has-append a before (cur ∷ []), w.passed a);
  }
    where
      not_before : has cur before ≡ false
      not_before = ground (arith, w.apart cur)

  stop_here :
      {cur q : ℕ} {before after : List ℕ}
      → Walking blocks start cur q before after
      → Chain (next_of blocks) start q after
      → 0 < (blocks cur).stack_pointer
      → Split blocks start (before ++ cur ∷ after) cur
  stop_here {before} {after} w c room = record {
    before = before;
    after = after;
    to_block = w.to_cur;
    from_block = cons w.step w.fresh c;
    apart = w.apart;
    whole = refl;
    room = room;
    passed = w.passed;
  }

  stop_full :
      {cur : ℕ} {before : List ℕ}
      → Walking blocks start cur start before []
      → (blocks cur).stack_pointer ≡ 0
      → Exhausted blocks start (before ++ cur ∷ []) cur
  stop_full {cur} {before} w empty = record {
    before = before;
    to_last = w.to_cur;
    fresh = ground (arith, w.apart cur);
    back = w.step;
    whole = refl;
    empty = λ a i. ground (arith, has-append a before (cur ∷ []), w.passed a);
  }

  search_from :
      (k last : ℕ) {cur q : ℕ} {before after : List ℕ}
      → Walking blocks start cur q before after
      → Chain (next_of blocks) start q after
      → length after < k
      → (s : Search) × (search_ring blocks start k last cur ≡ some s)
        × Ends blocks start (before ++ cur ∷ after) s
  unfolding search_ring
  search_from zero last w c h = absurd (omega arith)
  search_from (suc k) last {cur} w nil h = elim (Bool-cases (ltb 0 (blocks cur).stack_pointer)) [
    | inl room ↦ (found cur, rw room, stop_here w nil (ground arith))
    | inr empty ↦
        let back : ((blocks cur).next == start) ≡ true = ground (arith, w.step) in
        (full cur, rw (empty, back), stop_full w (ground arith))
  ]
  search_from (suc k) last {cur} {before} w (cons {p} {xs} e out c) h =
      elim (Bool-cases (ltb 0 (blocks cur).stack_pointer)) [
        | inl room ↦ (found cur, rw room, stop_here w (cons e out c) (ground arith))
        | inr empty ↦
            let more : (p == start) ≡ false = ground (arith, w.not_start) in
            let (s, run, ends) =
              search_from k last (advance w (ground arith) e out) c (omega arith) in
            (s, rw (empty, w.step, more) run, rw append_assoc at ends)
      ]

  -- Over a ring of blocks the search of frl_slab_palloc_lock_with ends within as many rounds as
  -- there are blocks: at the first block with a free item, or with the last block when every
  -- block is full.
  pub search_ring-Ends :
      (k last : ℕ) {xs : List ℕ}
      → Chain (next_of blocks) start start xs
      → 0 < length xs
      → length xs ≤ k
      → (s : Search) × (search_ring blocks start k last start ≡ some s) × Ends blocks start xs s
  search_ring-Ends k last c pos h = go c refl pos h
    where
      go :
          {p : ℕ} {xs : List ℕ}
          → Chain (next_of blocks) start p xs
          → p ≡ start
          → 0 < length xs
          → length xs ≤ k
          → (s : Search) × (search_ring blocks start k last start ≡ some s) × Ends blocks start xs s
      go nil e pos h = absurd (omega arith)
      go (cons step out c) e pos h = rw e (
          search_from k last
            (record {
              to_cur = nil;
              step = rw e at step;
              fresh = rw e at out;
              apart = λ a i. cc;
              not_start = rw e at out;
              passed = λ a i. cc;
            })
            c (omega arith))

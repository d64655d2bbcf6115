-- ===== src/Slab/Checkup.antt =====
-- What frl_slab_pool_safe checks.
use alter.Common.{
  ℕ, zero, suc, ◌+◌, ◌*◌, ◌^◌, ◌↔◌, ◌≤◌, ◌<◌, Bool, true, false, Option, some, List, ◌∷◌, ◌==◌, ◌≡◌,
  ◌≢◌, inl, inr, arith, has, length, refl, Bool-cases, if◌then◌else◌,
}
use native.Mathlib.Nat.{mul-le-mul_right}
use alter.Common.Chain.{Chain, nil, cons}
use alter.Slab.Defs.{Pool, stride, item_offset, sizeof_frl_mem_t}
use alter.Slab.Loops.{
  Safety, success, memleak, stackbusy, stackerr, any_below, flag_broken, entry_outside, safe_loop,
  pool_safe,
}
use alter.Slab.Invariant.{PoolIsValid, ring}

-- Each flag of the block has its own number, nobody is in an exchange on its stack, and all entries
-- of the stack, those above the top too, lie in the arena.
pub record BlockIsSafe (pool : Pool) (busy : ℕ → Bool) (b : ℕ) : Type 0 where
  pub flags :
      (i : ℕ)
      → i < (pool.blocks b).capacity
      → pool.flag
          ((pool.blocks b).arena + i * stride pool.per_size + pool.per_size + sizeof_frl_mem_t)
        ≡ i
  pub free : busy b ≡ false
  pub inside :
      (i : ℕ)
      → i < (pool.blocks b).capacity
      → ((pool.blocks b).arena ≤ (pool.blocks b).usage_stack (i + 1))
        × ((pool.blocks b).usage_stack (i + 1)
            < (pool.blocks b).arena + (pool.blocks b).capacity * stride pool.per_size)

-- The tests of the block find nothing.
record BlockPasses (pool : Pool) (busy : ℕ → Bool) (b : ℕ) : Type 0 where
  flags :
      (i : ℕ)
      → i < (pool.blocks b).capacity
      → pool.flag (
          (pool.blocks b).arena
          + item_offset (stride pool.per_size) i
          + pool.per_size
          + sizeof_frl_mem_t)
        ≡ i
  free : busy b ≡ false
  inside :
      (i : ℕ)
      → i < (pool.blocks b).capacity
      → ((pool.blocks b).arena ≤ (pool.blocks b).usage_stack (i + 1))
        × ((pool.blocks b).usage_stack (i + 1)
            < (pool.blocks b).arena + item_offset (stride pool.per_size) (pool.blocks b).capacity)

-- The check ends, and succeeds exactly when every block of the list is in order.
pub record Checks (P : ℕ → Type 0) (xs : List ℕ) (run : Option Safety) : Type 0 where
  pub result : Safety
  pub runs : run ≡ some result
  pub sound : result ≡ success → (b : ℕ) → has b xs ≡ true → P b
  pub complete : ((b : ℕ) → has b xs ≡ true → P b) → result ≡ success

any_below-false :
    (bad : ℕ → Bool) (n : ℕ) → any_below bad n ≡ false → (i : ℕ) → i < n → bad i ≡ false
unfolding any_below
any_below-false bad zero e i h = absurd (omega arith)
any_below-false bad (suc n) e i h = elim (Bool-cases (i == n)) [
  | inl is ↦ let at_n : i ≡ n = ground arith in rw at_n (ground arith)
  | inr less ↦ any_below-false bad n (ground arith) i (ground arith)
]

false-any_below :
    (bad : ℕ → Bool) (n : ℕ) → ((i : ℕ) → i < n → bad i ≡ false) → any_below bad n ≡ false
unfolding any_below
false-any_below bad zero h = refl
false-any_below bad (suc n) h =
    let last = h n (omega arith) in
    let rest = false-any_below bad n λ i less. h i (omega arith) in ground arith

module _ (pool : Pool) (busy : ℕ → Bool) where
  abbrev broken : ℕ → Bool
  broken b = any_below (flag_broken pool (pool.blocks b)) (pool.blocks b).capacity

  abbrev outside : ℕ → Bool
  outside b = any_below (entry_outside pool (pool.blocks b)) (pool.blocks b).capacity

  all_tests-BlockPasses :
      (b : ℕ) → broken b ≡ false → busy b ≡ false → outside b ≡ false → BlockPasses pool busy b
  all_tests-BlockPasses b e free e' = record {
    flags = λ i h.
        let t = any_below-false (flag_broken pool (pool.blocks b)) (pool.blocks b).capacity e i h in
        ground (arith, t);
    free = free;
    inside = λ i h.
        let t =
          any_below-false (entry_outside pool (pool.blocks b)) (pool.blocks b).capacity e' i h in
        ground (arith, t);
  }

  BlockPasses-flags : {b : ℕ} → BlockPasses pool busy b → broken b ≡ false
  BlockPasses-flags {b} s =
      false-any_below (flag_broken pool (pool.blocks b)) (pool.blocks b).capacity
        λ i h. let t = s.flags i h in ground (arith, t)

  BlockPasses-inside : {b : ℕ} → BlockPasses pool busy b → outside b ≡ false
  BlockPasses-inside {b} s =
      false-any_below (entry_outside pool (pool.blocks b)) (pool.blocks b).capacity
        λ i h. let t = s.inside i h in ground (arith, t)

  -- A test fails.
  fails :
      {p : ℕ} {xs : List ℕ} {run : Option Safety} (s : Safety)
      → run ≡ some s
      → s ≢ success
      → ¬ BlockPasses pool busy p
      → Checks (BlockPasses pool busy) (p ∷ xs) run
  fails {p} s runs bad unsafe = record {
    result = s;
    runs = runs;
    sound = λ e. absurd (bad e);
    complete = λ all. absurd (unsafe (all p (ground arith)));
  }

  safe_loop-rest :
      (k : ℕ) {p q : ℕ} {xs : List ℕ}
      → BlockPasses pool busy p
      → (pool.blocks p).next ≡ q
      → Checks
          (BlockPasses pool busy)
          xs
          (if q == pool.block then some success else safe_loop pool busy k q)
      → Checks (BlockPasses pool busy) (p ∷ xs) (safe_loop pool busy (suc k) p)
  unfolding safe_loop
  safe_loop-rest k {p} s e c = record {
    result = c.result;
    runs = simp (BlockPasses-flags s, s.free, BlockPasses-inside s, e) c.runs;
    sound = λ ok a i. elim (Bool-cases (a == p)) [
      | inl is ↦ let at_p : a ≡ p = ground arith in rw at_p s
      | inr other ↦ c.sound ok a (ground arith)
    ];
    complete = λ all. c.complete λ a i. all a (ground arith);
  }

  one_block :
      (k : ℕ) {p q : ℕ} {xs : List ℕ}
      → (pool.blocks p).next ≡ q
      → Checks
          (BlockPasses pool busy)
          xs
          (if q == pool.block then some success else safe_loop pool busy k q)
      → Checks (BlockPasses pool busy) (p ∷ xs) (safe_loop pool busy (suc k) p)
  one_block k {p} e c = elim (Bool-cases (broken p)) [
    | inl t ↦
        fails memleak (unfold safe_loop in rw t) (λ is. cc) λ s. ground (arith, BlockPasses-flags s)
    | inr t ↦ elim (Bool-cases (busy p)) [
      | inl u ↦
          fails stackbusy (unfold safe_loop in rw (t, u)) (λ is. cc) λ s. ground (arith, s.free)
      | inr u ↦ elim (Bool-cases (outside p)) [
        | inl w ↦
            fails stackerr (unfold safe_loop in rw (t, u, w)) (λ is. cc)
              λ s. ground (arith, BlockPasses-inside s)
        | inr w ↦ safe_loop-rest k (all_tests-BlockPasses p t u w) e c
      ]
    ]
  ]

  safe_loop-Checks :
      (k : ℕ) {p q : ℕ} {xs : List ℕ}
      → (pool.blocks p).next ≡ q
      → Chain (λ a. (pool.blocks a).next) pool.block q xs
      → has pool.block xs ≡ false
      → length xs < k
      → Checks (BlockPasses pool busy) (p ∷ xs) (safe_loop pool busy k p)
  safe_loop-Checks zero e c out h = absurd (omega arith)
  safe_loop-Checks (suc k) e nil out h =
      let back : (pool.block == pool.block) ≡ true = ground arith in
      one_block k e (
        rw back
          (record { result = success; runs = refl; sound = λ ok a i. cc; complete = λ all. refl }))
  safe_loop-Checks (suc k) e (cons {p = q} e' fresh c) out h =
      let more : (q == pool.block) ≡ false = ground arith in
      one_block k e (rw more (safe_loop-Checks k e' c (ground arith) (omega arith)))

  safe_ring :
      {p : ℕ} {xs : List ℕ}
      → Chain (λ a. (pool.blocks a).next) pool.block p xs
      → p ≡ pool.block
      → 0 < length xs
      → length xs ≤ pool.n_blocks
      → Checks (BlockPasses pool busy) xs (pool_safe pool busy)
  unfolding pool_safe
  safe_ring nil is pos h = absurd (omega arith)
  safe_ring (cons e fresh c) is pos h =
      rw is (safe_loop-Checks pool.n_blocks (rw is at e) c (rw is at fresh) (omega arith))

item_offset-small : (step n i : ℕ) → n * step < 2 ^ 32 → i ≤ n → item_offset step i ≡ i * step
unfolding item_offset
item_offset-small step n i small le =
    let less : i * step ≤ n * step = mul-le-mul_right step le in omega (arith, small, less)

module _ (pool : Pool) (busy : ℕ → Bool) (b : ℕ)
    (small : (pool.blocks b).capacity * stride pool.per_size < 2 ^ 32) where
  -- In an arena smaller than 4 GiB the tests are at the right places.
  BlockPasses-BlockIsSafe : BlockPasses pool busy b ↔ BlockIsSafe pool busy b
  BlockPasses-BlockIsSafe =
      let top =
        item_offset-small (stride pool.per_size) (pool.blocks b).capacity (pool.blocks b).capacity
          small (omega arith) in
      let at : (i : ℕ)
          → i < (pool.blocks b).capacity
          → item_offset (stride pool.per_size) i ≡ i * stride pool.per_size =
        λ i less.
          item_offset-small (stride pool.per_size) (pool.blocks b).capacity i small (omega arith) in
      (
        λ s. record {
          flags = λ i less. rw (at i less) at (s.flags i less);
          free = s.free;
          inside = λ i less. rw top at (s.inside i less);
        },
        λ s. record {
          flags = λ i less. rw (at i less) (s.flags i less);
          free = s.free;
          inside = λ i less. rw top (s.inside i less);
        },
      )

-- frl_slab_pool_safe of a well-formed pool ends, and succeeds exactly when in every block all
-- flags are intact, the stack pointer is not busy, and all entries of the stack lie in the
-- arena.
pub pool_safe-Checks :
    (pool : Pool) (busy : ℕ → Bool)
    → PoolIsValid pool
    → Checks (BlockIsSafe pool busy) (ring pool) (pool_safe pool busy)
pool_safe-Checks pool busy v =
    let c =
      safe_ring pool busy v.chain refl (omega (arith, v.size, v.some_block))
        (omega (arith, v.size)) in
    let same : (b : ℕ)
        → has b (ring pool) ≡ true
        → BlockPasses pool busy b ↔ BlockIsSafe pool busy b =
      λ b i. BlockPasses-BlockIsSafe pool busy b (v.stocked.valid b i).small in
    record {
      result = c.result;
      runs = c.runs;
      sound = λ ok b i. (same b i).0 (c.sound ok b i);
      complete = λ all. c.complete λ b i. (same b i).1 (all b i);
    }

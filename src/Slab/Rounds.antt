-- ===== src/Slab/Rounds.antt =====
-- A loop over the ring of blocks ends after one round for each block, in the ring's order.
use alter.Common.{
  ℕ, zero, suc, ◌≤◌, ◌<◌, true, false, some, List, ◌∷◌, ◌==◌, ◌≡◌, ◌∙◌, refl, arith, foldl, has,
  length,
}
use alter.Common.Chain.{Chain, nil, cons}
use alter.Slab.Defs.{Pool}
use alter.Slab.Loops.{ring_loop}
use alter.Slab.Invariant.{PoolIsValid, ring}

module _ {ℓ} {S : Type ℓ} (next : S → ℕ → ℕ) (body : ℕ → S → S) (start : ℕ)
    (same : (s : S) (b a : ℕ) → next (body b s) a ≡ next s a) where
  loop_from :
      (f : ℕ → ℕ) (k : ℕ) {p q : ℕ} {xs : List ℕ} (s : S)
      → ((a : ℕ) → next s a ≡ f a)
      → f p ≡ q
      → has start xs ≡ false
      → Chain f start q xs
      → length xs ≤ k
      → ring_loop next body start (suc k) p s ≡ some (foldl (λ t b. body b t) s (p ∷ xs))
  unfolding ring_loop
  loop_from f k {p} s e step out nil h =
      let back : (next (body p s) p == start) ≡ true = ground (arith, same s p p, e p) in rw back
  loop_from f zero s e step out (cons step' fresh c) h = absurd (omega arith)
  loop_from f (suc k) {p} {q} s e step out (cons step' fresh c) h =
      let next_q : next (body p s) p ≡ q = same s p p ∙ e p ∙ step in
      let more : (q == start) ≡ false = ground arith in
      rw (next_q, more)
        (loop_from f k (body p s) (λ a. same s p a ∙ e a) step' (ground arith) c (omega arith))

  loop_over :
      (f : ℕ → ℕ) (k p : ℕ) {xs : List ℕ} (s : S)
      → ((a : ℕ) → next s a ≡ f a)
      → Chain f start p xs
      → p ≡ start
      → 0 < length xs
      → length xs ≤ k
      → ring_loop next body start k p s ≡ some (foldl (λ t b. body b t) s xs)
  loop_over f k p s e nil is pos h = absurd (omega arith)
  loop_over f zero p s e (cons step out c) is pos h = absurd (omega arith)
  loop_over f (suc k) p s e (cons step out c) is pos h =
      loop_from f k s e step (rw is at out) c (omega arith)

-- A body that leaves the `next` pointers alone is run once for each block of the ring.
pub ring_loop-foldl {ℓ} :
    {S : Type ℓ} (next : S → ℕ → ℕ) (body : ℕ → S → S) {pool : Pool}
    → PoolIsValid pool
    → ((s : S) (b a : ℕ) → next (body b s) a ≡ next s a)
    → (s : S) → ((a : ℕ) → next s a ≡ (pool.blocks a).next)
    → ring_loop next body pool.block pool.n_blocks pool.block s
      ≡ some (foldl (λ t b. body b t) s (ring pool))
ring_loop-foldl next body {pool} v same s e =
    loop_over next body pool.block same (λ a. (pool.blocks a).next) pool.n_blocks pool.block s e
      v.chain refl (omega (arith, v.size, v.some_block)) (omega (arith, v.size))

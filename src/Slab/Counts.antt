-- ===== src/Slab/Counts.antt =====
-- Reference counts of items: frl_slab_ref and frl_slab_unref of src/lib/frl_slab_pool.c.
use alter.Common.{
  ℕ, zero, suc, ◌+◌, ◌-◌, ◌%◌, ◌^◌, ◌≤◌, ◌<◌, false, Option, some, ◌==◌, if◌then◌else◌, update, ◌≡◌,
  ◌≢◌, ◌⊎◌, ◌↔◌, inl, inr, arith, refl, ◌>>=◌,
}
use alter.Slab.Defs.{Pool, sizeof_frl_mem_t}
use alter.Slab.Alloc.{pfree}
use alter.Slab.Invariant.{RingIsValid, PoolIsValid, Live, ring}
use alter.Slab.Growth.{SameItems, Stocked-same, Used-same}
use alter.Slab.Release.{Freed, pfree-Freed, RingIsValid-ring, PoolIsValid-of_ring}

-- The count of a pointer's item is set.
unfoldable pub set_refcount : (pointer count : ℕ) → Pool → Pool
set_refcount pointer n pool =
    let item = pointer - sizeof_frl_mem_t in
    record pool { mem = update pool.mem item (record (pool.mem item) { refcount = n }) }

abbrev pub refcount : ℕ → Pool → ℕ
refcount pointer pool = (pool.mem (pointer - sizeof_frl_mem_t)).refcount

-- `frl_slab_ref`
unfoldable pub ref : ℕ → Pool → Pool
unfolding set_refcount
ref pointer pool = set_refcount pointer ((refcount pointer pool + 1) % 2 ^ 32) pool

-- `frl_slab_unref`: apr_atomic_dec32 tells whether the count is now 0.
unfoldable pub unref : ℕ → Pool → Option Pool
unfolding set_refcount pfree
unref pointer pool =
    let n = (refcount pointer pool + 2 ^ 32 - 1) % 2 ^ 32 in
    let pool' = set_refcount pointer n pool in if n == 0 then pfree pointer pool' else some pool'

-- `n` calls of frl_slab_ref, and `n` of frl_slab_unref.
unfoldable pub refs : ℕ → ℕ → Pool → Pool
unfolding ref
refs zero pointer pool = pool
refs (suc n) pointer pool = refs n pointer (ref pointer pool)

unfoldable pub unrefs : ℕ → ℕ → Pool → Option Pool
unfolding unref
unrefs zero pointer pool = some pool
unrefs (suc n) pointer pool = unref pointer pool >>= unrefs n pointer

-- The pool is well formed, and the same pointers are handed out in both.
pub record SameLive (pool pool' : Pool) : Type 0 where
  pub keeps_valid : PoolIsValid pool'
  pub same : (q : ℕ) → Live pool' q ↔ Live pool q

module _ {pool : Pool} (v : PoolIsValid pool) (p n : ℕ) where
  recounted : SameItems pool (set_refcount p n pool)
  unfolding set_refcount
  recounted = record {
    per_size = refl;
    mem = λ a. (ground arith, ground arith);
    stack_pointer = λ b. refl;
    usage_stack = λ b. refl;
    capacity = λ b. refl;
    arena = λ b. refl;
  }

  recounted-RingIsValid : RingIsValid (set_refcount p n pool) (ring pool)
  unfolding set_refcount
  recounted-RingIsValid = record {
    unlocked = v.unlocked;
    chain = v.chain;
    size = v.size;
    some_block = v.some_block;
    stocked = Stocked-same recounted v.stocked;
  }

  set_refcount-SameLive : SameLive pool (set_refcount p n pool)
  set_refcount-SameLive = record {
    keeps_valid = PoolIsValid-of_ring recounted-RingIsValid;
    same = λ q.
        let e = RingIsValid-ring recounted-RingIsValid in
        (
          λ l. record {
            above = l.above;
            used = (Used-same recounted (q - sizeof_frl_mem_t)).0 (rw e at l.used);
          },
          λ l. record {
            above = l.above;
            used = rw e ((Used-same recounted (q - sizeof_frl_mem_t)).1 l.used);
          },
        );
  }

refcount-set : (p n : ℕ) (pool : Pool) → refcount p (set_refcount p n pool) ≡ n
unfolding set_refcount
refcount-set p n pool = ground arith

-- What `m` calls of frl_slab_unref on a pointer with the count `c` give: the pointer is no longer
-- handed out when there are as many calls as the count, and every other is handed out as before.
pub record Released (m c p : ℕ) (pool : Pool) (run : Option Pool) : Type 0 where
  pub pool' : Pool
  pub runs : run ≡ some pool'
  pub keeps_valid : PoolIsValid pool'
  pub live : (q : ℕ) → Live pool' q ↔ (Live pool q × ((q ≢ p) ⊎ (m < c)))

after_last :
    {pool : Pool} {p : ℕ} {q : Pool}
    → SameLive pool q
    → (pool' : Pool) × Freed p q pool'
    → Released 1 1 p pool (pfree p q)
after_last same (pool', f) = record {
  pool' = pool';
  runs = f.runs;
  keeps_valid = f.keeps_valid;
  live = λ a. (
    λ l. let w = (f.gone a).0 l in ((same.same a).0 w.0, inl w.1),
    λ (l, out).
        (f.gone a).1
          ((same.same a).1 l, elim out [ inl ne ↦ ne | inr less ↦ absurd (omega arith) ]),
  );
}

through :
    {pool q : Pool} {m c p : ℕ} {run : Option Pool}
    → SameLive pool q
    → Released m c p q run
    → Released (suc m) (suc c) p pool run
through same r = record {
  pool' = r.pool';
  runs = r.runs;
  keeps_valid = r.keeps_valid;
  live = λ a. (
    λ l.
        let w = (r.live a).0 l in
        ((same.same a).0 w.0, elim w.1 [ inl ne ↦ inl ne | inr less ↦ inr (omega arith) ]),
    λ (l, out).
        (r.live a).1
          ((same.same a).1 l, elim out [ inl ne ↦ inl ne | inr less ↦ inr (omega arith) ]),
  );
}

unref-last :
    (p : ℕ) (pool : Pool) → refcount p pool ≡ 1 → unref p pool ≡ pfree p (set_refcount p 0 pool)
unfolding unref
unref-last p pool e = simp e

unref-more :
    (p c : ℕ) (pool : Pool)
    → refcount p pool ≡ suc (suc c)
    → suc (suc c) < 2 ^ 32
    → unref p pool ≡ some (set_refcount p (suc c) pool)
unfolding unref
unref-more p c pool e small =
    let less : (refcount p pool + 2 ^ 32 - 1) % 2 ^ 32 ≡ suc c = omega (arith, e) in
    let counted : (suc c == 0) ≡ false = ground arith in simp (less, counted)

-- No further call.
last_run :
    {pool : Pool} {m c p : ℕ} {run : Option Pool}
    → Released m c p pool run
    → Released m c p pool (run >>= unrefs zero p)
unfolding unrefs
last_run r = record {
  pool' = r.pool';
  runs = rw r.runs refl;
  keeps_valid = r.keeps_valid;
  live = r.live;
}

unrefs-from :
    (m c p : ℕ) (pool : Pool)
    → PoolIsValid pool
    → Live pool p
    → refcount p pool ≡ suc c
    → suc c < 2 ^ 32
    → m ≤ suc c
    → Released m (suc c) p pool (unrefs m p pool)
unfolding unrefs
unrefs-from zero c p pool v l e small h = record {
  pool' = pool;
  runs = refl;
  keeps_valid = v;
  live = λ q. (λ k. (k, inr (omega arith)), λ w. w.0);
}
unrefs-from (suc zero) zero p pool v l e small h =
    let same = set_refcount-SameLive v p 0 in
    rw (unref-last p pool e)
      (last_run (after_last same (pfree-Freed same.keeps_valid p ((same.same p).1 l))))
unrefs-from (suc (suc m)) zero p pool v l e small h = absurd (omega arith)
unrefs-from (suc m) (suc c) p pool v l e small h =
    let same = set_refcount-SameLive v p (suc c) in
    rw (unref-more p c pool e small) (
      through same (
        unrefs-from m c p (set_refcount p (suc c) pool) same.keeps_valid ((same.same p).1 l)
          (refcount-set p (suc c) pool) (omega arith) (omega arith)))

ref-eq :
    (p : ℕ) (pool : Pool)
    → refcount p pool + 1 < 2 ^ 32
    → ref p pool ≡ set_refcount p (refcount p pool + 1) pool
unfolding ref
ref-eq p pool small =
    let no_wrap : (refcount p pool + 1) % 2 ^ 32 ≡ refcount p pool + 1 = omega arith in simp no_wrap

refs-SameLive :
    (n p : ℕ) (pool : Pool)
    → PoolIsValid pool
    → refcount p pool + n < 2 ^ 32
    → SameLive pool (refs n p pool) × (refcount p (refs n p pool) ≡ refcount p pool + n)
unfolding refs
refs-SameLive zero p pool v small =
    (record { keeps_valid = v; same = λ q. (λ l. l, λ l. l) }, omega arith)
refs-SameLive (suc n) p pool v small =
    let step : ref p pool ≡ set_refcount p (refcount p pool + 1) pool =
      ref-eq p pool (omega arith) in
    let same = set_refcount-SameLive v p (refcount p pool + 1) in
    let count = refcount-set p (refcount p pool + 1) pool in
    let (more, total) =
      refs-SameLive n p (set_refcount p (refcount p pool + 1) pool) same.keeps_valid
        (omega (arith, count)) in
    rw step (
      record {
        keeps_valid = more.keeps_valid;
        same = λ q.
            (λ l. (same.same q).0 ((more.same q).0 l), λ l. (more.same q).1 ((same.same q).1 l));
      },
      omega (arith, total, count),
    )

-- In a well-formed pool, when a pointer that is handed out, with the count 1, gets n more
-- references and m are given back, at most n + 1 and n + 1 below 2 ^ 32, it is still handed out
-- unless all are given back, every other pointer is handed out as before, and the pool is well
-- formed.
pub unrefs-refs :
    {pool : Pool} {p : ℕ}
    → PoolIsValid pool
    → Live pool p
    → refcount p pool ≡ 1
    → (m n : ℕ) → n + 1 < 2 ^ 32
    → m ≤ n + 1
    → Released m (n + 1) p pool (unrefs m p (refs n p pool))
unrefs-refs {pool} {p} v l e m n small h =
    let (same, count) = refs-SameLive n p pool v (omega (arith, e)) in
    let r =
      unrefs-from m n p (refs n p pool) same.keeps_valid ((same.same p).1 l)
        (omega (arith, e, count)) (omega arith) (omega arith) in
    record {
      pool' = r.pool';
      runs = r.runs;
      keeps_valid = r.keeps_valid;
      live = λ q. (
        λ k.
            let w = (r.live q).0 k in
            ((same.same q).0 w.0, elim w.1 [ inl ne ↦ inl ne | inr less ↦ inr (omega arith) ]),
        λ (k, out).
            (r.live q).1
              ((same.same q).1 k, elim out [ inl ne ↦ inl ne | inr less ↦ inr (omega arith) ]),
      );
    }

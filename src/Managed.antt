-- ===== src/Managed.antt =====
-- Memory with reference counts: src/lib/frl_managed_mem.c.
use alter.Common.{
  ℕ, zero, suc, ◌+◌, ◌-◌, ◌%◌, ◌^◌, ◌≤◌, ◌<◌, Option, some, List, ◌∷◌, ◌==◌, if◌then◌else◌, update,
  ◌>>=◌, ◌≡◌, arith, refl, ◌∙◌,
}

-- Words by address, and what has been given to `free`, the last first.
pub record Heap : Type 0 where
  pub word : ℕ → ℕ
  pub freed : List ℕ

-- `frl_managed_malloc`, with the result of `malloc` as an argument. It is not looked at, and NULL
-- would be written through.
unfoldable pub managed_malloc : Option ℕ → Heap → Option (ℕ × Heap)
managed_malloc p h = p >>= λ mem. some (mem + 4, record h { word = update h.word mem 1 })

-- `frl_managed_ref`
unfoldable pub managed_ref : (pointer : ℕ) → Heap → Heap
managed_ref pointer h =
    let mem = pointer - 4 in record h { word = update h.word mem ((h.word mem + 1) % 2 ^ 32) }

-- `frl_managed_unref`: at 0 the word behind the count is cleared, and the memory freed.
unfoldable pub managed_unref : (pointer : ℕ) → Heap → Heap
managed_unref pointer h =
    let mem = pointer - 4 in
    let refcount = (h.word mem + 2 ^ 32 - 1) % 2 ^ 32 in
    let word = update h.word mem refcount in
    if refcount == 0
    then record { word = update word (mem + 4) 0; freed = mem ∷ h.freed }
    else record h { word = word }

-- `frl_managed_free`
unfoldable pub managed_free : (pointer : ℕ) → Heap → Heap
managed_free pointer h = record h { freed = (pointer - 4) ∷ h.freed }

unfoldable pub managed_refs : ℕ → (pointer : ℕ) → Heap → Heap
unfolding managed_ref
managed_refs zero p h = h
managed_refs (suc n) p h = managed_refs n p (managed_ref p h)

unfoldable pub managed_unrefs : ℕ → (pointer : ℕ) → Heap → Heap
unfolding managed_unref
managed_unrefs zero p h = h
managed_unrefs (suc n) p h = managed_unrefs n p (managed_unref p h)

managed_refs-word :
    (n p : ℕ) (h : Heap)
    → h.word (p - 4) + n < 2 ^ 32
    → ((managed_refs n p h).word (p - 4) ≡ h.word (p - 4) + n)
      × ((managed_refs n p h).freed ≡ h.freed)
unfolding managed_refs
managed_refs-word zero p h small = (omega arith, refl)
managed_refs-word (suc n) p h small =
    let step : (managed_ref p h).word (p - 4) ≡ h.word (p - 4) + 1 = ground arith in
    let (count, same) = managed_refs-word n p (managed_ref p h) (omega (arith, step)) in
    (omega (arith, count, step), same)

managed_unrefs-freed :
    (m c p : ℕ) (h : Heap)
    → h.word (p - 4) ≡ suc c
    → suc c < 2 ^ 32
    → m ≤ suc c
    → (managed_unrefs m p h).freed ≡ (if m == suc c then (p - 4) ∷ h.freed else h.freed)
unfolding managed_unrefs
managed_unrefs-freed zero c p h e small le = ground arith
managed_unrefs-freed (suc zero) zero p h e small le = ground (arith, e)
managed_unrefs-freed (suc (suc m)) zero p h e small le = absurd (omega arith)
managed_unrefs-freed (suc m) (suc c) p h e small le =
    let less : (h.word (p - 4) + 2 ^ 32 - 1) % 2 ^ 32 ≡ suc c = omega (arith, e) in
    let count : (managed_unref p h).word (p - 4) ≡ suc c = ground (arith, less) in
    let same : (managed_unref p h).freed ≡ h.freed = ground (arith, less) in
    managed_unrefs-freed m c p (managed_unref p h) count (omega arith) (omega arith)
    ∙ ground (arith, same)

-- When managed memory with the count 1 gets n more references and m are given back, at most n +
-- 1 and n + 1 below 2 ^ 32, it is freed, once, exactly when all are given back, and nothing else
-- is freed.
pub managed_unrefs-refs :
    (p m n : ℕ) (h : Heap)
    → h.word (p - 4) ≡ 1
    → n + 1 < 2 ^ 32
    → m ≤ n + 1
    → (managed_unrefs m p (managed_refs n p h)).freed
      ≡ (if m == n + 1 then (p - 4) ∷ h.freed else h.freed)
managed_unrefs-refs p m n h e small le =
    let (count, same) = managed_refs-word n p h (omega (arith, e)) in
    managed_unrefs-freed m n p (managed_refs n p h) (omega (arith, count, e)) (omega arith)
      (omega arith)
    ∙ ground (arith, same)

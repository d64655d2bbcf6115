-- ===== src/Worker/Sizes.antt =====
-- Alter::Allocator of src/worker/alter.h and src/worker/alter.cpp: pools of sizes that double.
use alter.Common.{
  ℕ, zero, suc, ◌+◌, ◌*◌, ◌%◌, ◌^◌, ◌≤◌, ◌<◌, ◌⊎◌, ◌↔◌, ltb, if◌then◌else◌, update, Option, none,
  some, ◌>>=◌, ◌≡◌, refl, ap, sym, ◌∙◌, arith, inl, inr, Bool-cases,
}
use alter.Allocator.{Allocator, Allocates, hands_out, no_memory}

-- `Alter::Allocator`, with the states of the pools in `chain`.
pub record Sizes (S : Type 0) : Type 0 where
  pub min : ℕ
  pub total : ℕ
  pub chain : ℕ → S

-- `k <<= 1` on 32 bits.
abbrev pub double : ℕ → ℕ
double k = k * 2 % 2 ^ 32

-- The sizes with which the constructor makes the pools: `k` after `i` rounds.
unfoldable pub size_from : (k i : ℕ) → ℕ
size_from k zero = k
size_from k (suc i) = size_from (double k) i

unfoldable pub per_size : {S : Type 0} → Sizes S → (i : ℕ) → ℕ
unfolding size_from
per_size a i = size_from (a.min % 2 ^ 32) i

-- The loop of alloc, with `n` rounds left: the first pool whose `k` is above the size.
unfoldable pub class_from : (n i k size : ℕ) → Option ℕ
class_from zero i k size = none
class_from (suc n) i k size =
    let rest = class_from n (i + 1) (double k) size in if ltb size k then some i else rest

module _ (al : Allocator) where
  -- What frl_slab_palloc of the pool `i` gives, in the chain.
  abbrev pub in_chain :
      (a : Sizes al.State) → (i : ℕ) → Option ℕ × al.State → Option ℕ × Sizes al.State
  in_chain a i (p, s) = (p, record a { chain = update a.chain i s })

  abbrev pub from_class :
      al.Request → Sizes al.State → Option ℕ → Option (Option ℕ × Sizes al.State)
  from_class r a none = some (none, a)
  from_class r a (some i) = al.palloc r (a.chain i) >>= λ run. some (in_chain a i run)

  -- `Alter::Allocator::alloc`
  unfoldable pub alloc :
      al.Request → (size : ℕ) → Sizes al.State → Option (Option ℕ × Sizes al.State)
  unfolding class_from
  alloc r size a = from_class r a (class_from a.total 0 (a.min % 2 ^ 32) size)

-- The class that a size gets: it fits, and no class before does.
pub record IsClass {S : Type 0} (a : Sizes S) (size i : ℕ) : Type 0 where
  pub bound : i < a.total
  pub fits : size < per_size a i
  pub first : (j : ℕ) → j < i → per_size a j ≤ size

-- How a search for a class that is at `i` with `n` rounds left ends.
pub data Found {S : Type 0} (a : Sizes S) (size : ℕ) : Option ℕ → Type 0 where
  found : {i : ℕ} → IsClass a size i → Found a size (some i)
  too_large : ((j : ℕ) → j < a.total → per_size a j ≤ size) → Found a size none

size_from-double : (k i : ℕ) → size_from k (i + 1) ≡ double (size_from k i)
unfolding size_from
size_from-double k zero = refl
size_from-double k (suc i) =
    let e : suc i + 1 ≡ suc (i + 1) = omega arith in rw e (size_from-double (double k) i)

class_from-Found :
    {S : Type 0} (a : Sizes S) (size n i k : ℕ)
    → i + n ≡ a.total
    → k ≡ per_size a i
    → ((j : ℕ) → j < i → per_size a j ≤ size)
    → Found a size (class_from n i k size)
unfolding class_from
class_from-Found a size zero i k all here before = too_large λ j below. before j (omega arith)
class_from-Found a size (suc n) i k all here before = elim (Bool-cases (ltb size k)) [
  | inl fits ↦
      rw fits
        (found (record { bound = omega arith; fits = ground (arith, fits, here); first = before }))
  | inr more ↦ rw more (
      class_from-Found a size n (i + 1) (double k) (omega arith)
        (ap double here ∙ unfold per_size in sym (size_from-double (a.min % 2 ^ 32) i))
        λ j below. ground (arith, before j, more, here))
]

-- The loop of alloc from its start.
alloc-Found :
    {S : Type 0} (a : Sizes S) (size : ℕ)
    → Found a size (class_from a.total 0 (a.min % 2 ^ 32) size)
alloc-Found a size =
    class_from-Found a size a.total 0 (a.min % 2 ^ 32) (omega arith) (unfold per_size in refl)
      λ j below. absurd (omega arith)

-- How a call of `alloc` ends: no class has items above the size, or the pool of the first one that has
-- hands out an item, or has no memory.
pub data Served (al : Allocator) (a : Sizes al.State) (size : ℕ)
    : Option (Option ℕ × Sizes al.State) → Type 0 where
  no_class : ((j : ℕ) → j < a.total → per_size a j ≤ size) → Served al a size (some (none, a))
  from_pool :
      (i p : ℕ) (s : al.State)
      → IsClass a size i
      → al.IsValid s
      → 0 < p
      → ¬ al.Live (a.chain i) p
      → ((q : ℕ) → al.Live s q ↔ ((q ≡ p) ⊎ al.Live (a.chain i) q))
      → Served al a size (some (some p, record a { chain = update a.chain i s }))
  out_of_memory :
      (i : ℕ) (s : al.State)
      → IsClass a size i
      → Served al a size (some (none, record a { chain = update a.chain i s }))

from_pool-Served :
    (al : Allocator) (a : Sizes al.State) (size i : ℕ)
    → IsClass a size i
    → {run : Option (Option ℕ × al.State)} → Allocates al.IsValid al.Live (a.chain i) run
    → Served al a size (run >>= λ run. some (in_chain al a i run))
from_pool-Served al a size i c (hands_out {p} {s'} valid positive fresh live) =
    from_pool i p s' c valid positive fresh live
from_pool-Served al a size i c (no_memory {s'}) = out_of_memory i s' c

from_class-Served :
    (al : Allocator) (a : Sizes al.State) (size : ℕ) (r : al.Request)
    → ((i : ℕ) → i < a.total → al.IsValid (a.chain i) × al.IsReady (a.chain i) r)
    → {o : Option ℕ} → Found a size o
    → Served al a size (from_class al r a o)
from_class-Served al a size r ready (found {i} c) =
    let (valid, enough) = ready i c.bound in
    from_pool-Served al a size i c (al.palloc-Allocates (a.chain i) r valid enough)
from_class-Served al a size r ready (too_large large) = no_class large

-- In pools that are ready, Alter::Allocator::alloc hands out a new item of the first pool whose
-- items are larger than the size, or finds no memory there, and changes no other pool; or no
-- pool has items larger than the size, and it returns NULL and changes nothing.
pub alloc-Served :
    (al : Allocator) (a : Sizes al.State) (size : ℕ) (r : al.Request)
    → ((i : ℕ) → i < a.total → al.IsValid (a.chain i) × al.IsReady (a.chain i) r)
    → Served al a size (alloc al r size a)
unfolding alloc
alloc-Served al a size r ready = from_class-Served al a size r ready (alloc-Found a size)

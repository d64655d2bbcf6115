-- ===== src/Slab/Api.antt =====
-- The slab pool as an allocator for the containers.
use alter.Common.{ℕ, Option, none, some}
use alter.Allocator.{Allocator, Allocates, hands_out, no_memory, Frees, freed}
use alter.Slab.Defs.{Pool, Mallocs}
use alter.Slab.Alloc.{palloc, pfree}
use alter.Slab.Invariant.{PoolIsValid, Live}
use alter.Slab.Release.{pfree-Freed}
use alter.Slab.Allocation.{Fits}
use alter.Slab.Palloc.{Outcome, palloc-Returns}

Returns-Allocates :
    (g : Mallocs) {pool pool' : Pool} (p : Option ℕ)
    → Outcome g pool p pool'
    → Allocates PoolIsValid Live pool (some (p, pool'))
Returns-Allocates g none o = no_memory
Returns-Allocates g (some p) o = hands_out o.keeps_valid o.not_null o.fresh o.added

pub pool-Allocates :
    (pool : Pool) (g : Mallocs)
    → PoolIsValid pool
    → Fits pool g
    → Allocates PoolIsValid Live pool (palloc g pool)
pool-Allocates pool g v fits =
    let r = palloc-Returns v g fits in rw r.runs (Returns-Allocates g r.pointer r.outcome)

pub pool-Frees :
    (pool : Pool) (p : ℕ)
    → PoolIsValid pool
    → Live pool p
    → Frees PoolIsValid Live pool p (pfree p pool)
pool-Frees pool p v live =
    let (pool', f) = pfree-Freed v p live in rw f.runs (freed f.keeps_valid f.gone)

-- The slab pool with a lock meets the interface.
abbrev pub slab_allocator : Allocator
slab_allocator = record {
  State = Pool;
  Request = Mallocs;
  IsValid = PoolIsValid;
  IsReady = Fits;
  Live = Live;
  palloc = palloc;
  pfree = pfree;
  palloc-Allocates = pool-Allocates;
  pfree-Frees = pool-Frees;
}

-- ===== src/Slab.antt =====
-- The slab pool: src/lib/frl_slab_pool.h and src/lib/frl_slab_pool.c.
pub mod Defs
pub mod Alloc
pub mod Loops
pub mod Invariant
pub mod Search
pub mod Stock
pub mod Growth
pub mod Release
pub mod Rounds
pub mod Sweep
pub mod Fresh
pub mod Api
pub mod Allocation
pub mod Palloc
pub mod Counts
pub mod Checkup
pub mod LockFree
pub mod Sharing
pub mod Races

-- ===== src/Radix.antt =====
-- The radix tree: src/lib/frl_radix_tree.h and src/lib/frl_radix_tree.c, the variants with a lock.
pub mod Defs
pub mod Lookup
pub mod Walk
pub mod Insertion
pub mod Adds
pub mod Twice
pub mod Create
pub mod Remove
pub mod Cut
pub mod Removal

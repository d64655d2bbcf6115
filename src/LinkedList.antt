-- ===== src/LinkedList.antt =====
-- The doubly linked list: src/lib/frl_list.h and src/lib/frl_list.c, the variants with a lock.
pub mod Defs
pub mod Invariant
pub mod Lookup
pub mod Insertion
pub mod Add
pub mod Remove
pub mod Stale
pub mod Switch
pub mod Lifetime

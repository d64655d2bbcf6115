-- ===== src/Hash.antt =====
-- The hash table of src/lib/frl_hash.c: an array of linked lists.
pub mod Defs
pub mod Lookup

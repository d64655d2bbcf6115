-- ===== src/Queue.antt =====
-- The queue: src/lib/frl_queue.h and src/lib/frl_queue.c.
pub mod Defs
pub mod Invariant
pub mod Push
pub mod Take
pub mod Trypop
pub mod Wait
pub mod LockFree
pub mod Links
pub mod Fifo
pub mod Turns
pub mod Runs
pub mod Order
pub mod Create

-- ===== src/Threads.antt =====
-- The thread pool of src/lib/frl_util_threads.cpp and .h.
pub mod Admission
pub mod Defs
pub mod Tally
pub mod Leader
pub mod Opening
pub mod Runs
pub mod Consumers
pub mod Wakeup

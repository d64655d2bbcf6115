-- ===== src/Worker.antt =====
-- The worker: src/worker/alter.h and src/worker/alter.cpp.
pub mod Sizes
pub mod Release
pub mod Registry
pub mod Seats
pub mod Enrolment

-- ===== src/Server.antt =====
-- The event-driven socket server of src/lib/frl_util_server_event.cpp and .h.
pub mod Defs
pub mod Listener
pub mod Load
pub mod Polling
pub mod Runs
pub mod Reply

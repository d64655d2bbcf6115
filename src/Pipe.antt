-- ===== src/Pipe.antt =====
-- The socket pipe: src/lib/frl_util_socket_pipe.h and src/lib/frl_util_socket_pipe.cpp.
pub mod Defs
pub mod Receiver
pub mod Sender
pub mod Spawn
pub mod Block
pub mod Arrival
pub mod Exchange
pub mod Message
pub mod RoundTrip
pub mod Faults

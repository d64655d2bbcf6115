-- ===== src/MultiSock.antt =====
-- One thread that accepts and many that read: src/lib/frl_util_multi_sock.h and
-- src/lib/frl_util_multi_sock.cpp.
pub mod Defs
pub mod Claims
pub mod Sockets
pub mod Runs

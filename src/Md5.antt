-- ===== src/Md5.antt =====
-- frl_md5 of src/lib/frl_util_md5.cpp and .h: the 128 bits of a digest as text, and their order.
pub mod Defs
pub mod Bits
pub mod RoundTrip
pub mod Order

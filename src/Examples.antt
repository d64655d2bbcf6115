-- ===== src/Examples.antt =====
-- Runs of each part on small inputs.
mod SlabPool
mod Queues
mod SharedQueues
mod Workers
mod MultiSocks
mod Lists
mod RadixTree
mod Pipes
mod Servers
mod ThreadPools
mod Digests
mod Hashes

-- ===== src/Lib.antt =====
-- A development on the Fotas Runtime Library in src/lib: the slab pool, the queue, the doubly linked
-- list and the radix tree, in C, and the socket pipe, the event-driven server and the thread pool over
-- them, in C++; and on the worker of src/worker, which is built of these.
--
-- The parts and how they interact. A slab pool (src/lib/frl_slab_pool.c) hands out items of one
-- size from a ring of blocks, and doubles its capacity when all blocks are full. The queue
-- (src/lib/frl_queue.c), the list (src/lib/frl_list.c) and the radix tree
-- (src/lib/frl_radix_tree.c) take their entries from a slab pool. The socket pipe
-- (src/lib/frl_util_socket_pipe.cpp) sends the messages of a queue to another process and waits for a
-- receipt of each. The server (src/lib/frl_util_server_event.cpp) spreads connections over threads that
-- poll them. The thread pool (src/lib/frl_util_threads.cpp) works on the pointers of a queue. A group of
-- sockets (src/lib/frl_util_multi_sock.cpp) has one thread that accepts and others that read. The worker
-- (src/worker/alter.cpp) takes requests from a pipe, hands them to its threads and over further pipes to the
-- workers that have registered at its server.
--
-- Slab models the pool. `Slab.Defs` has the structs and frl_slab_block_create, frl_slab_pool_create;
-- `Slab.Alloc` has frl_slab_palloc_lock_with (`palloc`), frl_slab_pfree_lock_with and frl_slab_pfree;
-- `Slab.Loops` has frl_slab_pool_clear, frl_slab_pool_destroy, frl_slab_pool_stat and
-- frl_slab_pool_safe. The state is the struct with the memory that belongs to it: an address is a
-- number, NULL is 0, and functions from addresses give the blocks, the item headers and the flags.
-- `Slab.Invariant` says when a pool is well formed (`PoolIsValid`) and which pointers are handed out
-- (`Live`). `Search` is on the walk over the ring, `Stock` on one block's stack, `Growth` on a new
-- block, `Release` on frees, `Counts` on frl_slab_ref and frl_slab_unref, `Checkup` on frl_slab_pool_safe, `Rounds`, `Sweep` and `Fresh` on the loops over all blocks, `Allocation` and
-- `Palloc` on allocation as a whole. `Slab.Api` fills the interface `Allocator`. `Slab.LockFree`
-- models what threads do with the stack of one block in frl_slab_palloc_lock_free and
-- frl_slab_pfree_lock_free, as steps in any order, and `Slab.Sharing` and `Slab.Races` are on all their runs.
--
-- Allocator is what the containers need of a pool: states, requests (what `malloc` will return), the
-- pointers in use, and the laws of an allocation and of a free.
--
-- Queue models the variants with a lock over any `Allocator`: `Queue.Defs` has the operations, named
-- as in the C file without the prefix frl_queue_ and the suffix _lock_with. `Queue.Invariant` relates a
-- queue to the list of its pointers (`Holds`). A wait on the condition variable is a step in which
-- other threads, given as a list of actions, change the queue. `Queue.LockFree` has the variants without a
-- lock, as steps that threads take in any order, each with one access to shared memory. `Queue.Links` is on
-- the chain of entries, `Queue.Fifo` has the invariant (`IsFifo`), `Queue.Turns` and `Queue.Runs` keep it, and
-- `Queue.Order` draws the conclusions for all runs.
--
-- LinkedList models the list over any `Allocator`: `LinkedList.Defs` has the operations, named as in
-- the C file without the prefix frl_list_, and `LinkedList.Switch` the choice between the variants.
-- `LinkedList.Invariant` relates a list to its entries (`Leads`,
-- `Owns`).
--
-- Radix models the radix tree over any `Allocator`: `Radix.Defs` has frl_radix_tree_get_lock_with
-- (`tree_get`) and frl_radix_tree_add_lock_with (`tree_add`). `Radix.Lookup` is on lookups, and says when
-- which nodes a lookup can find (`IsRadix`); `Radix.Walk`, `Radix.Insertion` and `Radix.Adds` are on
-- insertions, which keep a tree well formed (`IsTree`); `Radix.Twice` is on the insertion of a key that is there already,
-- `Radix.Create` on frl_radix_tree_create. `Radix.Remove` has frl_radix_tree_remove_lock_with and the choice
-- between the variants, and `Radix.Cut` and `Radix.Removal` are on the removal of a node without children.
--
-- Hash models the hash table of src/lib/frl_hash.c over LinkedList, with `hash_` for the prefix frl_hash_.
--
-- Managed models src/lib/frl_managed_mem.c, memory with a reference count in front.
--
-- Pipe models the socket pipe. `Pipe.Defs` has the structs, `Pipe.Receiver` and `Pipe.Sender` what the two
-- threads do at an event of a connection: `readable` and `writable` for APR_POLLIN and APR_POLLOUT, with
-- what the socket gives or takes as arguments. The part of `struct frl_pipe_state_t` that goes over the
-- wire is bytes by position (`Common.Bytes`). `Block`, `Arrival`, `Exchange`, `Message` and `RoundTrip` follow one
-- message from the sender's queue to the receiver's buffer and its receipt back; `Faults` is on what goes wrong.
-- `Spawn` has the threads of a pipe: frl_socket_pipe::spawn.
--
-- Server models the server: `Server.Defs` the handler at an event, `Server.Polling` and `Server.Runs` its state
-- machine, `Server.Reply` the replies, `Server.Listener` and `Server.Load` the spread of connections over handlers.
--
-- Threads models the thread pool: `Threads.Defs` with a leader and followers, `Threads.Leader` on what their steps keep,
-- `Threads.Admission` and `Threads.Opening` on the callers of frl_threads::assign, and `Threads.Runs` on whole runs;
-- `Threads.Consumers` and `Threads.Wakeup` with a producer and consumers. A step is what one thread does
-- between two points where others may come in.
--
-- Md5 models frl_md5 of src/lib/frl_util_md5.cpp but for its call of apr_md5: text and order of digests.
--
-- MultiSock models the groups of sockets: `MultiSock.Defs` the steps of the accepting thread and of the readers,
-- `MultiSock.Claims` who may write a reader's task, `MultiSock.Sockets` and `MultiSock.Runs` what becomes of each
-- socket.
--
-- Worker models the worker: `Worker.Sizes` Alter::Allocator over any `Allocator`, `Worker.Release` the count of a
-- request's buffer, which several threads drop, `Worker.Registry` Alter::Configurator, with `Worker.Seats` on one
-- registration and `Worker.Enrolment` on many.
--
-- Bounds and fuel. Fields of 32 and 64 bits wrap round (`% 2 ^ 32`, `% 2 ^ 64`). A loop over the ring
-- has one round for each block, counted by the field `n_blocks`, and the theorems show that this is
-- enough. The loops of the list have their fuel as an argument, and the theorems hold from one round
-- more than there are entries (two for frl_list_set, which starts at the head). The loops of the radix
-- tree have one round for each byte of the key, the descent of a removal has its fuel as an argument. An exchange
-- over a pipe has one round of fuel for each unit, and the theorem holds from two more than the message has bytes.
--
-- The place of an item in its arena is computed in 32 bits, so the arenas of a well-formed pool are below 4 GiB. The key of
-- a node of the radix tree has 32 bytes; a longer copy has no meaning here.
--
-- Not modelled: the ring of blocks without a lock, frl_slab_pcalloc, creation and destruction of
-- the hash table, destruction of the queue and the radix tree; the hash functions, a copy of Bob
-- Jenkins' lookup3; sockets, threads, polling and logs themselves, which are calls of the Apache
-- Portable Runtime; what the worker computes in Alter::Handler; Alter::Synthesizer, which gathers responses
-- over the hash table; the registration when all transporters are taken, whose loop does not compile;
-- the supervisor, which is empty. The results of `malloc`, of the sockets and of the virtual
-- functions are arguments. Memory is not written by anyone but the operations, if not said
-- otherwise.
pub mod Common
pub mod Allocator
pub mod Slab
pub mod Queue
pub mod LinkedList
pub mod Radix
pub mod Managed
pub mod Pipe
pub mod Server
pub mod Threads
pub mod Md5
pub mod Hash
pub mod MultiSock
pub mod Worker
mod Examples

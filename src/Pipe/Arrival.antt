-- ===== src/Pipe/Arrival.antt =====
-- The receiver takes a block in.
use alter.Common.{
  ℕ, ◌+◌, ◌-◌, ◌≤◌, true, false, List, leb, ltb, ◌==◌, if◌then◌else◌, length, none, ◌≡◌, arith, ap,
}
use alter.Common.Bytes.{read, write}
use alter.Pipe.Defs.{
  u32, Connection, read_block_start, Io, done, aim, advance, after_io, proceed,
  sizeof_frl_pipe_header_t, sizeof_frl_pipe_block_buffer, unit_size, buffer_at, start_at, size_at,
  hash_at, to_complete, watch_in,
}
use alter.Pipe.Receiver.{Hooks, on_block, on_data, readable, switch_in, progress_in}

-- A connection whose unit is complete after `bs`.
abbrev pub completed : List ℕ → Connection → Connection
completed bs c = record (advance (length bs) c) {
  bytes = write c.bytes c.reader bs;
  offset = c.size;
  state = to_complete c.state;
}

pub after_io_complete :
    (io : Io) (n : ℕ) (c : Connection)
    → c.size ≤ c.offset + n
    → after_io io n c
      ≡ proceed (record (advance n c) { offset = c.size; state = to_complete c.state })
unfolding after_io
after_io_complete io n c h = let full : leb c.size (c.offset + n) ≡ true = ground arith in rw full

pub readable_complete :
    (hooks : Hooks) (bs : List ℕ) (c : Connection) (memory : ℕ → ℕ)
    → c.size ≤ c.offset + length bs
    → readable hooks done bs c memory
      ≡ switch_in hooks (to_complete c.state) (completed bs c) memory
readable_complete hooks bs c memory h =
    unfold readable in
    ap (progress_in hooks memory)
      (after_io_complete done (length bs) (record c { bytes = write c.bytes c.reader bs }) h)

-- What on_block finds in a connection when the block of the bytes from `o` to `o + n` is there.
pub record Received (hooks : Hooks) (c : Connection) (chunk : List ℕ) (target len o n : ℕ)
    : Type 0 where
  pub size : c.size ≡ n + sizeof_frl_pipe_header_t
  pub mark : c.data_mark ≡ o
  pub data_buf : c.data_buf ≡ target
  pub data_size : c.data_size ≡ len
  pub block_length : size_at c.bytes buffer_at ≡ n
  pub block_hash : hash_at c.bytes buffer_at ≡ u32 (hooks.hashlittle chunk)
  pub block_data : read c.bytes start_at n ≡ chunk

-- The connection behind a block, and the state in which it waits for the next one.
abbrev pub behind : Connection → ℕ → Connection
behind c mark = record c { data_mark = mark }

abbrev pub next_block : Connection → (len mark : ℕ) → Connection
next_block c len mark = aim buffer_at (unit_size (len - mark)) read_block_start (behind c mark)

pub on_block-Received :
    (hooks : Hooks) (c : Connection) (memory : ℕ → ℕ) {chunk : List ℕ} {target len o n : ℕ}
    → Received hooks c chunk target len o n
    → n ≤ sizeof_frl_pipe_block_buffer
    → o + n ≤ len
    → on_block hooks c memory ≡ (
        if leb len (o + n)
        then on_data hooks (behind c (o + n)) (write memory (target + o) chunk)
        else record {
          watch = watch_in (next_block c len (o + n));
          memory = write memory (target + o) chunk;
          received = none;
        })
unfolding on_block
on_block-Received hooks c memory {chunk} {target} {len} {o} {n} g small fits =
    let in_block : ltb sizeof_frl_pipe_block_buffer n ≡ false = ground arith in
    let in_buffer : ltb len (o + n) ≡ false = ground arith in
    let whole : n + sizeof_frl_pipe_header_t - sizeof_frl_pipe_header_t ≡ n = omega arith in
    let intact : (u32 (hooks.hashlittle chunk) == u32 (hooks.hashlittle chunk)) ≡ true =
      ground arith in
    simp (
      intact, g.size, g.mark, g.data_buf, g.data_size, g.block_length, whole, g.block_data,
      g.block_hash, in_block, in_buffer,
    )

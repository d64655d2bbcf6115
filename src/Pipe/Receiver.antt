-- ===== src/Pipe/Receiver.antt =====
-- thread_socket_pipe_receiver of src/lib/frl_util_socket_pipe.cpp: what it does with a connection at
-- each event. The set of polled sockets is seen from the connection: after an event it waits for
-- input or for output, or it is closed, its state freed.
use alter.Common.{
  ℕ, ◌+◌, ◌-◌, Bool, List, leb, ltb, ◌==◌, if◌then◌else◌, length, Option, none, some, not, ◌||◌,
}
use alter.Common.Bytes.{read, write}
use alter.Pipe.Defs.{
  u32, Connection, Stage, read_header_start, read_header_complete, read_block_start,
  read_block_complete, send_header_start, send_header_complete, disabled, Io, aim, after_io,
  proceed, give_up, Progress, sizeof_frl_pipe_header_t, unit_size, sizeof_frl_pipe_block_buffer,
  Watch, watch_in, watch_out, closed, out_of_bounds, header_at, buffer_at, start_at, size_at,
  hash_at,
}

-- After an event: the connection, the memory, and the buffer and length that recv_after got.
pub record Handled : Type 0 where
  pub watch : Watch
  pub memory : ℕ → ℕ
  pub received : Option (ℕ × ℕ)

-- The virtual functions of the pipe that the receiver calls, and hashlittle on a run of bytes.
-- `recv_before` gets the size of a message and gives a buffer and its size, or interrupts;
-- `recv_after` says whether it interrupts.
pub record Hooks : Type 0 where
  pub recv_before : ℕ → Option (ℕ × ℕ)
  pub recv_after : (buf len : ℕ) → Bool
  pub hashlittle : List ℕ → ℕ

-- A new connection.
unfoldable pub accepted : Connection → Connection
accepted c = aim header_at sizeof_frl_pipe_header_t read_header_start c

unfoldable pub on_buffer : Connection → (ℕ → ℕ) → Option (ℕ × ℕ) → Handled
on_buffer c memory none = record { watch = closed; memory = memory; received = none }
on_buffer c memory (some (buf, size)) = record {
  watch = watch_in (
      aim buffer_at (unit_size size) read_block_start
        (record c { data_buf = buf; data_mark = 0; data_size = size }));
  memory = memory;
  received = none;
}

-- `case FRL_PIPE_READ_HEADER_COMPLETE`
unfoldable pub on_header : Hooks → Connection → (ℕ → ℕ) → Handled
unfolding on_buffer
on_header hooks c memory = on_buffer c memory (hooks.recv_before (size_at c.bytes header_at))

-- All blocks are there: the hash of the whole is compared, and the header is sent back.
unfoldable pub on_data : Hooks → Connection → (ℕ → ℕ) → Handled
on_data hooks c memory =
    let whole = read memory c.data_buf c.data_size in
    if u32 (hooks.hashlittle whole) == hash_at c.bytes header_at
    then record {
      watch =
          if hooks.recv_after c.data_buf c.data_size
          then closed
          else watch_out (aim header_at sizeof_frl_pipe_header_t send_header_start c);
      memory = memory;
      received = some (c.data_buf, c.data_size);
    }
    else record { watch = closed; memory = memory; received = none }

-- `case FRL_PIPE_READ_BLOCK_COMPLETE`. `memcpy` comes before any check of the block's size. It goes
-- out of bounds when the size is larger than the block, or than what is left of the buffer.
unfoldable pub on_block : Hooks → Connection → (ℕ → ℕ) → Handled
unfolding on_data
on_block hooks c memory =
    let n = size_at c.bytes buffer_at in
    let memory' = write memory (c.data_buf + c.data_mark) (read c.bytes start_at n) in
    let hash = u32 (hooks.hashlittle (read c.bytes start_at (c.size - sizeof_frl_pipe_header_t))) in
    let mark = c.data_mark + n in
    let c' = record c { data_mark = mark } in
    let rest = c.data_size - mark in
    let next = aim buffer_at (unit_size rest) read_block_start c' in
    if ltb sizeof_frl_pipe_block_buffer n || ltb c.data_size mark
    then record { watch = out_of_bounds; memory = memory; received = none }
    else if not (hash == hash_at c.bytes buffer_at)
    then record { watch = closed; memory = memory'; received = none }
    else if leb c.data_size mark
    then on_data hooks c' memory'
    else record { watch = watch_in next; memory = memory'; received = none }

-- `switch (pipestate->state)` behind apr_socket_recv.
unfoldable pub switch_in : Hooks → Stage → Connection → (ℕ → ℕ) → Handled
unfolding on_header on_block
switch_in hooks read_header_complete c memory = on_header hooks c memory
switch_in hooks read_block_complete c memory = on_block hooks c memory
switch_in hooks _ c memory = record { watch = watch_in c; memory = memory; received = none }

unfoldable pub progress_in : Hooks → (ℕ → ℕ) → Progress → Handled
unfolding switch_in
progress_in hooks memory give_up = record { watch = closed; memory = memory; received = none }
progress_in hooks memory (proceed c) = switch_in hooks c.state c memory

-- The branch for APR_POLLIN: apr_socket_recv has put `bs` at the reader.
unfoldable pub readable : Hooks → Io → (bs : List ℕ) → Connection → (ℕ → ℕ) → Handled
unfolding after_io progress_in
readable hooks io bs c memory =
    progress_in hooks memory
      (after_io io (length bs) (record c { bytes = write c.bytes c.reader bs }))

-- `switch (pipestate->state)` behind apr_socket_send.
unfoldable pub switch_out : Stage → Connection → Watch
switch_out send_header_complete c = watch_in (aim 0 0 disabled c)
switch_out _ c = watch_out c

unfoldable pub progress_out : Progress → Watch
unfolding switch_out
progress_out give_up = closed
progress_out (proceed c) = switch_out c.state c

-- The branch for APR_POLLOUT: apr_socket_send has taken `n` bytes.
unfoldable pub writable : Io → (n : ℕ) → Connection → Watch
unfolding after_io progress_out
writable io n c = progress_out (after_io io n c)

-- ===== src/Pipe/Sender.antt =====
-- thread_socket_pipe_sender of src/lib/frl_util_socket_pipe.cpp: what it does with a connection at each
-- event, and the functions of frl_socket_pipe that it calls. The queue of messages is seen as the list of
-- its entries, buffer and length, the oldest first.
use alter.Common.{
  ℕ, ◌+◌, ◌-◌, ◌%◌, ◌^◌, Bool, true, false, List, [], ◌∷◌, ◌++◌, ltb, ◌==◌, if◌then◌else◌, length,
  Option, none, some, ◌||◌, ◌&&◌, not,
}
use alter.Common.Bytes.{read, write}
use alter.Pipe.Defs.{
  u32, Connection, Stage, disabled, read_header_start, read_header_complete, send_header_start,
  send_header_complete, send_block_start, send_block_complete, Io, aim, after_io, Progress, proceed,
  give_up, sizeof_frl_pipe_header_t, header_at, buffer_at, start_at, hash_at, set_header,
  block_size, Watch, watch_in, watch_out, closed,
}

-- The queue and the counters of the sender's loop.
pub record Link : Type 0 where
  pub send_queue : List (ℕ × ℕ)
  pub success_conn : ℕ
  pub write_available : ℕ

-- `hashlittle` on a run of bytes, and the virtual function send_after: whether it interrupts.
pub record SenderHooks : Type 0 where
  pub hashlittle : List ℕ → ℕ
  pub send_after : (buf len : ℕ) → Bool

-- `frl_socket_pipe::send`, and the same before a connection is given up.
abbrev pub send : (buf len : ℕ) → Link → Link
send buf len l = record l { send_queue = l.send_queue ++ (buf, len) ∷ [] }

abbrev pub lose : Link → Link
lose l = record l { success_conn = l.success_conn - 1 }

-- After an event: the connection, the queue and counters, and the bytes given to the socket.
pub record Sent : Type 0 where
  pub watch : Watch
  pub link : Link
  pub wire : List ℕ

-- `case FRL_PIPE_DISABLED`: a message is taken from the queue. `skipped` is a trypop that finds none,
-- `blocked` a pop that waits.
pub data Taken : Type 0 where
  ready : Connection → Link → Taken
  skipped blocked : Taken

unfoldable pub take_from : SenderHooks → (ℕ → ℕ) → Connection → Link → List (ℕ × ℕ) → Taken
take_from hooks memory c l [] = if ltb l.write_available l.success_conn then skipped else blocked
take_from hooks memory c l ((buf, len) ∷ rest) =
    let hash = u32 (hooks.hashlittle (read memory buf len)) in
    ready
      (aim header_at sizeof_frl_pipe_header_t send_header_start (record c {
        bytes = set_header c.bytes header_at len hash;
        data_buf = buf;
        data_mark = 0;
        data_size = len;
      }))
      (record l { send_queue = rest; write_available = l.write_available - 1 })

unfoldable pub take_message : SenderHooks → (ℕ → ℕ) → Connection → Link → Stage → Taken
unfolding take_from
take_message hooks memory c l disabled = take_from hooks memory c l l.send_queue
take_message hooks memory c l _ = ready c l

-- A block of the data from position `from` on, with `rest` bytes to go, is put into the buffer.
unfoldable pub fill_block : SenderHooks → (ℕ → ℕ) → (from rest : ℕ) → Connection → Connection
fill_block hooks memory from rest c =
    let n = block_size rest in
    let copied = write c.bytes start_at (read memory (c.data_buf + from) n) in
    let hash = u32 (hooks.hashlittle (read copied start_at n)) in
    aim buffer_at (n + sizeof_frl_pipe_header_t) send_block_start
      (record c { bytes = set_header copied buffer_at n hash; data_mark = c.data_mark + n })

-- `switch (pipestate->state)` behind apr_socket_send. When all blocks are sent, the connection waits
-- for the header to come back.
unfoldable pub switch_sent : SenderHooks → (ℕ → ℕ) → Stage → Connection → Watch
unfolding fill_block
switch_sent hooks memory send_header_complete c =
    watch_out (fill_block hooks memory 0 c.data_size c)
switch_sent hooks memory send_block_complete c =
    if ltb c.data_mark c.data_size
    then watch_out (fill_block hooks memory c.data_mark (c.data_size - c.data_mark) c)
    else watch_in (
        aim header_at sizeof_frl_pipe_header_t read_header_start
          (record c { data_mark = hash_at c.bytes header_at }))
switch_sent hooks memory _ c = watch_out c

unfoldable pub progress_sent :
    SenderHooks → (ℕ → ℕ) → Connection → Link → (wire : List ℕ) → Progress → Sent
unfolding switch_sent
progress_sent hooks memory c l wire give_up = record {
  watch = closed;
  link = lose (send c.data_buf c.data_size l);
  wire = wire;
}
progress_sent hooks memory c l wire (proceed c') = record {
  watch = switch_sent hooks memory c'.state c';
  link = l;
  wire = wire;
}

-- apr_socket_send has taken `n` bytes.
unfoldable pub send_some : SenderHooks → (ℕ → ℕ) → Io → (n : ℕ) → Connection → Link → Sent
unfolding after_io progress_sent
send_some hooks memory io n c l =
    progress_sent hooks memory c l (read c.bytes c.reader n) (after_io io n c)

-- The branch for APR_POLLOUT; `none` while the thread waits in frl_queue_pop.
unfoldable pub sender_writable :
    SenderHooks → (ℕ → ℕ) → Io → (n : ℕ) → Connection → Link → Option Sent
unfolding take_message send_some
sender_writable hooks memory io n c l = elim (take_message hooks memory c l c.state) [
  | blocked ↦ none
  | skipped ↦ some (record { watch = watch_out c; link = l; wire = [] })
  | ready c' l' ↦ some (send_some hooks memory io n c' l')
]

-- `case FRL_PIPE_READ_HEADER_COMPLETE`: the header that came back is compared.
unfoldable pub on_receipt : SenderHooks → Connection → Link → Watch × Link
on_receipt hooks c l =
    if c.data_mark == hash_at c.bytes header_at
    then (if hooks.send_after c.data_buf c.data_size
        then (closed, lose l)
        else (watch_out (aim 0 0 disabled c), l))
    else (closed, lose (send c.data_buf c.data_size l))

unfoldable pub switch_receipt : SenderHooks → Stage → Connection → Link → Watch × Link
unfolding on_receipt
switch_receipt hooks read_header_complete c l = on_receipt hooks c l
switch_receipt hooks _ c l = (watch_in c, l)

unfoldable pub progress_receipt : SenderHooks → Connection → Link → Progress → Watch × Link
unfolding switch_receipt
progress_receipt hooks c l give_up = (closed, lose (send c.data_buf c.data_size l))
progress_receipt hooks c l (proceed c') = switch_receipt hooks c'.state c' l

-- The branch for APR_POLLIN: apr_socket_recv has put `bs` at the reader.
unfoldable pub sender_readable : SenderHooks → Io → (bs : List ℕ) → Connection → Link → Watch × Link
unfolding after_io progress_receipt
sender_readable hooks io bs c l =
    progress_receipt hooks c l
      (after_io io (length bs) (record c { bytes = write c.bytes c.reader bs }))

-- What apr_socket_connect returns.
pub data Connect : Type 0 where
  connected in_progress refused : Connect

abbrev pub is_connected : Connect → Bool
is_connected connected = true
is_connected _ = false

abbrev pub is_in_progress : Connect → Bool
is_in_progress in_progress = true
is_in_progress _ = false

abbrev pub is_disabled : Stage → Bool
is_disabled disabled = true
is_disabled _ = false

-- The branch for other events: the message is sent again on another connection. The test of the
-- new connection is the source's, `!= APR_SUCCESS || != APR_EINPROGRESS`.
unfoldable pub reconnect : Connect → Connection → Link → Watch × Link
reconnect s c l =
    let l' = if is_disabled c.state then l else send c.data_buf c.data_size l in
    if not (is_connected s) || not (is_in_progress s)
    then (
      watch_out (aim 0 0 disabled c),
      record l' { write_available = (l'.write_available + 1) % 2 ^ 32 },
    )
    else (closed, lose l')

-- One round of the loop that opens connections, with a new state `c`.
unfoldable pub open_one : Connect → Connection → Link → Option Connection × Link
open_one s c l =
    if is_connected s || is_in_progress s
    then (
      some (aim 0 0 disabled c),
      record l {
        success_conn = (l.success_conn + 1) % 2 ^ 32;
        write_available = (l.write_available + 1) % 2 ^ 32;
      },
    )
    else (none, l)

-- `frl_socket_pipe::state`: 0 is APR_SUCCESS.
unfoldable pub pipe_state : (recv_state send_state einprogress : ℕ) → ℕ
pipe_state recv_state send_state einprogress =
    if not (recv_state == 0)
    then recv_state
    else if not (send_state == 0) && not (send_state == einprogress)
    then send_state
    else 0

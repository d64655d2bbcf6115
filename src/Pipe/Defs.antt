-- ===== src/Pipe/Defs.antt =====
-- What the two threads of the socket pipe share: the structs and constants of
-- src/lib/frl_util_socket_pipe.h, and the part of their loops that moves bytes.
use alter.Common.{ℕ, ◌+◌, ◌-◌, ◌%◌, ◌^◌, Bool, true, false, ◌||◌, leb, ltb, if◌then◌else◌}
use alter.Common.Bytes.{get_u32, set_u32}

-- `FRL_PIPE_DISABLED` to `FRL_PIPE_SEND_BLOCK_COMPLETE`
pub data Stage : Type 0 where
  disabled wait_response : Stage
  read_header_start read_header_complete : Stage
  send_header_start send_header_complete : Stage
  read_block_start read_block_complete : Stage
  send_block_start send_block_complete : Stage

-- `PIPE_STATE_TO_COMPLETE`, which sets the lowest bit.
unfoldable pub to_complete : Stage → Stage
to_complete disabled = wait_response
to_complete read_header_start = read_header_complete
to_complete send_header_start = send_header_complete
to_complete read_block_start = read_block_complete
to_complete send_block_start = send_block_complete
to_complete stage = stage

-- The cast to uint32_t.
abbrev pub u32 : ℕ → ℕ
u32 n = n % 2 ^ 32

abbrev pub sizeof_frl_pipe_header_t : ℕ
sizeof_frl_pipe_header_t = 8

abbrev pub socket_package_size : ℕ
socket_package_size = 4092

abbrev pub sizeof_frl_pipe_block_buffer : ℕ
sizeof_frl_pipe_block_buffer = socket_package_size - sizeof_frl_pipe_header_t

-- `struct frl_pipe_state_t`. `bytes` is its first part by position: `header`, and behind it the
-- union of `block` and `buffer`. `reader` is a position there. `data_mark` is the union of
-- `data.hash` and `data.offset`.
pub record Connection : Type 0 where
  pub bytes : ℕ → ℕ
  pub data_buf : ℕ
  pub data_mark : ℕ
  pub data_size : ℕ
  pub reader : ℕ
  pub offset : ℕ
  pub size : ℕ
  pub state : Stage

-- The positions of `header`, of `buffer`, which is also `block.header`, and of `block.start`.
abbrev pub header_at : ℕ
header_at = 0

abbrev pub buffer_at : ℕ
buffer_at = 8

abbrev pub start_at : ℕ
start_at = 16

-- `struct frl_pipe_header_t` at a position: `size`, and then `hash`.
abbrev pub size_at : (ℕ → ℕ) → ℕ → ℕ
size_at bytes p = get_u32 bytes p

abbrev pub hash_at : (ℕ → ℕ) → ℕ → ℕ
hash_at bytes p = get_u32 bytes (p + 4)

abbrev pub set_header : (ℕ → ℕ) → (p size hash : ℕ) → ℕ → ℕ
set_header bytes p size hash = set_u32 (set_u32 bytes p size) (p + 4) hash

-- What apr_socket_recv and apr_socket_send return, as far as the code looks at it.
pub data Io : Type 0 where
  done again eof failed : Io

abbrev pub is_again : Io → Bool
is_again again = true
is_again _ = false

abbrev pub is_eof : Io → Bool
is_eof eof = true
is_eof _ = false

-- `pipestate->offset = 0; pipestate->size = n`, with the reader at `p`, in a new state.
abbrev pub aim : (p n : ℕ) → Stage → Connection → Connection
aim p n stage c = record c { state = stage; reader = p; offset = 0; size = n }

-- After `n` bytes have been moved: `offset += n; reader += n`.
abbrev pub advance : ℕ → Connection → Connection
advance n c = record c { offset = c.offset + n; reader = c.reader + n }

-- The test behind each call of apr_socket_recv or apr_socket_send: the unit is complete, or the
-- connection is closed (`false`), or more is to come.
pub data Progress : Type 0 where
  proceed : Connection → Progress
  give_up : Progress

unfoldable pub after_io : Io → (n : ℕ) → Connection → Progress
unfolding to_complete
after_io io n c =
    let c' = advance n c in
    if leb c'.size c'.offset || is_again io
    then proceed (record c' { offset = c'.size; state = to_complete c'.state })
    else if is_eof io || leb n 0
    then give_up
    else proceed c'

-- The length of the next block, when `rest` bytes are left.
abbrev pub block_size : ℕ → ℕ
block_size rest =
    if ltb rest sizeof_frl_pipe_block_buffer then rest else sizeof_frl_pipe_block_buffer

-- What becomes of a connection after an event: it is polled for input or for output, or it is closed
-- and its state freed. `out_of_bounds` is a copy beyond a buffer, which has no defined behaviour.
pub data Watch : Type 0 where
  watch_in watch_out : Connection → Watch
  closed : Watch
  out_of_bounds : Watch

-- What the receiver waits for when `rest` bytes of data are left.
abbrev pub unit_size : ℕ → ℕ
unit_size rest =
    if ltb rest sizeof_frl_pipe_block_buffer
    then rest + sizeof_frl_pipe_header_t
    else socket_package_size

-- ===== src/Server/Defs.antt =====
-- thread_server_event_handler of src/lib/frl_util_server_event.cpp: what it does with a connection at
-- each event, and the structs of src/lib/frl_util_server_event.h. The set of polled sockets is seen
-- from the connection.
use alter.Common.{
  ℕ, ◌+◌, ◌-◌, ◌%◌, ◌^◌, List, [], ◌||◌, ◌&&◌, leb, ltb, if◌then◌else◌, length, Option, none, some,
}
use alter.Common.Bytes.{read, write}
use alter.Pipe.Defs.{Io, is_again, is_eof}

-- `FRL_PROGRESS_COMLETE` and so on, and any other value.
pub data Status : Type 0 where
  complete interrupt wait_signal continue restart other : Status

-- `FRL_EVENT_DISABLED` to `FRL_EVENT_SEND_COMPLETE`
pub data EventState : Type 0 where
  disabled wait_response : EventState
  read_start read_complete : EventState
  send_start send_complete : EventState

-- `EVENT_STATE_TO_COMPLETE`, which sets the lowest bit.
unfoldable pub to_complete : EventState → EventState
to_complete disabled = wait_response
to_complete read_start = read_complete
to_complete send_start = send_complete
to_complete state = state

-- `struct frl_notify_t`
pub record Notify : Type 0 where
  pub size : ℕ
  pub buffer : ℕ
  pub timeout : ℕ
  pub state : Status

-- `struct frl_eventinfo_t`
pub record EventInfo : Type 0 where
  pub notify : Notify
  pub reader : ℕ
  pub offset : ℕ
  pub size : ℕ
  pub state : EventState

-- The virtual functions of the server. `recv_before` gets the buffer and the size, and gives the ones to
-- read into; `recv_send` sees the memory, and gives the answer.
pub record Hooks : Type 0 where
  pub recv_before : (buffer size : ℕ) → Status × ℕ × ℕ
  pub recv_send : (ℕ → ℕ) → Notify → Status × Notify
  pub send_after : (buffer size : ℕ) → Status

-- What becomes of a connection after an event.
pub data Watch : Type 0 where
  polled_in polled_out : EventInfo → Watch
  closed : Watch

-- After an event: the connection, the memory, the bytes given to the socket, and the count of the
-- handler's connections.
pub record Served : Type 0 where
  pub watch : Watch
  pub memory : ℕ → ℕ
  pub wire : List ℕ
  pub balance : ℕ

-- `balance--`
abbrev pub count_down : ℕ → ℕ
count_down n = (n + (2 ^ 32 - 1)) % 2 ^ 32

-- `reader = notify.buffer; offset = 0; size = notify.size`, in a new state.
abbrev pub rewind : EventState → EventInfo → EventInfo
rewind state e = record e {
  reader = e.notify.buffer;
  offset = 0;
  size = e.notify.size;
  state = state;
}

abbrev pub advance : ℕ → EventInfo → EventInfo
advance n e = record e { offset = e.offset + n; reader = e.reader + n }

abbrev pub close : (memory : ℕ → ℕ) → (wire : List ℕ) → (balance : ℕ) → Served
close memory wire balance = record {
  watch = closed;
  memory = memory;
  wire = wire;
  balance = count_down balance;
}

-- `case FRL_EVENT_DISABLED`
unfoldable pub begun : EventInfo → Status → (buffer size : ℕ) → Option EventInfo
begun e interrupt buffer size = none
begun e _ buffer size =
    some
      (rewind read_start (record e { notify = record e.notify { buffer = buffer; size = size } }))

unfoldable pub begin_read : Hooks → EventState → EventInfo → Option EventInfo
unfolding begun
begin_read hooks disabled e =
    let r = hooks.recv_before e.notify.buffer e.notify.size in begun e r.0 r.1 r.2
begin_read hooks _ e = some e

-- What recv_send says.
unfoldable pub switch_answer : Status → EventInfo → Watch
switch_answer complete e = polled_out (rewind send_start e)
switch_answer interrupt e = closed
switch_answer wait_signal e = polled_out (record e { state = wait_response })
switch_answer restart e = polled_in (rewind read_start e)
switch_answer _ e = polled_in e

-- apr_socket_recv has put `bs` at the reader.
unfoldable pub receive :
    Hooks → Io → (bs : List ℕ) → (ℕ → ℕ) → (balance : ℕ) → Option EventInfo → Served
unfolding switch_answer
receive hooks io bs memory balance none = close memory [] balance
receive hooks io bs memory balance (some e) =
    let e' = advance (length bs) e in
    let memory' = write memory e.reader bs in
    let r = hooks.recv_send memory' (record e'.notify { size = e'.offset; timeout = 0 }) in
    if is_eof io || leb (length bs) 0 then close memory' [] balance else record {
      watch = switch_answer r.0 (record e' { notify = r.1 });
      memory = memory';
      wire = [];
      balance = balance;
    }

-- The branch for APR_POLLIN.
unfoldable pub readable : Hooks → Io → (bs : List ℕ) → EventInfo → (ℕ → ℕ) → (balance : ℕ) → Served
unfolding begin_read receive
readable hooks io bs e memory balance =
    receive hooks io bs memory balance (begin_read hooks e.state e)

-- The answer that the connection waits for is there.
unfoldable pub wake : EventState → Status → EventInfo → EventInfo
wake wait_response complete e = rewind send_start e
wake _ _ e = e

-- What send_after says.
unfoldable pub after_send : Status → EventInfo → Watch
after_send complete e = polled_in (record e { state = disabled; reader = 0; offset = 0; size = 0 })
after_send interrupt e = closed
after_send continue e = polled_out (rewind send_start e)
after_send _ e = polled_out e

unfoldable pub switch_sent : Hooks → EventState → EventInfo → Watch
unfolding after_send
switch_sent hooks send_complete e = after_send (hooks.send_after e.notify.buffer e.notify.size) e
switch_sent hooks _ e = polled_out e

-- apr_socket_send has taken `n` bytes.
unfoldable pub send_some : Hooks → Io → (n : ℕ) → EventInfo → (ℕ → ℕ) → (balance : ℕ) → Served
unfolding switch_sent to_complete
send_some hooks io n e memory balance =
    let e' = advance n e in
    let wire = read memory e.reader n in
    let goes_on : Watch → Served =
      λ w. record { watch = w; memory = memory; wire = wire; balance = balance } in
    if leb e'.size e'.offset || is_again io
    then goes_on (
        switch_sent hooks (to_complete e'.state)
          (record e' { offset = e'.size; state = to_complete e'.state }))
    else if is_eof io || leb n 0
    then close memory wire balance
    else goes_on (switch_sent hooks e'.state e')

-- The branch for APR_POLLOUT.
unfoldable pub writable :
    Hooks → Io → (n : ℕ) → (now : ℕ) → EventInfo → (ℕ → ℕ) → (balance : ℕ) → Served
unfolding wake send_some
writable hooks io n now e memory balance =
    if ltb 0 e.notify.timeout && ltb e.notify.timeout now
    then close memory [] balance
    else send_some hooks io n (wake e.state e.notify.state e) memory balance

-- ===== src/Pipe/Spawn.antt =====
-- frl_socket_pipe::spawn of src/lib/frl_util_socket_pipe.cpp: the threads of a pipe.
use Prim.Native.Nat.{bit_and}
use alter.Common.{ℕ, Bool, not, ◌==◌}

-- `SOCKET_PIPE_SENDER`, `SOCKET_PIPE_RECEIVER`
abbrev pub socket_pipe_sender : ℕ
socket_pipe_sender = 1

abbrev pub socket_pipe_receiver : ℕ
socket_pipe_receiver = 2

-- The fields of `frl_socket_pipe` that its threads are started with. `sender` and `receiver` say whether
-- the pipe has the thread.
pub record Threads : Type 0 where
  pub sender : Bool
  pub receiver : Bool
  pub recv_state : ℕ
  pub send_state : ℕ
  pub replicate : ℕ
  pub address : ℕ

-- `frl_socket_pipe::spawn`
unfoldable pub spawn : (replicate address mode : ℕ) → Threads → Threads
spawn replicate address mode t = record t {
  replicate = replicate;
  address = address;
  sender = not (bit_and mode socket_pipe_sender == 0);
  receiver = not (bit_and mode socket_pipe_receiver == 0);
}

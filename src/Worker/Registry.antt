-- ===== src/Worker/Registry.antt =====
-- Alter::Configurator of src/worker/alter.h and src/worker/alter.cpp: a worker registers, and gets a
-- transporter and a receipt. The name server's address for a text is a parameter. The loop over the
-- transporters of a full table does not compile, and is left out.
use Prim.Native.Nat.{bit_and}
use alter.Common.{
  ℕ, ◌+◌, ◌-◌, ◌%◌, ◌^◌, Bool, true, false, ltb, if◌then◌else◌, update, Option, none, some, ◌>>=◌,
}
use alter.Pipe.Spawn.{Threads, spawn, socket_pipe_sender, socket_pipe_receiver}
use alter.Server.Defs.{Status, continue, interrupt}

-- `alter_register_t`, with the address as `apr_sockaddr_info_get` resolves it.
pub record Register : Type 0 where
  pub ticket : ℕ
  pub sockaddr : ℕ

-- `FRL_INVALID_REQUEST`, `FRL_VALID_REQUEST`
abbrev pub invalid_request : ℕ
invalid_request = 0

abbrev pub valid_request : ℕ
valid_request = 1

-- `alter_receipt_t`
pub record Receipt : Type 0 where
  pub ticket : ℕ
  pub sid : ℕ
  pub status : ℕ

-- `SIZEOF_ALTER_REGISTER_T`, `SIZEOF_ALTER_RECEIPT_T`
abbrev pub sizeof_register : ℕ
sizeof_register = 48

abbrev pub sizeof_receipt : ℕ
sizeof_receipt = 12

-- The part of `Alter` that a registration reads and writes: `conf.network`, the transporters, and how
-- many items of `rgtpool` and `rptpool` are handed out.
pub record Registry : Type 0 where
  pub follow : ℕ
  pub max : ℕ
  pub backup : ℕ
  pub transporter : ℕ → Threads
  pub registers : ℕ
  pub receipts : ℕ

-- `transporter[sid].spawn(backup, sockaddr, SOCKET_PIPE_SENDER & SOCKET_PIPE_RECEIVER)`
unfoldable pub spawn_at : (sid : ℕ) → Register → Registry → Registry
spawn_at sid rgt a = record a {
  transporter = update a.transporter sid (
      spawn a.backup rgt.sockaddr (bit_and socket_pipe_sender socket_pipe_receiver)
        (a.transporter sid));
}

-- A registration while there is room: the next transporter.
unfoldable pub enter : Register → Registry → Registry
unfolding spawn_at
enter rgt a = let a' = spawn_at a.follow rgt a in record a' { follow = (a'.follow + 1) % 2 ^ 32 }

-- The `sid` of a registration while there is room. The branch for a full table does not compile, and has no
-- meaning here.
unfoldable pub assign_sid : Register → Registry → Option (ℕ × Registry)
unfolding enter
assign_sid rgt a = if ltb a.follow a.max then some (a.follow, enter rgt a) else none

-- The receipt, in an item of `rptpool`, if frl_slab_palloc gives one; NULL would be written through.
unfoldable pub issue : (item : Bool) → Register → ℕ × Registry → Option (Receipt × Registry)
issue false rgt run = none
issue true rgt (sid, a) = some (
  record {
    ticket = rgt.ticket;
    sid = sid;
    status = if ltb sid a.max then valid_request else invalid_request;
  },
  record a { receipts = a.receipts + 1 },
)

-- `Alter::Configurator::recv_before`: an item of `rgtpool`, and its size.
unfoldable pub recv_before : Registry → (Status × ℕ) × Registry
recv_before a = ((continue, sizeof_register), record a { registers = a.registers + 1 })

-- What recv_send answers: the status, and the receipt when there is one.
pub data Answer : Type 0 where
  waits : Answer
  receipt : Receipt → Answer

abbrev pub answered : Receipt × Registry → Answer × Registry
answered (r, a) = (receipt r, a)

-- `Alter::Configurator::recv_send`; `none` where NULL is written through, or the table is full.
unfoldable pub recv_send :
    (item : Bool) → (len : ℕ) → Register → Registry → Option (Answer × Registry)
unfolding assign_sid issue
recv_send item len rgt a =
    if ltb len sizeof_register
    then some (waits, a)
    else assign_sid rgt a >>= λ run. issue item rgt run >>= λ issued. some (answered issued)

-- `Alter::Configurator::send_after`: the receipt is given back, and the connection ends.
unfoldable pub send_after : Registry → Status × Registry
send_after a = (interrupt, record a { receipts = a.receipts - 1 })

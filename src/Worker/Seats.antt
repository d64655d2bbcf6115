-- ===== src/Worker/Seats.antt =====
-- What a registration does in Alter::Configurator::recv_send of src/worker/alter.cpp while there is room.
use Prim.Native.Nat.{bit_and}
use alter.Common.{
  ℕ, ◌+◌, ◌^◌, ◌≤◌, ◌<◌, true, false, ltb, ◌==◌, Option, some, ◌≡◌, ◌≢◌, refl, inl, inr, Bool-cases,
  arith,
}
use alter.Pipe.Spawn.{Threads, spawn, socket_pipe_sender, socket_pipe_receiver}
use alter.Worker.Registry.{
  Register, Registry, Answer, receipt, enter, valid_request, sizeof_register, spawn_at, assign_sid,
  issue, recv_send,
}

-- A transporter without threads.
pub record IsIdle (t : Threads) : Type 0 where
  pub sender : t.sender ≡ false
  pub receiver : t.receiver ≡ false

pub record IsRegistry (a : Registry) : Type 0 where
  pub room : a.follow ≤ a.max
  pub bound : a.max < 2 ^ 32
  pub idle : (i : ℕ) → IsIdle (a.transporter i)

-- What a worker gets: the transporter `sid` is set to its address, and no other one changes.
pub record Seated (rgt : Register) (sid : ℕ) (a a' : Registry) : Type 0 where
  pub address : (a'.transporter sid).address ≡ rgt.sockaddr
  pub replicate : (a'.transporter sid).replicate ≡ a.backup
  pub others : (j : ℕ) → j ≢ sid → a'.transporter j ≡ a.transporter j
  pub max : a'.max ≡ a.max

spawn_at-Seated : (sid : ℕ) (rgt : Register) (a : Registry) → Seated rgt sid a (spawn_at sid rgt a)
unfolding spawn_at spawn
spawn_at-Seated sid rgt a = record {
  address = ground arith;
  replicate = ground arith;
  others = λ j other. ground (arith, other);
  max = refl;
}

-- The mode that the registration gives, `1 & 2`, starts no thread.
spawn-IsIdle :
    (backup sockaddr : ℕ) (t : Threads)
    → IsIdle (spawn backup sockaddr (bit_and socket_pipe_sender socket_pipe_receiver) t)
unfolding spawn
spawn-IsIdle backup sockaddr t = record { sender = refl; receiver = refl }

spawn_at-IsRegistry :
    (sid : ℕ) (rgt : Register) (a : Registry) → IsRegistry a → IsRegistry (spawn_at sid rgt a)
unfolding spawn_at
spawn_at-IsRegistry sid rgt a w = record {
  room = w.room;
  bound = w.bound;
  idle = λ j. elim (Bool-cases (j == sid)) [
    | inl e ↦ rw e (spawn-IsIdle a.backup rgt.sockaddr (a.transporter sid))
    | inr e ↦ rw e (w.idle j)
  ];
}

enter-follow :
    (rgt : Register) (a : Registry)
    → IsRegistry a
    → a.follow < a.max
    → (enter rgt a).follow ≡ a.follow + 1
unfolding enter spawn_at
enter-follow rgt a w more = let b = w.bound in omega arith

enter-IsRegistry :
    (rgt : Register) (a : Registry) → IsRegistry a → a.follow < a.max → IsRegistry (enter rgt a)
unfolding enter spawn_at
enter-IsRegistry rgt a w more =
    let seated = spawn_at-IsRegistry a.follow rgt a w in
    let e = enter-follow rgt a w more in
    record { room = omega arith; bound = w.bound; idle = unfold enter in seated.idle }

-- How recv_send ends while there is room: with a receipt for the next transporter, which is set.
pub record Seats (rgt : Register) (a : Registry) (run : Option (Answer × Registry)) : Type 0 where
  pub left : Registry
  pub ends :
      run
      ≡ some
          (receipt (record { ticket = rgt.ticket; sid = a.follow; status = valid_request }), left)
  pub seated : Seated rgt a.follow a left
  pub next : left.follow ≡ a.follow + 1
  pub keeps : IsRegistry left
  pub items : (left.registers ≡ a.registers) × (left.receipts ≡ a.receipts + 1)

pub recv_send-Seats :
    (len : ℕ) (rgt : Register) (a : Registry)
    → IsRegistry a
    → sizeof_register ≤ len
    → a.follow < a.max
    → Seats rgt a (recv_send true len rgt a)
unfolding recv_send assign_sid issue enter spawn_at
recv_send-Seats len rgt a w all more =
    let seated = spawn_at-Seated a.follow rgt a in
    let kept = enter-IsRegistry rgt a w more in
    let read : ltb len sizeof_register ≡ false = ground (arith, all) in
    let room : ltb a.follow a.max ≡ true = ground (arith, more) in
    record {
      left = record (enter rgt a) { receipts = (enter rgt a).receipts + 1 };
      ends = simp (read, room);
      seated = record {
        address = seated.address;
        replicate = seated.replicate;
        others = seated.others;
        max = seated.max;
      };
      next = enter-follow rgt a w more;
      keeps = record { room = kept.room; bound = kept.bound; idle = kept.idle };
      items = (refl, refl);
    }

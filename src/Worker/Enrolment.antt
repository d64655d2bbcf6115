-- ===== src/Worker/Enrolment.antt =====
-- The registrations of many workers, one after the other: the connection of each calls
-- Alter::Configurator::recv_before, recv_send and send_after of src/worker/alter.cpp in turn.
use alter.Common.{
  ℕ, true, ◌+◌, ◌-◌, ◌≤◌, ◌<◌, Option, none, some, ◌>>=◌, List, [], ◌∷◌, length, ◌≡◌, refl, ap, ◌∙◌,
  arith,
}
use alter.Pipe.Spawn.{Threads}
use alter.Worker.Registry.{
  Register, Receipt, Registry, Answer, waits, receipt, sizeof_register, recv_before, recv_send,
  send_after,
}
use alter.Worker.Seats.{IsRegistry, Seated, recv_send-Seats}

-- One connection, whose register arrives in full, and for which frl_slab_palloc gives items of rgtpool and rptpool.
unfoldable pub finish_session : Answer × Registry → Option (Receipt × Registry)
finish_session (waits, a) = none
finish_session (receipt r, a) = some (r, (send_after a).1)

unfoldable pub session : Register → Registry → Option (Receipt × Registry)
unfolding finish_session recv_before
session rgt a =
    let ((status, len), a') = recv_before a in recv_send true len rgt a' >>= finish_session

abbrev pub with_receipt : Receipt → List Receipt × Registry → List Receipt × Registry
with_receipt r (rs, a) = (r ∷ rs, a)

unfoldable pub sessions : List Register → Registry → Option (List Receipt × Registry)
unfolding session
sessions [] a = some ([], a)
sessions (rgt ∷ rgts) a =
    session rgt a >>= λ run. sessions rgts run.1 >>= λ rest. some (with_receipt run.0 rest)

-- The receipts that workers should get: the transporters in order.
abbrev pub expected : (sid : ℕ) → List Register → List Receipt
expected sid [] = []
expected sid (rgt ∷ rgts) =
    record { ticket = rgt.ticket; sid = sid; status = 1 } ∷ expected (sid + 1) rgts

-- The transporters from `sid` on have the workers' addresses.
pub data Holds (ts : ℕ → Threads) : (sid : ℕ) → List Register → Type 0 where
  all_held : {sid : ℕ} → Holds ts sid []
  held :
      {sid : ℕ} {rgt : Register} {rgts : List Register}
      → (ts sid).address ≡ rgt.sockaddr
      → Holds ts (sid + 1) rgts
      → Holds ts sid (rgt ∷ rgts)

-- How one session ends when there is room.
record Entered (rgt : Register) (a : Registry) (run : Option (Receipt × Registry)) : Type 0 where
  left : Registry
  ends : run ≡ some (record { ticket = rgt.ticket; sid = a.follow; status = 1 }, left)
  seated : Seated rgt a.follow a left
  next : left.follow ≡ a.follow + 1
  keeps : IsRegistry left
  registers : left.registers ≡ a.registers + 1
  receipts : left.receipts ≡ a.receipts

session-Entered :
    (rgt : Register) (a : Registry)
    → IsRegistry a
    → a.follow < a.max
    → Entered rgt a (session rgt a)
unfolding session recv_before finish_session send_after
session-Entered rgt a w more =
    let b : Registry = record a { registers = a.registers + 1 } in
    let ans =
      recv_send-Seats sizeof_register rgt b
        (record { room = w.room; bound = w.bound; idle = w.idle }) (omega arith) more in
    let seated = ans.seated in
    let (i1, i2) = ans.items in
    let k = ans.keeps in
    record {
      left = record (ans.left) { receipts = ans.left.receipts - 1 };
      ends = rw ans.ends refl;
      seated = record {
        address = seated.address;
        replicate = seated.replicate;
        others = seated.others;
        max = seated.max;
      };
      next = ans.next;
      keeps = record { room = k.room; bound = k.bound; idle = k.idle };
      registers = i1;
      receipts = omega arith;
    }

-- How the sessions end when there is room for all: each worker has its receipt and its transporter, no
-- receipt is left over, and every register is.
pub record Enrolled (rgts : List Register) (a : Registry) (run : Option (List Receipt × Registry))
    : Type 0 where
  pub left : Registry
  pub ends : run ≡ some (expected a.follow rgts, left)
  pub holds : Holds left.transporter a.follow rgts
  pub earlier : (j : ℕ) → j < a.follow → left.transporter j ≡ a.transporter j
  pub keeps : IsRegistry left
  pub follow : left.follow ≡ a.follow + length rgts
  pub registers : left.registers ≡ a.registers + length rgts
  pub receipts : left.receipts ≡ a.receipts

-- When the transporters have no threads and there is room for all workers of a list, and each
-- registers in turn, with an item of rgtpool and of rptpool for each, each gets the next
-- transporter, set to its address, and a valid receipt with that number; the receipts are given
-- back, but one item of rgtpool stays handed out for each worker.
pub sessions-Enrolled :
    (rgts : List Register) (a : Registry)
    → IsRegistry a
    → a.follow + length rgts ≤ a.max
    → Enrolled rgts a (sessions rgts a)
unfolding sessions
sessions-Enrolled [] a w room = record {
  left = a;
  ends = refl;
  holds = all_held;
  earlier = λ j _. refl;
  keeps = w;
  follow = omega arith;
  registers = omega arith;
  receipts = refl;
}
sessions-Enrolled (rgt ∷ rgts) a w room =
    let s = session-Entered rgt a w (omega arith) in
    let next = s.next in
    let seated = s.seated in
    let max = seated.max in
    let rest = sessions-Enrolled rgts s.left s.keeps (omega arith) in
    let follow = rest.follow in
    let registers = rest.registers in
    let before = s.registers in
    record {
      left = rest.left;
      ends =
          rw (s.ends, rest.ends)
            (ap
              (λ k. some (
                record { ticket = rgt.ticket; sid = a.follow; status = 1 } ∷ expected k rgts,
                rest.left,
              ))
              next);
      holds =
          held
            (ap (λ (t : Threads). t.address) (rest.earlier a.follow (omega arith)) ∙ seated.address)
            (rw (← next) rest.holds);
      earlier = λ j below. rest.earlier j (omega arith) ∙ seated.others j (omega arith);
      keeps = rest.keeps;
      follow = omega arith;
      registers = omega arith;
      receipts = rest.receipts ∙ s.receipts;
    }

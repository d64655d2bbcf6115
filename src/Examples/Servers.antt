-- ===== src/Examples/Servers.antt =====
-- Runs of the event-driven server: two handlers, and an application that answers with four bytes at 900.
use alter.Common.{ℕ, [], ◌∷◌, ◌++◌, ◌≡◌, refl, arith, inl}
use alter.Pipe.Defs.{done}
use alter.Server.Defs.{
  Status, complete, wait_signal, continue, disabled, read_start, send_start, EventInfo, Notify,
  Hooks, polled_in, Served, readable,
}
use alter.Server.Polling.{Follows, waits_in}
use alter.Server.Runs.{start, after, input, Run-Follows}
use alter.Server.Listener.{Server, spawn, accept}
use alter.Server.Load.{IsCounted, IsLeast, spawn-IsCounted, accept-IsCounted, first}
use alter.Server.Reply.{Replies, part, none_left, deliver, deliver-Replies}

abbrev answer : Status → Notify
answer s = record { size = 4; buffer = 900; timeout = 0; state = s }

abbrev at_once : Hooks
at_once = record {
  recv_before = λ buffer size. (continue, 500, 64);
  recv_send = λ memory notify. (complete, answer complete);
  send_after = λ buffer size. complete;
}

abbrev later : Hooks
later = record {
  recv_before = λ buffer size. (continue, 500, 64);
  recv_send = λ memory notify. (wait_signal, answer wait_signal);
  send_after = λ buffer size. complete;
}

abbrev fresh : EventInfo
fresh = record { notify = answer continue; reader = 0; offset = 0; size = 0; state = disabled }

abbrev reading : EventInfo
reading = record {
  notify = answer continue;
  reader = 500;
  offset = 0;
  size = 64;
  state = read_start;
}

abbrev sending : EventInfo
sending = record {
  notify = answer complete;
  reader = 900;
  offset = 0;
  size = 4;
  state = send_start;
}

abbrev blank : ℕ → ℕ
blank a = 0

abbrev waiting : Served
waiting = record { watch = polled_in fresh; memory = blank; wire = []; balance = 1 }

abbrev asked : Served
asked = readable at_once done (1 ∷ 2 ∷ []) fresh blank 1

Run-Follows_example : Follows at_once 1 asked.memory asked.watch asked.balance
Run-Follows_example =
    Run-Follows at_once {s = waiting} {s' = asked}
      (after start (input done (1 ∷ 2 ∷ []) fresh blank [] 1)) (waits_in (inl refl))

deliver-Replies_example :
    Replies at_once 0 blank 1 sending 0 (deliver at_once 0 blank 1 (3 ∷ 1 ∷ []) sending)
deliver-Replies_example =
    deliver-Replies at_once 0 blank 1 (3 ∷ 1 ∷ []) sending 0
      (record { state = refl; timely = refl; reader = omega arith; offset = refl; size = refl })
      (part (omega arith) (part (omega arith) none_left)) (omega arith) (omega arith)

abbrev two : Server
two = spawn 2 3 (λ i. 9) (λ i. [])

spawn-IsCounted_example : IsCounted (spawn 2 3 (λ i. 9) (λ i. []))
spawn-IsCounted_example = spawn-IsCounted 2 3 (λ i. 9) (λ i. [])

abbrev idle : Server
idle = record { min = 2; max = 3; opened = 2; balance = λ i. 0; pollset = λ i. [] }

accept-IsCounted_example :
    IsLeast idle.balance 2 (first fresh idle)
    × ((accept fresh idle).pollset (first fresh idle)
        ≡ [] ++ record fresh { state = disabled } ∷ [])
    × IsCounted (accept fresh idle)
accept-IsCounted_example =
    accept-IsCounted fresh idle (omega arith) (record { counts = λ j below. refl })
      (λ j below. omega arith) (inl refl)

abbrev busy : Server
busy = record { min = 2; max = 3; opened = 2; balance = λ i. 1; pollset = λ i. fresh ∷ [] }

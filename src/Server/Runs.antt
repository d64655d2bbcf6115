-- ===== src/Server/Runs.antt =====
-- Whole runs of thread_server_event_handler, seen from one connection: its events in any order, and the
-- answer that the application writes while the connection waits for it.
use alter.Common.{ℕ, List, []}
use alter.Pipe.Defs.{Io}
use alter.Server.Defs.{
  EventInfo, Notify, Hooks, polled_in, polled_out, Served, close, readable, writable,
}
use alter.Server.Polling.{Follows, waits_in, waits_out, left, readable-Follows, writable-Follows}

-- One event. The memory is the application's too, which may write it at any time.
pub data Step (hooks : Hooks) : Served → Served → Type 0 where
  input :
      (io : Io) (bs : List ℕ) (e : EventInfo) (memory : ℕ → ℕ) (wire : List ℕ) (balance : ℕ)
      → Step hooks
          (record { watch = polled_in e; memory = memory; wire = wire; balance = balance })
          (readable hooks io bs e memory balance)
  output :
      (io : Io) (n now : ℕ) (e : EventInfo) (memory : ℕ → ℕ) (wire : List ℕ) (balance : ℕ)
      → Step hooks
          (record { watch = polled_out e; memory = memory; wire = wire; balance = balance })
          (writable hooks io n now e memory balance)
  hang_up_in :
      (e : EventInfo) (memory : ℕ → ℕ) (wire : List ℕ) (balance : ℕ)
      → Step hooks
          (record { watch = polled_in e; memory = memory; wire = wire; balance = balance })
          (close memory [] balance)
  hang_up_out :
      (e : EventInfo) (memory : ℕ → ℕ) (wire : List ℕ) (balance : ℕ)
      → Step hooks
          (record { watch = polled_out e; memory = memory; wire = wire; balance = balance })
          (close memory [] balance)
  answer :
      (notify : Notify) (e : EventInfo) (memory memory' : ℕ → ℕ) (wire : List ℕ) (balance : ℕ)
      → Step hooks
          (record { watch = polled_out e; memory = memory; wire = wire; balance = balance })
          (record {
            watch = polled_out (record e { notify = notify });
            memory = memory';
            wire = [];
            balance = balance;
          })

pub data Run (hooks : Hooks) (s : Served) : Served → Type 0 where
  start : Run hooks s s
  after : {s' s'' : Served} → Run hooks s s' → Step hooks s' s'' → Run hooks s s''

module _ (hooks : Hooks) where
  -- An event follows on a connection that is polled, whose count has not changed.
  Step-Follows :
      {s s' : Served} (balance : ℕ)
      → Step hooks s s'
      → Follows hooks balance s.memory s.watch s.balance
      → Follows hooks balance s'.memory s'.watch s'.balance
  Step-Follows balance (input io bs e memory wire _) (waits_in i) =
      readable-Follows hooks balance io bs e memory i
  Step-Follows balance (output io n now e memory wire _) (waits_out o) =
      writable-Follows hooks balance io n now e memory o
  Step-Follows balance (hang_up_in e memory wire _) (waits_in i) = left
  Step-Follows balance (hang_up_out e memory wire _) (waits_out o) = left
  Step-Follows balance (answer notify e memory memory' wire _) (waits_out o) = waits_out o

  -- In every run of the events of one connection of the server, a connection that waits for
  -- input or output in a state that fits does so after the run, with the count of its handler as
  -- before; or it is closed and taken off the count; or recv_send, on the memory that is left,
  -- or send_after says interrupt, and it is closed but still counted.
  pub Run-Follows :
      {s s' : Served}
      → Run hooks s s'
      → Follows hooks s.balance s.memory s.watch s.balance
      → Follows hooks s.balance s'.memory s'.watch s'.balance
  Run-Follows start f = f
  Run-Follows {s} (after r step) f = Step-Follows s.balance step (Run-Follows r f)

-- ===== src/Server/Listener.antt =====
-- The listener of the server of src/lib/frl_util_server_event.cpp: frl_server_event::spawn, and what
-- thread_server_event_listener does with a connection that it has accepted.
use alter.Common.{
  ℕ, zero, suc, ◌+◌, ◌-◌, ◌%◌, ◌^◌, List, [], ◌∷◌, ◌++◌, ◌&&◌, ltb, update, if◌then◌else◌,
}
use alter.Server.Defs.{EventInfo, disabled}

-- `frl_server_event`, as far as the listener uses it: for each handler, how many connections are counted, and
-- the ones in its pollset.
pub record Server : Type 0 where
  pub min : ℕ
  pub max : ℕ
  pub opened : ℕ
  pub balance : ℕ → ℕ
  pub pollset : ℕ → List EventInfo

-- `frl_server_event::spawn`; the arrays are new, and hold anything.
unfoldable pub spawn_loop : ℕ → ℕ → Server → Server
spawn_loop zero i s = s
spawn_loop (suc k) i s =
    spawn_loop k (i + 1)
      (record s { balance = update s.balance i 0; pollset = update s.pollset i [] })

unfoldable pub spawn : (min max : ℕ) → (balance : ℕ → ℕ) → (pollset : ℕ → List EventInfo) → Server
unfolding spawn_loop
spawn min max balance pollset =
    spawn_loop min 0
      (record { min = min; max = max; opened = min; balance = balance; pollset = pollset })

-- The loop that looks for the smallest balance, `k` rounds from `i` on.
unfoldable pub least_loop : (balance : ℕ → ℕ) → (k i : ℕ) → (min : ℕ) → ℕ
least_loop balance zero i min = min
least_loop balance (suc k) i min =
    least_loop balance k (i + 1) (if ltb (balance i) (balance min) then i else min)

unfoldable pub least : (balance : ℕ → ℕ) → (opened : ℕ) → ℕ
unfolding least_loop
least balance opened = least_loop balance (opened - 1) 1 0

-- `(*min)++`, for the balance of the handler `i`.
abbrev pub count_up : (ℕ → ℕ) → ℕ → ℕ → ℕ
count_up balance i = update balance i ((balance i + 1) % 2 ^ 32)

abbrev pub put : (ℕ → List EventInfo) → ℕ → EventInfo → ℕ → List EventInfo
put pollset i e = update pollset i (pollset i ++ record e { state = disabled } ∷ [])

-- A connection with the event info `e` has been accepted. When the least loaded handler has connections, and
-- there may be more handlers, a new one is started; the connection is added to `select`, which
-- is still the pollset of the least loaded one.
unfoldable pub accept : EventInfo → Server → Server
unfolding least
accept e s =
    let i = least s.balance s.opened in
    if ltb 0 (s.balance i) && ltb s.opened s.max
    then record s {
      opened = (s.opened + 1) % 2 ^ 32;
      balance = count_up (update s.balance s.opened 0) s.opened;
      pollset = put (update s.pollset s.opened []) i e;
    }
    else record s { balance = count_up s.balance i; pollset = put s.pollset i e }

-- ===== src/Server/Polling.antt =====
-- The state machine of a connection of the server: which events it waits for in which state, and the
-- count of the connections of a handler.
use alter.Common.{
  ℕ, ◌+◌, List, ◌||◌, ◌&&◌, leb, ltb, length, Option, none, some, ◌≡◌, ◌⊎◌, refl, inl, inr,
  Bool-cases,
}
use alter.Common.Bytes.{write}
use alter.Pipe.Defs.{Io, is_again, is_eof}
use alter.Server.Defs.{
  Status, Notify, complete, interrupt, wait_signal, continue, restart, EventState, disabled,
  wait_response, read_start, send_start, send_complete, to_complete, EventInfo, Hooks, Watch,
  polled_in, polled_out, closed, count_down, advance, begun, begin_read, switch_answer, receive,
  readable, wake, after_send, switch_sent, send_some, writable,
}

-- The states in which a connection is polled for input, and for output.
abbrev pub IsInput : EventState → Type 0
IsInput s = (s ≡ disabled) ⊎ (s ≡ read_start)

abbrev pub IsOutput : EventState → Type 0
IsOutput s = (s ≡ wait_response) ⊎ (s ≡ send_start) ⊎ (s ≡ send_complete)

-- A virtual function of the server says that the connection ends: recv_send, which sees the memory as it is
-- behind the event, or send_after.
pub data Interrupts (hooks : Hooks) (memory : ℕ → ℕ) : Type 0 where
  recv_says : (n : Notify) → (hooks.recv_send memory n).0 ≡ interrupt → Interrupts hooks memory
  sent_says : (buffer size : ℕ) → hooks.send_after buffer size ≡ interrupt → Interrupts hooks memory

-- What holds of a connection behind an event, with the count of its handler before it: the connection is
-- polled in a state that fits and still counted, or it is closed and no longer counted, or a virtual
-- function of the server interrupted it, and it is closed and still counted.
pub data Follows (hooks : Hooks) (balance : ℕ) (memory : ℕ → ℕ) : Watch → ℕ → Type 0 where
  waits_in : {e : EventInfo} → IsInput e.state → Follows hooks balance memory (polled_in e) balance
  waits_out :
      {e : EventInfo} → IsOutput e.state → Follows hooks balance memory (polled_out e) balance
  left : Follows hooks balance memory closed (count_down balance)
  interrupted : Interrupts hooks memory → Follows hooks balance memory closed balance

module _ (hooks : Hooks) (balance : ℕ) where
  switch_answer-Follows :
      (memory : ℕ → ℕ) (n : Notify) (s : Status)
      → (hooks.recv_send memory n).0 ≡ s
      → (e : EventInfo) → e.state ≡ read_start
      → Follows hooks balance memory (switch_answer s e) balance
  unfolding switch_answer
  switch_answer-Follows memory n complete is e h = waits_out (inr (inl refl))
  switch_answer-Follows memory n interrupt is e h = interrupted (recv_says n is)
  switch_answer-Follows memory n wait_signal is e h = waits_out (inl refl)
  switch_answer-Follows memory n restart is e h = waits_in (inr refl)
  switch_answer-Follows memory n _ is e h = waits_in (inr h)

  after_send-Follows :
      (memory : ℕ → ℕ) (buffer size : ℕ) (s : Status)
      → hooks.send_after buffer size ≡ s
      → (e : EventInfo) → IsOutput e.state
      → Follows hooks balance memory (after_send s e) balance
  unfolding after_send
  after_send-Follows memory buffer size complete is e h = waits_in (inl refl)
  after_send-Follows memory buffer size interrupt is e h = interrupted (sent_says buffer size is)
  after_send-Follows memory buffer size continue is e h = waits_out (inr (inl refl))
  after_send-Follows memory buffer size _ is e h = waits_out h

  module _ (io : Io) where
    receive-Follows :
        (bs : List ℕ) (memory : ℕ → ℕ) (o : Option EventInfo)
        → ((e : EventInfo) → o ≡ some e → e.state ≡ read_start)
        → Follows hooks balance
            (receive hooks io bs memory balance o).memory
            (receive hooks io bs memory balance o).watch
            (receive hooks io bs memory balance o).balance
    unfolding receive
    receive-Follows bs memory none h = left
    receive-Follows bs memory (some e) h = elim (Bool-cases (is_eof io || leb (length bs) 0)) [
      | inl stop ↦ rw stop left
      | inr on ↦
          let e' = advance (length bs) e in
          let r =
            hooks.recv_send (write memory e.reader bs)
              (record e'.notify { size = e'.offset; timeout = 0 }) in
          rw on (
            switch_answer-Follows (write memory e.reader bs)
              (record e'.notify { size = e'.offset; timeout = 0 }) r.0 refl
              (record e' { notify = r.1 }) (h e refl))
    ]

    begun-reads :
        (s : Status) (e : EventInfo) (buffer size : ℕ) (e' : EventInfo)
        → begun e s buffer size ≡ some e'
        → e'.state ≡ read_start
    unfolding begun
    begun-reads interrupt e buffer size e' h = cc
    begun-reads _ e buffer size e' h = cc

    begin_read-reads :
        (s : EventState) (e e' : EventInfo)
        → e.state ≡ s
        → IsInput s
        → begin_read hooks s e ≡ some e'
        → e'.state ≡ read_start
    unfolding begin_read
    begin_read-reads disabled e e' at i h =
        let r = hooks.recv_before e.notify.buffer e.notify.size in begun-reads r.0 e r.1 r.2 e' h
    begin_read-reads _ e e' at (inl i) h = cc
    begin_read-reads _ e e' at (inr i) h = cc

    pub readable-Follows :
        (bs : List ℕ) (e : EventInfo) (memory : ℕ → ℕ)
        → IsInput e.state
        → Follows hooks balance
            (readable hooks io bs e memory balance).memory
            (readable hooks io bs e memory balance).watch
            (readable hooks io bs e memory balance).balance
    unfolding readable
    readable-Follows bs e memory i =
        receive-Follows bs memory (begin_read hooks e.state e)
          λ e' h. begin_read-reads e.state e e' refl i h

    switch_sent-Follows :
        (s : EventState) (e : EventInfo)
        → IsOutput e.state
        → (memory : ℕ → ℕ) → Follows hooks balance memory (switch_sent hooks s e) balance
    unfolding switch_sent
    switch_sent-Follows send_complete e h memory =
        after_send-Follows memory e.notify.buffer e.notify.size
          (hooks.send_after e.notify.buffer e.notify.size) refl e h
    switch_sent-Follows _ e h memory = waits_out h

    to_complete-IsOutput : (s : EventState) → IsOutput s → IsOutput (to_complete s)
    unfolding to_complete
    to_complete-IsOutput s (inl h) = rw h (inl refl)
    to_complete-IsOutput s (inr (inl h)) = rw h (inr (inr refl))
    to_complete-IsOutput s (inr (inr h)) = rw h (inr (inr refl))

    send_some-Follows :
        (n : ℕ) (e : EventInfo) (memory : ℕ → ℕ)
        → IsOutput e.state
        → Follows hooks balance
            (send_some hooks io n e memory balance).memory
            (send_some hooks io n e memory balance).watch
            (send_some hooks io n e memory balance).balance
    unfolding send_some
    send_some-Follows n e memory h = elim (Bool-cases (leb e.size (e.offset + n) || is_again io)) [
      | inl whole ↦ rw whole (
          switch_sent-Follows (to_complete e.state)
            (record (advance n e) { offset = e.size; state = to_complete e.state })
            (to_complete-IsOutput e.state h) memory)
      | inr part ↦ elim (Bool-cases (is_eof io || leb n 0)) [
        | inl stop ↦ rw (part, stop) left
        | inr on ↦ rw (part, on) (switch_sent-Follows e.state (advance n e) h memory)
      ]
    ]

    wake-IsOutput :
        (s : EventState) (answer : Status) (e : EventInfo)
        → IsOutput e.state
        → IsOutput (wake s answer e).state
    unfolding wake
    wake-IsOutput wait_response complete e h = inr (inl refl)
    wake-IsOutput _ _ e h = h

    pub writable-Follows :
        (n now : ℕ) (e : EventInfo) (memory : ℕ → ℕ)
        → IsOutput e.state
        → Follows hooks balance
            (writable hooks io n now e memory balance).memory
            (writable hooks io n now e memory balance).watch
            (writable hooks io n now e memory balance).balance
    unfolding writable
    writable-Follows n now e memory h =
        elim (Bool-cases (ltb 0 e.notify.timeout && ltb e.notify.timeout now)) [
          | inl late ↦ rw late left
          | inr waits ↦ rw waits (
              send_some-Follows n (wake e.state e.notify.state e) memory
                (wake-IsOutput e.state e.notify.state e h))
        ]

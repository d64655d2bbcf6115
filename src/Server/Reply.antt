-- ===== src/Server/Reply.antt =====
-- The reply of the server goes out, in as many parts as the socket takes.
use alter.Common.{
  ℕ, ◌+◌, ◌-◌, ◌<◌, true, false, List, [], ◌∷◌, ◌++◌, ◌||◌, ◌&&◌, leb, ltb, length, ◌≡◌, refl, inl,
  inr, arith, Bool-cases, ap, ◌∙◌,
}
use mathlib.Core.List.{append-nil}
use alter.Common.Bytes.{read, write, read-append}
use alter.Pipe.Defs.{Io, done, again, is_again, is_eof}
use alter.Server.Defs.{
  Status, complete, EventState, disabled, wait_response, send_start, send_complete, to_complete,
  EventInfo, Notify, Hooks, Watch, polled_in, polled_out, closed, advance, after_send, switch_sent,
  send_some, wake, writable, read_start, wait_signal, begin_read, receive, readable, switch_answer,
}

-- All parts have a byte or more.
pub data ArePositive : List ℕ → Type 0 where
  none_left : ArePositive []
  part : {n : ℕ} {ns : List ℕ} → 0 < n → ArePositive ns → ArePositive (n ∷ ns)

abbrev pub sum : List ℕ → ℕ
sum [] = 0
sum (n ∷ ns) = n + sum ns

abbrev pub goes_on : (EventInfo → List ℕ × Watch) → Watch → List ℕ × Watch
goes_on rest (polled_out e) = rest e
goes_on rest w = ([], w)

module _ (hooks : Hooks) (now : ℕ) (memory : ℕ → ℕ) (balance : ℕ) where
  -- The socket takes parts of the given lengths, one at each event.
  unfoldable pub deliver : List ℕ → EventInfo → List ℕ × Watch
  unfolding writable
  deliver [] e = ([], polled_out e)
  deliver (n ∷ ns) e =
      let s = writable hooks done n now e memory balance in
      let rest = goes_on (λ e'. deliver ns e') s.watch in (s.wire ++ rest.0, rest.1)

  -- The connection has sent `o` bytes of its reply.
  pub record IsSending (e : EventInfo) (o : ℕ) : Type 0 where
    pub state : e.state ≡ send_start
    pub timely : e.notify.timeout ≡ 0
    pub reader : e.reader ≡ e.notify.buffer + o
    pub offset : e.offset ≡ o
    pub size : e.size ≡ e.notify.size

  abbrev all_sent : ℕ → EventInfo → EventInfo
  all_sent n e = record (advance n e) { offset = e.size; state = send_complete }

  in_time :
      (e : EventInfo)
      → e.notify.timeout ≡ 0
      → (ltb 0 e.notify.timeout && ltb e.notify.timeout now) ≡ false
  in_time e h = ground (arith, h)

  writable-part :
      (e : EventInfo) (o n : ℕ)
      → IsSending e o
      → 0 < n
      → o + n < e.size
      → writable hooks done n now e memory balance ≡ record {
        watch = polled_out (advance n e);
        memory = memory;
        wire = read memory (e.notify.buffer + o) n;
        balance = balance;
      }
  unfolding writable send_some wake switch_sent
  writable-part e o n h positive more =
      let short : leb e.size (o + n) ≡ false = ground (arith, more) in
      let moved : leb n 0 ≡ false = ground (arith, positive) in
      rw (in_time e h.timely) (simp (h.state, h.reader, h.offset, short, moved))

  writable-whole :
      (io : Io) (e : EventInfo) (o n : ℕ)
      → IsSending e o
      → (leb e.size (o + n) || is_again io) ≡ true
      → writable hooks io n now e memory balance ≡ record {
        watch = after_send (hooks.send_after e.notify.buffer e.notify.size) (all_sent n e);
        memory = memory;
        wire = read memory (e.notify.buffer + o) n;
        balance = balance;
      }
  unfolding writable send_some wake switch_sent to_complete
  writable-whole io e o n h whole =
      rw (in_time e h.timely) (simp (h.state, h.reader, h.offset, whole))

  -- What the connection is told when its reply is out.
  pub record Replies (e : EventInfo) (o : ℕ) (run : List ℕ × Watch) : Type 0 where
    pub content : run.0 ≡ read memory (e.notify.buffer + o) (e.notify.size - o)
    pub last : EventInfo
    pub kept : last.notify ≡ e.notify
    pub ends : run.1 ≡ after_send (hooks.send_after e.notify.buffer e.notify.size) last

  goes_on-nothing : (w : Watch) → goes_on (λ e'. deliver [] e') w ≡ ([], w)
  unfolding deliver
  goes_on-nothing (polled_in e) = refl
  goes_on-nothing (polled_out e) = refl
  goes_on-nothing closed = refl

  nothing_left : (ns : List ℕ) → ArePositive ns → sum ns ≡ 0 → ns ≡ []
  nothing_left [] p h = refl
  nothing_left (n ∷ ns) (part positive p) h = absurd (omega arith)

  -- When a connection of the server has a part of its reply to send, without a timeout, and the
  -- socket takes the rest in parts of a byte or more, the bytes taken are the rest of the reply,
  -- and send_after is then asked what to do.
  pub deliver-Replies :
      (ns : List ℕ) (e : EventInfo) (o : ℕ)
      → IsSending e o
      → ArePositive ns
      → o < e.notify.size
      → o + sum ns ≡ e.notify.size
      → Replies e o (deliver ns e)
  unfolding deliver
  deliver-Replies [] e o h p more all = absurd (omega arith)
  deliver-Replies (n ∷ ns) e o h (part positive p) more all =
      elim (Bool-cases (leb e.size (o + n))) [
        | inl whole ↦
            let over : (leb e.size (o + n) || false) ≡ true = ground (arith, whole) in
            let at_end : ns ≡ [] = nothing_left ns p (ground (arith, whole, h.size)) in
            let amount : n ≡ e.notify.size - o = ground (arith, whole, h.size, at_end) in
            rw (writable-whole done e o n h over, at_end, goes_on-nothing)
              (record {
                content =
                    append-nil (read memory (e.notify.buffer + o) n)
                    ∙ ap (read memory (e.notify.buffer + o)) amount;
                last = all_sent n e;
                kept = refl;
                ends = refl;
              })
        | inr short ↦
            let step = writable-part e o n h positive (ground (arith, short)) in
            let rest =
              deliver-Replies ns (advance n e) (o + n)
                (record {
                  state = h.state;
                  timely = h.timely;
                  reader = omega (arith, h.reader);
                  offset = omega (arith, h.offset);
                  size = h.size;
                })
                p (ground (arith, short, h.size)) (omega arith) in
            let amount : e.notify.size - o ≡ n + (e.notify.size - (o + n)) =
              ground (arith, short, h.size) in
            let place : e.notify.buffer + (o + n) ≡ e.notify.buffer + o + n = omega arith in
            rw step (record {
              content =
                  rw (amount, read-append memory (e.notify.buffer + o) n (e.notify.size - (o + n)))
                    (ap (λ bs. read memory (e.notify.buffer + o) n ++ bs)
                      (rw place at rest.content));
              last = rest.last;
              kept = rest.kept;
              ends = rest.ends;
            })
      ]

  send_some-wire :
      (io : Io) (n : ℕ) (e : EventInfo) (m : ℕ → ℕ)
      → (send_some hooks io n e m balance).wire ≡ read m e.reader n
  unfolding send_some
  send_some-wire io n e m = elim (Bool-cases (leb e.size (e.offset + n) || is_again io)) [
    | inl whole ↦ rw whole refl
    | inr short ↦ elim (Bool-cases (is_eof io || leb n 0)) [
      | inl stop ↦ rw (short, stop) refl
      | inr on ↦ rw (short, on) refl
    ]
  ]

  wake-waits :
      (state : EventState) (answer : Status) (e : EventInfo)
      → state ≡ wait_response
      → answer ≡ wait_signal
      → wake state answer e ≡ e
  unfolding wake
  wake-waits state answer e h h' = simp (h, h')

  -- While a connection waits for its answer, what lies behind the request in the buffer is sent.
  waiting-wire :
      (e : EventInfo) (n : ℕ) (m : ℕ → ℕ)
      → e.state ≡ wait_response
      → e.notify.state ≡ wait_signal
      → e.notify.timeout ≡ 0
      → (writable hooks done n now e m balance).wire ≡ read m e.reader n
  unfolding writable
  waiting-wire e n m at waits timely = rw (in_time e timely) (
      ap (λ e'. (send_some hooks done n e' m balance).wire)
        (wake-waits e.state e.notify.state e at waits)
      ∙ send_some-wire done n e m)

  -- When the socket takes nothing of the rest of a reply and says that it would block, the
  -- server asks send_after as if all were sent, and when that says complete, waits for the next
  -- request.
  pub again-Drops :
      (e : EventInfo) (o : ℕ)
      → IsSending e o
      → o < e.notify.size
      → hooks.send_after e.notify.buffer e.notify.size ≡ complete
      → (e' : EventInfo) × (writable hooks again 0 now e memory balance
          ≡ record { watch = polled_in e'; memory = memory; wire = []; balance = balance })
        × (e'.state ≡ disabled)
  unfolding after_send read
  again-Drops e o h more good =
      let taken : (leb e.size (o + 0) || true) ≡ true = ground arith in
      (
        record (all_sent 0 e) { state = disabled; reader = 0; offset = 0; size = 0 },
        writable-whole again e o 0 h taken ∙ simp good,
        refl,
      )

  -- When a request comes in and recv_send says that the answer is to come, without a timeout,
  -- then at the next event for output, with the answer still to come, the server sends bytes
  -- from behind the request in its buffer.
  pub readable-writable-Leaks :
      (e : EventInfo) (bs : List ℕ) (n : ℕ) (notify : Notify)
      → e.state ≡ read_start
      → 0 < length bs
      → hooks.recv_send
          (write memory e.reader bs)
          (record e.notify { size = e.offset + length bs; timeout = 0 })
        ≡ (wait_signal, notify)
      → notify.timeout ≡ 0
      → notify.state ≡ wait_signal
      → (e' : EventInfo) × ((readable hooks done bs e memory balance).watch ≡ polled_out e')
        × ((writable hooks done n now e' (write memory e.reader bs) balance).wire
            ≡ read (write memory e.reader bs) (e.reader + length bs) n)
  unfolding readable receive begin_read switch_answer
  readable-writable-Leaks e bs n notify at some_in says timely waits =
      let on : leb (length bs) 0 ≡ false = ground (arith, some_in) in
      (
        record (advance (length bs) e) { notify = notify; state = wait_response },
        simp (at, on, says),
        waiting-wire (record (advance (length bs) e) { notify = notify; state = wait_response }) n
            (write memory e.reader bs) refl waits timely,
      )

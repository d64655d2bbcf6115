-- ===== src/Pipe/Faults.antt =====
-- What goes wrong in the socket pipe, and what the sender does about it.
use alter.Common.{
  ℕ, ◌+◌, ◌-◌, ◌<◌, true, List, [], ◌∷◌, ltb, Option, none, some, ◌≡◌, ◌⊎◌, refl, arith, ap, ◌∙◌,
  inl, inr, ◌||◌,
}
use alter.Common.Bytes.{write}
use alter.Pipe.Defs.{
  Connection, disabled, wait_response, send_header_start, advance, Io, done, aim,
  sizeof_frl_pipe_block_buffer, buffer_at, header_at, size_at, hash_at, to_complete, Watch,
  watch_in, closed, out_of_bounds,
}
use alter.Pipe.Receiver.{
  Hooks, on_block, readable, writable, switch_in, progress_in, progress_out, switch_out,
}
use alter.Pipe.Sender.{SenderHooks, Link, send, lose}
use alter.Pipe.Arrival.{after_io_complete}

-- The receiver is told of events while the connection has nothing to read into: at each, recv is
-- asked for no bytes and gives none.
abbrev pub poll_on : {A : Type 0} → (Connection → Option A) → Watch → Option (ℕ × ℕ) → Option A
poll_on rest (watch_in c) none = rest c
poll_on rest _ _ = none

unfoldable pub poll_idle : Hooks → List Io → Connection → (ℕ → ℕ) → Option Connection
unfolding readable
poll_idle hooks [] c memory = some c
poll_idle hooks (io ∷ ios) c memory =
    let h = readable hooks io [] c memory in
    poll_on (λ c'. poll_idle hooks ios c' h.memory) h.watch h.received

-- A connection that has no unit to read.
pub record IsIdle (c : Connection) : Type 0 where
  pub size : c.size ≡ 0
  pub state : (c.state ≡ disabled) ⊎ (c.state ≡ wait_response)

module _ (hooks : Hooks) where
  abbrev idle : Connection → Connection
  idle c = record (advance 0 c) {
    bytes = write c.bytes c.reader [];
    offset = c.size;
    state = to_complete c.state;
  }

  idle-switch :
      (c : Connection) (memory : ℕ → ℕ)
      → (c.state ≡ disabled) ⊎ (c.state ≡ wait_response)
      → (to_complete c.state ≡ wait_response)
        × (switch_in hooks (to_complete c.state) (idle c) memory
            ≡ record { watch = watch_in (idle c); memory = memory; received = none })
  unfolding switch_in to_complete
  idle-switch c memory (inl e) = (rw e refl, simp e)
  idle-switch c memory (inr e) = (rw e refl, simp e)

  idle-step :
      (io : Io) (c : Connection) (memory : ℕ → ℕ)
      → IsIdle c
      → IsIdle (idle c)
        × (readable hooks io [] c memory
            ≡ record { watch = watch_in (idle c); memory = memory; received = none })
  idle-step io c memory i =
      let (waits, runs) = idle-switch c memory i.state in
      (
        record { size = i.size; state = inr waits },
        unfold readable in
            ap (progress_in hooks memory) (
              after_io_complete io 0 (record c { bytes = write c.bytes c.reader [] })
                (omega (arith, i.size)))
            ∙ runs,
      )

  poll_idle-IsIdle :
      (ios : List Io) (c : Connection) (memory : ℕ → ℕ)
      → IsIdle c
      → (c' : Connection) × (poll_idle hooks ios c memory ≡ some c') × IsIdle c'
  unfolding poll_idle
  poll_idle-IsIdle [] c memory i = (c, refl, i)
  poll_idle-IsIdle (io ∷ ios) c memory i =
      let (i', runs) = idle-step io c memory i in
      let (c', rest, end) = poll_idle-IsIdle ios (idle c) memory i' in (c', rw runs rest, end)

  abbrev replied : Connection → Connection
  replied r = record (advance (r.size - r.offset) r) {
    offset = r.size;
    state = to_complete r.state;
  }

  writable_complete :
      (r : Connection)
      → writable done (r.size - r.offset) r ≡ switch_out (to_complete r.state) (replied r)
  writable_complete r =
      unfold writable in
      ap progress_out (after_io_complete done (r.size - r.offset) r (omega arith))

  -- When the receiver of a pipe has sent the receipt of a message whole, the connection is
  -- polled for input, but at any events after that it takes in no bytes, and stays without a
  -- unit to read.
  pub answered-polls :
      (r : Connection) (ios : List Io) (memory : ℕ → ℕ)
      → r.state ≡ send_header_start
      → (c c' : Connection) × (writable done (r.size - r.offset) r ≡ watch_in c)
        × (poll_idle hooks ios c memory ≡ some c')
        × IsIdle c'
  unfolding switch_out to_complete
  answered-polls r ios memory e =
      let c = aim 0 0 disabled (replied r) in
      let (c', runs, end) =
        poll_idle-IsIdle ios c memory (record { size = refl; state = inl refl }) in
      (c, c', writable_complete r ∙ simp e, runs, end)

  -- When the size in the header of a block that has come in is above the size of a block, or
  -- above what is left of the data, the copy of the block goes out of bounds, before any hash is
  -- compared.
  pub on_block-overrun :
      (c : Connection) (memory : ℕ → ℕ)
      → (sizeof_frl_pipe_block_buffer < size_at c.bytes buffer_at)
        ⊎ (c.data_size < c.data_mark + size_at c.bytes buffer_at)
      → (on_block hooks c memory).watch ≡ out_of_bounds
  unfolding on_block
  on_block-overrun c memory h =
      let over : (ltb sizeof_frl_pipe_block_buffer (size_at c.bytes buffer_at)
            || ltb c.data_size (c.data_mark + size_at c.bytes buffer_at))
          ≡ true =
        ground (arith, h) in
      rw over refl

-- What becomes of the message of a connection when its receipt comes in: the connection keeps it; or
-- the connection is closed, and the message is queued again; or the receipt has the hash of the
-- message, and the message is done with. `came` is the header with what has come in.
pub data Keeps (hooks : SenderHooks) (came : ℕ → ℕ) (c : Connection) (l : Link)
    : Watch × Link → Type 0 where
  kept :
      {c' : Connection}
      → c'.data_buf ≡ c.data_buf
      → c'.data_size ≡ c.data_size
      → Keeps hooks came c l (watch_in c', l)
  queued_again : Keeps hooks came c l (closed, lose (send c.data_buf c.data_size l))
  settled :
      {w : Watch} {l' : Link}
      → c.data_mark ≡ hash_at came header_at
      → l'.send_queue ≡ l.send_queue
      → Keeps hooks came c l (w, l')

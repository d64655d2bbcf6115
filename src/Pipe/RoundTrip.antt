-- ===== src/Pipe/RoundTrip.antt =====
-- From the queue of the sender to the receiver's buffer, and back with the receipt.
use alter.Common.{
  ℕ, zero, suc, ◌+◌, ◌-◌, ◌^◌, ◌<◌, true, false, List, ◌∷◌, ◌==◌, if◌then◌else◌, length, Option,
  none, some, ◌≡◌, refl, arith, ap, ◌∙◌,
}
use alter.Common.Bytes.{read, write, write-read, get_u32-same, length-read}
use alter.Pipe.Defs.{
  u32, Connection, disabled, read_block_start, send_header_start, done, aim,
  sizeof_frl_pipe_header_t, block_size, unit_size, header_at, buffer_at, size_at, hash_at,
  to_complete, watch_in, watch_out, closed, set_header,
}
use alter.Pipe.Receiver.{Hooks, Handled, accepted, on_header, on_buffer, readable, switch_in}
use alter.Pipe.Sender.{
  SenderHooks, Link, ready, take_message, switch_sent, fill_block, sender_readable, on_receipt,
  switch_receipt, progress_receipt, lose,
}
use alter.Pipe.Block.{Expects, fill_block-Loaded, size_at-set_header, hash_at-set_header}
use alter.Pipe.Arrival.{readable_complete, after_io_complete, completed}
use alter.Pipe.Exchange.{exchange, all_sent}
use alter.Pipe.Message.{Arrives, blocks-Arrive, fill_block-header}

module _ (hooks : SenderHooks) (hooks' : Hooks) (source : ℕ → ℕ) (l : Link)
    (buf len target : ℕ) where
  -- The sender with the header of the message, before its first byte.
  abbrev loaded : Connection → Connection
  loaded c = aim header_at sizeof_frl_pipe_header_t send_header_start (record c {
    bytes = set_header c.bytes header_at len (u32 (hooks.hashlittle (read source buf len)));
    data_buf = buf;
    data_mark = 0;
    data_size = len;
  })

  abbrev header_bytes : Connection → List ℕ
  header_bytes c = read (loaded c).bytes header_at sizeof_frl_pipe_header_t

  -- The receiver behind the header.
  abbrev opened : Connection → Connection → Connection
  opened c r =
      aim buffer_at (unit_size len) read_block_start
        (record (completed (header_bytes c) (accepted r)) {
          data_buf = target;
          data_mark = 0;
          data_size = len;
        })

  there :
      (c r : Connection) (p : ℕ)
      → p < 8
      → (completed (header_bytes c) (accepted r)).bytes p ≡ (loaded c).bytes p
  unfolding accepted
  there c r p h = write-read r.bytes (loaded c).bytes 0 8 p (omega arith) (omega arith)

  opened-hash :
      (c r : Connection)
      → hash_at (opened c r).bytes header_at ≡ u32 (hooks.hashlittle (read source buf len))
  opened-hash c r =
      get_u32-same _ (loaded c).bytes (header_at + 4) (λ p low high. there c r p (omega arith))
      ∙ hash_at-set_header c.bytes header_at len (u32 (hooks.hashlittle (read source buf len)))
      ∙ omega arith

  opened-size :
      (c r : Connection)
      → len < 2 ^ 32
      → size_at (completed (header_bytes c) (accepted r)).bytes header_at ≡ len
  opened-size c r small =
      get_u32-same _ (loaded c).bytes header_at (λ p low high. there c r p (omega arith))
      ∙ size_at-set_header c.bytes header_at len (u32 (hooks.hashlittle (read source buf len)))
      ∙ omega (arith, small)

  header-received :
      (c r : Connection) (memory : ℕ → ℕ)
      → len < 2 ^ 32
      → hooks'.recv_before len ≡ some (target, len)
      → readable hooks' done (header_bytes c) (accepted r) memory
        ≡ record { watch = watch_in (opened c r); memory = memory; received = none }
  unfolding switch_in to_complete on_header accepted
  header-received c r memory small before =
      readable_complete hooks' (header_bytes c) (accepted r) memory
        (omega (arith, length-read (loaded c).bytes 0 8))
      ∙ ap (λ n. on_buffer (completed (header_bytes c) (accepted r)) memory (hooks'.recv_before n))
          (opened-size c r small)
      ∙ ap (on_buffer (completed (header_bytes c) (accepted r)) memory) before

  header-run :
      (k : ℕ) (c r : Connection) (memory : ℕ → ℕ)
      → len < 2 ^ 32
      → hooks'.recv_before len ≡ some (target, len)
      → exchange hooks hooks' source l (suc k) (loaded c) (accepted r) memory
        ≡ exchange hooks hooks' source l k
            (fill_block hooks source 0 len (all_sent hooks hooks' source l (loaded c)))
            (opened c r)
            memory
  unfolding exchange switch_sent to_complete
  header-run k c r memory small before = simp (header-received c r memory small before)

  opened-Expects :
      (c r : Connection) (memory : ℕ → ℕ)
      → Expects hooks source buf len (opened c r) memory target 0 (block_size len)
  unfolding read
  opened-Expects c r memory = record {
    state = refl;
    reader = refl;
    offset = refl;
    size = ground arith;
    mark = refl;
    data_buf = refl;
    data_size = refl;
    whole_hash = opened-hash c r;
    arrived = refl;
  }

  -- When the queue of a pipe holds a message of a size below 2 ^ 32, the receiver gives a buffer
  -- of that size and both sides hash alike, the sender takes the message from the queue, and
  -- when it sends and the receiver takes in whole units in turn, with fuel for two more than the
  -- bytes of the message, the buffer ends up with the bytes of the message; the sender waits for
  -- the receipt, and the receiver is about to send one that has the hash of the message.
  pub exchange-Arrives :
      (c r : Connection) (memory : ℕ → ℕ) (rest : List (ℕ × ℕ)) (k : ℕ)
      → len < 2 ^ 32
      → hooks'.hashlittle ≡ hooks.hashlittle
      → hooks'.recv_before len ≡ some (target, len)
      → hooks'.recv_after target len ≡ false
      → l.send_queue ≡ (buf, len) ∷ rest
      → len + 1 < k
      → (s : Connection) × (l' : Link) × (take_message hooks source c l disabled ≡ ready s l')
        × (l'.send_queue ≡ rest)
        × Arrives hooks hooks' source l buf len target
            (exchange hooks hooks' source l k s (accepted r) memory)
  exchange-Arrives c r memory rest zero small same before goes_on queued h = absurd (omega arith)
  exchange-Arrives c r memory rest (suc k) small same before goes_on queued h =
      let s = all_sent hooks hooks' source l (loaded c) in
      let start : len - 0 ≡ len = omega arith in
      (
        loaded c,
        record l { send_queue = rest; write_available = l.write_available - 1 },
        unfold take_message in simp queued,
        refl,
        rw (header-run k c r memory small before) (
            blocks-Arrive hooks hooks' source l buf len target same goes_on k 0 (block_size len)
              (rw start at (fill_block-Loaded hooks source buf len s 0 refl refl refl))
              (opened-Expects c r memory)
              (fill_block-header hooks source 0 len s
                ∙ hash_at-set_header c.bytes header_at len
                    (u32 (hooks.hashlittle (read source buf len)))
                ∙ omega arith)
              (ground arith) (ground arith)),
      )

  module _ {run : Option (Connection × Handled)}
      (a : Arrives hooks hooks' source l buf len target run) where
    abbrev pub receipt : List ℕ
    receipt = read a.r'.bytes a.r'.reader (a.r'.size - a.r'.offset)

    receipt-there : (p : ℕ) → p < 8 → (completed receipt a.s').bytes p ≡ a.r'.bytes p
    receipt-there p h =
        simp (a.waits_at.0, a.receipt_at.0, a.receipt_at.1, a.receipt_at.2)
          (write-read a.s'.bytes a.r'.bytes 0 (8 - 0) p (omega arith) (omega arith))

    receipt-matches : (a.s'.data_mark == hash_at (completed receipt a.s').bytes header_at) ≡ true
    receipt-matches =
        let same =
          get_u32-same (completed receipt a.s').bytes a.r'.bytes (header_at + 4)
            λ p low high. receipt-there p (omega arith) in
        ground (arith, same, a.receipt_hash, a.kept.2)

    receipt_complete :
        (l' : Link)
        → sender_readable hooks done receipt a.s' l'
          ≡ switch_receipt hooks (to_complete a.s'.state) (completed receipt a.s') l'
    receipt_complete l' =
        unfold sender_readable in
        ap (progress_receipt hooks a.s' l') (
          after_io_complete done (length receipt)
            (record a.s' { bytes = write a.s'.bytes a.s'.reader receipt })
            (omega (
              arith,
              length-read a.r'.bytes a.r'.reader (a.r'.size - a.r'.offset),
              a.waits_at.1,
              a.waits_at.2,
              a.receipt_at.1,
              a.receipt_at.2,
            )))

    -- When an exchange has ended with the message at the receiver, and the receipt comes in
    -- whole, the sender finds the hash of the message in it: it closes the connection when
    -- send_after interrupts, and is ready for the next message otherwise, and queues nothing
    -- again.
    pub receipt-settles :
        (l' : Link)
        → sender_readable hooks done receipt a.s' l' ≡ (
            if hooks.send_after buf len
            then (closed, lose l')
            else (watch_out (aim 0 0 disabled (completed receipt a.s')), l'))
    unfolding switch_receipt to_complete on_receipt
    receipt-settles l' = receipt_complete l' ∙ simp (a.waits, receipt-matches, a.kept.0, a.kept.1)

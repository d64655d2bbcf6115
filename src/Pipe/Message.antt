-- ===== src/Pipe/Message.antt =====
-- A whole message goes through a pipe.
use alter.Common.{
  ℕ, zero, suc, ◌+◌, ◌-◌, ◌≤◌, ◌<◌, true, false, List, leb, ltb, ◌==◌, if◌then◌else◌, Option, none,
  some, ◌≡◌, refl, arith, ap, ◌∙◌, inl, inr, Bool-cases,
}
use alter.Common.Bytes.{read, write, write-other, get_u32-same, length-read, read-write_on}
use alter.Pipe.Defs.{
  u32, Connection, read_header_start, send_header_start, done, aim, sizeof_frl_pipe_header_t,
  block_size, header_at, buffer_at, start_at, hash_at, to_complete, watch_in, watch_out,
}
use alter.Pipe.Receiver.{Hooks, Handled, on_data, readable, switch_in}
use alter.Pipe.Sender.{SenderHooks, Link, fill_block}
use alter.Pipe.Block.{Loaded, Expects, fill_block-Loaded, set_header-other}
use alter.Pipe.Arrival.{on_block-Received, readable_complete, completed, behind, next_block}
use alter.Pipe.Exchange.{
  exchange, send_some_complete, all_sent, switch-more, switch-done, wire, completed-Received,
}

pub fill_block-header :
    (hooks : SenderHooks) (source : ℕ → ℕ) (from rest : ℕ) (c : Connection)
    → hash_at (fill_block hooks source from rest c).bytes header_at ≡ hash_at c.bytes header_at
unfolding fill_block
fill_block-header hooks source from rest c =
    let bs = read source (c.data_buf + from) (block_size rest) in
    get_u32-same _ c.bytes (header_at + 4) λ a low high.
      set_header-other (write c.bytes start_at bs) buffer_at _ _ a (inl (omega arith))
      ∙ write-other c.bytes start_at bs a (inl (omega arith))

module _ (hooks : SenderHooks) (hooks' : Hooks) (source : ℕ → ℕ) (l : Link)
    (buf len target : ℕ) where
  abbrev pub whole : ℕ
  whole = u32 (hooks.hashlittle (read source buf len))

  -- The receiver has the message, and is about to send its header back; the sender waits for it.
  pub record Arrives (run : Option (Connection × Handled)) : Type 0 where
    pub s' : Connection
    pub h : Handled
    pub r' : Connection
    pub runs : run ≡ some (s', h)
    pub waits : s'.state ≡ read_header_start
    pub waits_at : (s'.reader ≡ header_at) × (s'.offset ≡ 0) × (s'.size ≡ sizeof_frl_pipe_header_t)
    pub kept : (s'.data_buf ≡ buf) × (s'.data_size ≡ len) × (s'.data_mark ≡ whole)
    pub answers : h.watch ≡ watch_out r'
    pub receipt : r'.state ≡ send_header_start
    pub receipt_at :
        (r'.reader ≡ header_at) × (r'.offset ≡ 0) × (r'.size ≡ sizeof_frl_pipe_header_t)
    pub receipt_hash : hash_at r'.bytes header_at ≡ whole
    pub received : h.received ≡ some (target, len)
    pub content : read h.memory target len ≡ read source buf len

  module _ (same : hooks'.hashlittle ≡ hooks.hashlittle)
      (goes_on : hooks'.recv_after target len ≡ false) where
    module _ {s r : Connection} {memory : ℕ → ℕ} {o n : ℕ} (g : Loaded hooks source buf len s o n)
        (x : Expects hooks source buf len r memory target o n) (fits : o + n ≤ len) where
      abbrev bs : List ℕ
      bs = wire hooks hooks' source l buf len target s

      abbrev chunk : List ℕ
      chunk = read source (buf + o) n

      abbrev memory' : ℕ → ℕ
      memory' = write memory (target + o) chunk

      receive-step : readable hooks' done bs r memory ≡ (
          if leb len (o + n)
          then on_data hooks' (behind (completed bs r) (o + n)) memory'
          else record {
            watch = watch_in (next_block (completed bs r) len (o + n));
            memory = memory';
            received = none;
          })
      unfolding switch_in to_complete
      receive-step =
          readable_complete hooks' bs r memory (
            omega (
              arith,
              length-read s.bytes s.reader (s.size - s.offset),
              g.size,
              g.offset,
              x.size,
              x.offset,
            ))
          ∙ simp x.state (
              on_block-Received hooks' (completed bs r) memory
                (completed-Received hooks hooks' source l buf len target g x same)
                (ground (arith, g.block)) fits)

      header_kept : hash_at (completed bs r).bytes header_at ≡ whole
      header_kept =
          get_u32-same (completed bs r).bytes r.bytes (header_at + 4)
            (λ c low high. write-other r.bytes r.reader bs c (inl (omega (arith, x.reader))))
          ∙ x.whole_hash

      content' : read memory' target (o + n) ≡ read source buf (o + n)
      content' = read-write_on memory source target buf o n x.arrived

      abbrev waiting : Connection
      waiting =
          aim header_at sizeof_frl_pipe_header_t read_header_start
            (record (all_sent hooks hooks' source l s) { data_mark = hash_at s.bytes header_at })

      abbrev answering : Connection
      answering =
          aim header_at sizeof_frl_pipe_header_t send_header_start (behind (completed bs r) (o + n))

      abbrev h_end : Handled
      h_end = record {
        watch = watch_out answering;
        memory = memory';
        received = some (target, len);
      }

      all-data : o + n ≡ len → on_data hooks' (behind (completed bs r) (o + n)) memory' ≡ h_end
      unfolding on_data
      all-data end =
          let intact : (u32 (hooks'.hashlittle (read memory' target len))
                == hash_at (completed bs r).bytes header_at)
              ≡ true =
            ground (
              arith,
              header_kept,
              ap (λ b. u32 (hooks'.hashlittle b)) (rw end at content'),
              ap (λ h. u32 (h (read source buf len))) same,
            ) in
          simp (x.data_buf, x.data_size, intact, goes_on)

      last-run :
          (k : ℕ)
          → o + n ≡ len
          → exchange hooks hooks' source l (suc k) s r memory ≡ some (waiting, h_end)
      unfolding exchange
      last-run k end =
          let full : leb len (o + n) ≡ true = ground arith in
          simp (
            send_some_complete hooks hooks' source l s,
            switch-done hooks hooks' source l buf len target g (omega (arith, end)),
            receive-step,
            full,
            all-data end,
          )

      last-Arrives :
          (k : ℕ)
          → hash_at s.bytes header_at ≡ whole
          → o + n ≡ len
          → Arrives (exchange hooks hooks' source l (suc k) s r memory)
      last-Arrives k head end = record {
        s' = waiting;
        h = h_end;
        r' = answering;
        runs = last-run k end;
        waits = refl;
        waits_at = (refl, refl, refl);
        kept = (g.data_buf, g.data_size, head);
        answers = refl;
        receipt = refl;
        receipt_at = (refl, refl, refl);
        receipt_hash = header_kept;
        received = refl;
        content = rw end at content';
      }

      next-Expects :
          o + n < len
          → Expects hooks source buf len
              (next_block (completed bs r) len (o + n))
              memory'
              target
              (o + n)
              (block_size (len - (o + n)))
      next-Expects more = record {
        state = refl;
        reader = refl;
        offset = refl;
        size = ground arith;
        mark = refl;
        data_buf = x.data_buf;
        data_size = x.data_size;
        whole_hash = header_kept;
        arrived = content';
      }

      next-run :
          (k : ℕ)
          → o + n < len
          → exchange hooks hooks' source l (suc k) s r memory
            ≡ exchange hooks hooks' source l k
                (fill_block hooks source (o + n) (len - (o + n)) (all_sent hooks hooks' source l s))
                (next_block (completed bs r) len (o + n))
                memory'
      unfolding exchange
      next-run k more =
          let not_full : leb len (o + n) ≡ false = ground arith in
          simp (
            send_some_complete hooks hooks' source l s,
            switch-more hooks hooks' source l buf len target g more,
            receive-step,
            not_full,
          )

    pub blocks-Arrive :
        (k o n : ℕ) {s r : Connection} {memory : ℕ → ℕ}
        → Loaded hooks source buf len s o n
        → Expects hooks source buf len r memory target o n
        → hash_at s.bytes header_at ≡ whole
        → o + n ≤ len
        → len - (o + n) < k
        → Arrives (exchange hooks hooks' source l k s r memory)
    blocks-Arrive zero o n g x head fits h = absurd (omega arith)
    blocks-Arrive (suc k) o n {s} {r} {memory} g x head fits h =
        elim (Bool-cases (ltb (o + n) len)) [
          | inr end ↦ last-Arrives g x fits k head (ground arith)
          | inl more ↦ rw (next-run g x fits k (ground arith)) (
              blocks-Arrive k (o + n) (block_size (len - (o + n)))
                (fill_block-Loaded hooks source buf len (all_sent hooks hooks' source l s) (o + n)
                  g.data_buf g.data_size g.mark)
                (next-Expects g x fits (ground arith))
                (fill_block-header hooks source (o + n) (len - (o + n))
                    (all_sent hooks hooks' source l s)
                  ∙ head)
                (ground arith) (ground arith))
        ]

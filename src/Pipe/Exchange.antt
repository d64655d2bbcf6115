-- ===== src/Pipe/Exchange.antt =====
-- A message goes through a pipe: the sender's block-by-block loop and the receiver's, in turn, over a
-- connection that takes and gives whole units.
use alter.Common.{
  ℕ, zero, suc, ◌+◌, ◌-◌, ◌≤◌, ◌<◌, true, false, List, ltb, Option, none, some, ◌≡◌, arith, ap, ◌∙◌,
  sym,
}
use alter.Common.Bytes.{read, read-same, write-read, get_u32-same}
use alter.Pipe.Defs.{
  u32, Connection, read_header_start, done, aim, advance, sizeof_frl_pipe_header_t, header_at,
  buffer_at, start_at, hash_at, to_complete, Watch, watch_in, watch_out,
}
use alter.Pipe.Receiver.{Hooks, Handled, readable}
use alter.Pipe.Sender.{SenderHooks, Link, send_some, switch_sent, progress_sent, fill_block}
use alter.Pipe.Block.{Loaded, Expects}
use alter.Pipe.Arrival.{Received, after_io_complete, completed}

-- Both go on, or the sender waits for the receipt.
abbrev pub meet :
    (Connection → Connection → (ℕ → ℕ) → Option (Connection × Handled))
    → Handled
    → (s r : Watch) → Option (Connection × Handled)
meet rest h (watch_out s) (watch_in r) = rest s r h.memory
meet rest h (watch_in s) r = some (s, h)
meet rest h _ _ = none

module _ (hooks : SenderHooks) (hooks' : Hooks) (source : ℕ → ℕ) (l : Link) where
  -- The sender sends a unit, the receiver takes it in, and so on until the sender has sent all:
  -- where the two are then, or `none` when one has closed the connection or the fuel runs out.
  unfoldable pub exchange :
      ℕ → (s r : Connection) → (memory : ℕ → ℕ) → Option (Connection × Handled)
  unfolding send_some readable
  exchange zero s r memory = none
  exchange (suc k) s r memory =
      let sent = send_some hooks source done (s.size - s.offset) s l in
      let h = readable hooks' done sent.wire r memory in
      meet (λ s' r' m. exchange k s' r' m) h sent.watch h.watch

  -- The sender behind a unit that went out whole.
  abbrev pub all_sent : Connection → Connection
  all_sent s = record (advance (s.size - s.offset) s) {
    offset = s.size;
    state = to_complete s.state;
  }

  pub send_some_complete :
      (s : Connection)
      → send_some hooks source done (s.size - s.offset) s l ≡ record {
        watch = switch_sent hooks source (to_complete s.state) (all_sent s);
        link = l;
        wire = read s.bytes s.reader (s.size - s.offset);
      }
  send_some_complete s =
      unfold send_some in
      ap (progress_sent hooks source s l (read s.bytes s.reader (s.size - s.offset)))
        (after_io_complete done (s.size - s.offset) s (omega arith))

  module _ (buf len target : ℕ) where
    -- The sender behind a block.
    pub switch-more :
        {s : Connection} {o n : ℕ}
        → Loaded hooks source buf len s o n
        → o + n < len
        → switch_sent hooks source (to_complete s.state) (all_sent s)
          ≡ watch_out (fill_block hooks source (o + n) (len - (o + n)) (all_sent s))
    unfolding switch_sent to_complete
    switch-more {s} {o} {n} g more =
        let on : ltb (o + n) len ≡ true = ground arith in simp (g.state, g.mark, g.data_size, on)

    pub switch-done :
        {s : Connection} {o n : ℕ}
        → Loaded hooks source buf len s o n
        → len ≤ o + n
        → switch_sent hooks source (to_complete s.state) (all_sent s)
          ≡ watch_in (
              aim header_at sizeof_frl_pipe_header_t read_header_start
                (record (all_sent s) { data_mark = hash_at s.bytes header_at }))
    unfolding switch_sent to_complete
    switch-done {s} {o} {n} g end =
        let off : ltb (o + n) len ≡ false = ground arith in simp (g.state, g.mark, g.data_size, off)

    abbrev pub wire : Connection → List ℕ
    wire s = read s.bytes s.reader (s.size - s.offset)

    chunk : (o n : ℕ) → List ℕ
    chunk o n = read source (buf + o) n

    -- The block is in the receiver's buffer.
    pub completed-Received :
        {s r : Connection} {memory : ℕ → ℕ} {o n : ℕ}
        → Loaded hooks source buf len s o n
        → Expects hooks source buf len r memory target o n
        → hooks'.hashlittle ≡ hooks.hashlittle
        → Received hooks' (completed (wire s) r) (read source (buf + o) n) target len o n
    completed-Received {s} {r} {memory} {o} {n} g x same = record {
      size = x.size;
      mark = x.mark;
      data_buf = x.data_buf;
      data_size = x.data_size;
      block_length =
          get_u32-same (completed (wire s) r).bytes s.bytes buffer_at
            (λ c low high. there c low (omega arith))
          ∙ g.block_length;
      block_hash =
          get_u32-same (completed (wire s) r).bytes s.bytes (buffer_at + 4)
            (λ c low high. there c (omega arith) (omega arith))
          ∙ g.block_hash
          ∙ ap (λ h. u32 (h (read source (buf + o) n))) (sym same);
      block_data =
          read-same (completed (wire s) r).bytes s.bytes start_at n
            (λ c low high. there c (omega arith) (omega arith))
          ∙ g.block_data;
    }
      where
        there : (c : ℕ) → 8 ≤ c → c < 16 + n → (completed (wire s) r).bytes c ≡ s.bytes c
        there c low high =
            simp (x.reader, g.reader, g.size, g.offset)
              (write-read r.bytes s.bytes 8 (n + 8 - 0) c low (omega arith))

-- ===== src/Pipe/Block.antt =====
-- One block goes from the sender's buffer to the receiver's memory.
use alter.Common.{ℕ, ◌+◌, ◌-◌, ◌%◌, ◌^◌, ◌≤◌, ◌<◌, ◌≡◌, ◌⊎◌, refl, arith, ap, ◌∙◌, inl, inr}
use alter.Common.Bytes.{
  read, write, set_u32, get_u32-set_u32, set_u32-other, read-same, get_u32-same, length-read,
  read-write,
}
use alter.Pipe.Defs.{
  u32, Connection, read_block_start, send_block_start, sizeof_frl_pipe_header_t, block_size,
  header_at, buffer_at, start_at, size_at, hash_at, set_header,
}
use alter.Pipe.Sender.{SenderHooks, fill_block}

pub size_at-set_header :
    (bytes : ℕ → ℕ) (p n h : ℕ) → size_at (set_header bytes p n h) p ≡ n % 2 ^ 32
size_at-set_header bytes p n h =
    get_u32-same (set_header bytes p n h) (set_u32 bytes p n) p
      (λ c l u. set_u32-other (set_u32 bytes p n) (p + 4) h c (inl (omega arith)))
    ∙ get_u32-set_u32 bytes p n

pub hash_at-set_header :
    (bytes : ℕ → ℕ) (p n h : ℕ) → hash_at (set_header bytes p n h) p ≡ h % 2 ^ 32
hash_at-set_header bytes p n h = get_u32-set_u32 (set_u32 bytes p n) (p + 4) h

pub set_header-other :
    (bytes : ℕ → ℕ) (p n h c : ℕ) → (c < p) ⊎ (p + 8 ≤ c) → set_header bytes p n h c ≡ bytes c
set_header-other bytes p n h c out =
    set_u32-other (set_u32 bytes p n) (p + 4) h c (ground (arith, out))
    ∙ set_u32-other bytes p n c (ground (arith, out))

module _ (hooks : SenderHooks) (source : ℕ → ℕ) (buf len : ℕ) where
  -- The sender is about to send the block of the bytes from `o` to `o + n`.
  pub record Loaded (s : Connection) (o n : ℕ) : Type 0 where
    pub state : s.state ≡ send_block_start
    pub reader : s.reader ≡ buffer_at
    pub offset : s.offset ≡ 0
    pub size : s.size ≡ n + sizeof_frl_pipe_header_t
    pub mark : s.data_mark ≡ o + n
    pub data_buf : s.data_buf ≡ buf
    pub data_size : s.data_size ≡ len
    pub block : n ≡ block_size (len - o)
    pub block_length : size_at s.bytes buffer_at ≡ n
    pub block_hash : hash_at s.bytes buffer_at ≡ u32 (hooks.hashlittle (read source (buf + o) n))
    pub block_data : read s.bytes start_at n ≡ read source (buf + o) n

  -- The receiver has the bytes up to `o`, and waits for that block.
  pub record Expects (r : Connection) (memory : ℕ → ℕ) (target o n : ℕ) : Type 0 where
    pub state : r.state ≡ read_block_start
    pub reader : r.reader ≡ buffer_at
    pub offset : r.offset ≡ 0
    pub size : r.size ≡ n + sizeof_frl_pipe_header_t
    pub mark : r.data_mark ≡ o
    pub data_buf : r.data_buf ≡ target
    pub data_size : r.data_size ≡ len
    pub whole_hash : hash_at r.bytes header_at ≡ u32 (hooks.hashlittle (read source buf len))
    pub arrived : read memory target o ≡ read source buf o

  pub fill_block-Loaded :
      (c : Connection) (o : ℕ)
      → c.data_buf ≡ buf
      → c.data_size ≡ len
      → c.data_mark ≡ o
      → Loaded (fill_block hooks source o (len - o) c) o (block_size (len - o))
  unfolding fill_block
  fill_block-Loaded c o at_buf at_len at_mark = record {
    state = refl;
    reader = refl;
    offset = refl;
    size = refl;
    mark = omega (arith, at_mark);
    data_buf = at_buf;
    data_size = at_len;
    block = refl;
    block_length = size_at-set_header copied buffer_at n hash ∙ ground arith;
    block_hash =
        hash_at-set_header copied buffer_at n hash
        ∙ (omega arith)
        ∙ ap (λ bs. u32 (hooks.hashlittle bs)) content;
    block_data =
        read-same (set_header copied buffer_at n hash) copied start_at n
          (λ c l u. set_header-other copied buffer_at n hash c (inr (omega arith)))
        ∙ content;
  }
    where
      n : ℕ
      n = block_size (len - o)

      copied : ℕ → ℕ
      copied = write c.bytes start_at (read source (c.data_buf + o) n)

      hash : ℕ
      hash = u32 (hooks.hashlittle (read copied start_at n))

      content : read copied start_at n ≡ read source (buf + o) n
      content =
          rw (length-read source (c.data_buf + o) n) at
            (read-write c.bytes start_at (read source (c.data_buf + o) n))
          ∙ rw at_buf refl

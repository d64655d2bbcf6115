-- ===== src/Slab/LockFree.antt =====
-- The stack of one block under frl_slab_palloc_lock_free and frl_slab_pfree_lock_free of
-- src/lib/frl_slab_pool.c, as the steps that `n` threads take in any order. A step has at most one access to
-- memory that other threads may write at that moment: while the stack pointer is DCAS_BUSY_VAL, only the
-- thread that set it writes the stack.
use alter.Common.{
  ℕ, ◌+◌, ◌<◌, Bool, false, List, ◌∷◌, ◌==◌, count, remove_one, update, if◌then◌else◌, Option, none,
  some, ◌≡◌,
}

-- Where a thread stands: outside; with `new_pointer`, one below the `attempt` it read, before and behind
-- its apr_atomic_casptr, in an allocation; and with an item to free: without
-- `attempt`, with it, and with `cmpval` too, before and behind the apr_atomic_casptr.
pub data Stand : Type 0 where
  outside : Stand
  popping popped : (new_pointer : ℕ) → Stand
  freeing : (item : ℕ) → Stand
  aiming : (item attempt : ℕ) → Stand
  pushing pushed : (item attempt cmpval : ℕ) → Stand

-- `stack_pointer` is counted from `usage_stack`, and `none` is DCAS_BUSY_VAL. `live` has the items
-- that are handed out.
pub record Shared : Type 0 where
  pub stack_pointer : Option ℕ
  pub usage_stack : ℕ → ℕ
  pub live : List ℕ
  pub stand : ℕ → Stand

-- What apr_atomic_casptr on the stack pointer compares.
abbrev pub is_at : ℕ → Option ℕ → Bool
is_at a none = false
is_at a (some b) = a == b

-- frl_slab_palloc_lock_free: the stack pointer is read, and is above the first entry;
unfoldable pub read_top : (i new_pointer : ℕ) → Shared → Shared
read_top i new_pointer s = record s { stand = update s.stand i (popping new_pointer) }

-- it is set to busy if it has not changed;
unfoldable pub seize_top : (i new_pointer : ℕ) → Shared → Shared
seize_top i new_pointer s =
    if is_at (new_pointer + 1) s.stack_pointer
    then record s { stack_pointer = none; stand = update s.stand i (popped new_pointer) }
    else record s { stand = update s.stand i outside }

-- the entry is taken, and the stack pointer set below it.
unfoldable pub take_top : (i new_pointer : ℕ) → Shared → Shared
take_top i new_pointer s = record s {
  stack_pointer = some new_pointer;
  live = s.usage_stack (new_pointer + 1) ∷ s.live;
  stand = update s.stand i outside;
}

-- frl_slab_pfree_lock_free on an item that is handed out;
unfoldable pub give_back : (i item : ℕ) → Shared → Shared
give_back i item s = record s {
  live = remove_one item s.live;
  stand = update s.stand i (freeing item);
}

-- the stack pointer is read;
unfoldable pub read_attempt : (i item attempt : ℕ) → Shared → Shared
read_attempt i item attempt s = record s { stand = update s.stand i (aiming item attempt) }

-- the entry above it is read, as it is then;
unfoldable pub read_free : (i item attempt : ℕ) → Shared → Shared
read_free i item attempt s = record s {
  stand = update s.stand i (pushing item attempt (s.usage_stack (attempt + 1)));
}

-- it is set to busy if it has not changed;
unfoldable pub seize_free : (i item attempt cmpval : ℕ) → Shared → Shared
seize_free i item attempt cmpval s =
    if is_at attempt s.stack_pointer
    then record s { stack_pointer = none; stand = update s.stand i (pushed item attempt cmpval) }
    else record s { stand = update s.stand i (freeing item) }

-- the item is written if the entry has not changed, and the stack pointer is set to it, or set back.
unfoldable pub put_item : (i item attempt cmpval : ℕ) → Shared → Shared
put_item i item attempt cmpval s =
    if s.usage_stack (attempt + 1) == cmpval
    then record s {
      stack_pointer = some (attempt + 1);
      usage_stack = update s.usage_stack (attempt + 1) item;
      stand = update s.stand i outside;
    }
    else record s { stack_pointer = some attempt; stand = update s.stand i (freeing item) }

pub data Turn (n : ℕ) (s : Shared) : Shared → Type 0 where
  reads_top :
      (i new_pointer : ℕ)
      → i < n
      → s.stand i ≡ outside
      → s.stack_pointer ≡ some (new_pointer + 1)
      → Turn n s (read_top i new_pointer s)
  seizes_top :
      (i new_pointer : ℕ)
      → i < n
      → s.stand i ≡ popping new_pointer
      → Turn n s (seize_top i new_pointer s)
  takes_top :
      (i new_pointer : ℕ)
      → i < n
      → s.stand i ≡ popped new_pointer
      → Turn n s (take_top i new_pointer s)
  gives_back :
      (i item : ℕ)
      → i < n
      → s.stand i ≡ outside
      → 0 < count item s.live
      → Turn n s (give_back i item s)
  reads_attempt :
      (i item attempt : ℕ)
      → i < n
      → s.stand i ≡ freeing item
      → s.stack_pointer ≡ some attempt
      → Turn n s (read_attempt i item attempt s)
  reads_free :
      (i item attempt : ℕ)
      → i < n
      → s.stand i ≡ aiming item attempt
      → Turn n s (read_free i item attempt s)
  seizes_free :
      (i item attempt cmpval : ℕ)
      → i < n
      → s.stand i ≡ pushing item attempt cmpval
      → Turn n s (seize_free i item attempt cmpval s)
  puts :
      (i item attempt cmpval : ℕ)
      → i < n
      → s.stand i ≡ pushed item attempt cmpval
      → Turn n s (put_item i item attempt cmpval s)

pub data Turns (n : ℕ) (s : Shared) : Shared → Type 0 where
  start : Turns n s s
  after : {s' s'' : Shared} → Turns n s s' → Turn n s' s'' → Turns n s s''

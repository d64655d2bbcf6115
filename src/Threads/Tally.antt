-- ===== src/Threads/Tally.antt =====
-- What is counted over the threads of the pool.
use alter.Common.{ℕ, ◌==◌, if◌then◌else◌, Option, none, some}
use alter.Threads.Defs.{Phase, leading, holding, resigned, running}

-- Between `leader->no = no` and `leader->no = -1`.
abbrev pub is_led : Phase → ℕ
is_led leading = 1
is_led (holding _) = 1
is_led _ = 0

-- In execute, and so off the waiters.
abbrev pub is_running : Phase → ℕ
is_running (running _) = 1
is_running _ = 0

abbrev pub has_pointer : ℕ → Phase → ℕ
has_pointer p (holding q) = if p == q then 1 else 0
has_pointer p (resigned q) = if p == q then 1 else 0
has_pointer p (running q) = if p == q then 1 else 0
has_pointer p _ = 0

abbrev pub led : Option ℕ → ℕ
led none = 0
led (some _) = 1

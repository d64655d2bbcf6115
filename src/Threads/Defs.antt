-- ===== src/Threads/Defs.antt =====
-- frl_threads of src/lib/frl_util_threads.cpp in the model of a leader and followers: frl_threads::spawn,
-- frl_threads::assign, and thread_leader as the steps that its threads take in any order.
use alter.Common.{
  ℕ, ◌+◌, ◌-◌, ◌%◌, ◌^◌, ◌<◌, Bool, not, List, [], ◌∷◌, ◌++◌, ◌||◌, ltb, leb, ◌==◌, update,
  if◌then◌else◌, Option, none, some, ◌≡◌,
}

-- Where a thread stands in the loop of thread_leader: before it is the leader; in frl_queue_pop; with a
-- pointer, before it gives up the lead; before it is taken off the waiters; in execute.
pub data Phase : Type 0 where
  follower leading : Phase
  holding resigned running : (pointer : ℕ) → Phase

-- Where a caller of frl_threads::assign stands: with the pointer in the queue; after it has read waiters, and
-- the condition is `open < max` next; before the lock of the mutex; with the mutex, at the same two conditions;
-- before apr_thread_create; before `open++`; before the unlock.
pub data Caller : Type 0 where
  away queued none_waiting : Caller
  entering entered still_none opening created leaving : Caller

-- `frl_threads`. `leader` is `leader->no`, `none` for -1; `phase` has the threads that are created,
-- `threads` of them; `mutex` is the caller of assign that has the lock; `handled` and `failed` are fields of `thd_stat`.
pub record Threads : Type 0 where
  pub min : ℕ
  pub max : ℕ
  pub opened : ℕ
  pub threads : ℕ
  pub waiters : ℕ
  pub leader : Option ℕ
  pub task_queue : List ℕ
  pub phase : ℕ → Phase
  pub handled : ℕ → ℕ
  pub failed : ℕ → ℕ
  pub mutex : Option ℕ
  pub callers : ℕ → Caller

-- `frl_threads::spawn`; `thd_stat` is not written, and holds anything.
unfoldable pub spawn : (min max : ℕ) → (handled failed : ℕ → ℕ) → Threads
spawn min max handled failed = record {
  min = min;
  max = max;
  opened = min;
  threads = min;
  waiters = min;
  leader = none;
  task_queue = [];
  phase = λ i. follower;
  handled = handled;
  failed = failed;
  mutex = none;
  callers = λ a. away;
}

abbrev stands : (a : ℕ) → Caller → Threads → Threads
stands a c s = record s { callers = update s.callers a c }

-- The parts of frl_threads::assign, for the caller `a`: frl_queue_push;
unfoldable pub enqueue : (a pointer : ℕ) → Threads → Threads
enqueue a pointer s = stands a queued (record s { task_queue = s.task_queue ++ pointer ∷ [] })

-- `waiters <= 0`, of an unsigned number, and `open < max`, before the lock;
unfoldable pub look_waiters : (a : ℕ) → Threads → Threads
look_waiters a s = stands a (if leb s.waiters 0 then none_waiting else away) s

unfoldable pub look_opened : (a : ℕ) → Threads → Threads
look_opened a s = stands a (if ltb s.opened s.max then entering else away) s

-- `apr_thread_mutex_lock`;
unfoldable pub lock_mutex : (a : ℕ) → Threads → Threads
lock_mutex a s = record s { mutex = some a; callers = update s.callers a entered }

-- the same conditions with the mutex;
unfoldable pub recheck_waiters : (a : ℕ) → Threads → Threads
recheck_waiters a s = stands a (if leb s.waiters 0 then still_none else leaving) s

unfoldable pub recheck_opened : (a : ℕ) → Threads → Threads
recheck_opened a s = stands a (if ltb s.opened s.max then opening else leaving) s

-- `apr_thread_create(thd_worker+open, ...)`;
unfoldable pub create_thread : (a : ℕ) → Threads → Threads
create_thread a s = record s {
  threads = s.threads + 1;
  phase = update s.phase s.opened follower;
  callers = update s.callers a created;
}

-- `open++`;
unfoldable pub count_opened : (a : ℕ) → Threads → Threads
count_opened a s = record s {
  opened = (s.opened + 1) % 2 ^ 32;
  callers = update s.callers a leaving;
}

-- and `apr_thread_mutex_unlock`.
unfoldable pub unlock_mutex : (a : ℕ) → Threads → Threads
unlock_mutex a s = record s { mutex = none; callers = update s.callers a away }

-- The parts of the loop of thread_leader, for the thread `i`: `leader->no = no`;
unfoldable pub lead : (i : ℕ) → Threads → Threads
lead i s = record s { leader = some i; phase = update s.phase i leading }

-- frl_queue_pop;
unfoldable pub take : (i pointer : ℕ) → (rest : List ℕ) → Threads → Threads
take i pointer rest s = record s { task_queue = rest; phase = update s.phase i (holding pointer) }

-- `leader->no = -1`;
unfoldable pub resign : (i pointer : ℕ) → Threads → Threads
resign i pointer s = record s { leader = none; phase = update s.phase i (resigned pointer) }

-- `apr_atomic_dec32(&master->waiters)`;
unfoldable pub begin_work : (i pointer : ℕ) → Threads → Threads
begin_work i pointer s = record s {
  waiters = (s.waiters + (2 ^ 32 - 1)) % 2 ^ 32;
  phase = update s.phase i (running pointer);
}

-- execute, the counts, and `apr_atomic_inc32(&master->waiters)`.
unfoldable pub end_work : (execute : ℕ → Bool) → (i pointer : ℕ) → Threads → Threads
end_work execute i pointer s = record s {
  failed =
      if pointer == 0 || not (execute pointer)
      then update s.failed i ((s.failed i + 1) % 2 ^ 32)
      else s.failed;
  handled = update s.handled i ((s.handled i + 1) % 2 ^ 32);
  waiters = (s.waiters + 1) % 2 ^ 32;
  phase = update s.phase i follower;
}

-- What a step does to a pointer.
pub data Event : Type 0 where
  quiet : Event
  assigned taken executed : (pointer : ℕ) → Event

-- execute is not called with a null pointer.
abbrev pub ended : (pointer : ℕ) → Event
ended pointer = if pointer == 0 then quiet else executed pointer

pub data Step (execute : ℕ → Bool) (s : Threads) : Event → Threads → Type 0 where
  enqueues :
      (a pointer : ℕ) → s.callers a ≡ away → Step execute s (assigned pointer) (enqueue a pointer s)
  looks : (a : ℕ) → s.callers a ≡ queued → Step execute s quiet (look_waiters a s)
  looks_further : (a : ℕ) → s.callers a ≡ none_waiting → Step execute s quiet (look_opened a s)
  rechecks : (a : ℕ) → s.callers a ≡ entered → Step execute s quiet (recheck_waiters a s)
  rechecks_further : (a : ℕ) → s.callers a ≡ still_none → Step execute s quiet (recheck_opened a s)
  creates : (a : ℕ) → s.callers a ≡ opening → Step execute s quiet (create_thread a s)
  counts : (a : ℕ) → s.callers a ≡ created → Step execute s quiet (count_opened a s)
  leaves : (a : ℕ) → s.callers a ≡ leaving → Step execute s quiet (unlock_mutex a s)
  enters : (a : ℕ) → s.callers a ≡ entering → s.mutex ≡ none → Step execute s quiet (lock_mutex a s)
  leads :
      (i : ℕ)
      → i < s.threads
      → s.phase i ≡ follower
      → s.leader ≡ none
      → Step execute s quiet (lead i s)
  takes :
      (i pointer : ℕ) (rest : List ℕ)
      → i < s.threads
      → s.phase i ≡ leading
      → s.task_queue ≡ pointer ∷ rest
      → Step execute s (taken pointer) (take i pointer rest s)
  resigns :
      (i pointer : ℕ)
      → i < s.threads
      → s.phase i ≡ holding pointer
      → Step execute s quiet (resign i pointer s)
  begins :
      (i pointer : ℕ)
      → i < s.threads
      → s.phase i ≡ resigned pointer
      → Step execute s quiet (begin_work i pointer s)
  ends :
      (i pointer : ℕ)
      → i < s.threads
      → s.phase i ≡ running pointer
      → Step execute s (ended pointer) (end_work execute i pointer s)

-- The events of a run, the last first.
pub data Run (execute : ℕ → Bool) (s : Threads) : List Event → Threads → Type 0 where
  start : Run execute s [] s
  after :
      {es : List Event} {e : Event} {s' s'' : Threads}
      → Run execute s es s'
      → Step execute s' e s''
      → Run execute s (e ∷ es) s''

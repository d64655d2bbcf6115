-- ===== src/Queue/Defs.antt =====
-- The queue with a lock: the functions of src/lib/frl_queue.c named `_lock_with`, frl_queue_peek,
-- and the part of frl_queue_create behind its calls of `malloc` and frl_slab_pool_create. A result
-- `none` means that the call does not return or has no defined behaviour.
use alter.Common.{
  ℕ, ◌+◌, ◌-◌, ◌%◌, ◌^◌, Bool, true, false, Option, none, some, List, [], ◌∷◌, ◌==◌, if◌then◌else◌,
  update, ◌>>=◌,
}
use alter.Allocator.{Allocator}

-- `apr_status_t`
pub data Status : Type 0 where
  success enomem : Status

-- `struct frl_queue_entry_t`
pub record Entry : Type 0 where
  pub pointer : ℕ
  pub next : ℕ

-- `struct frl_queue_t`, with the memory of its entries. `held` says that `mutex` is locked, and
-- `signals` counts the calls of apr_thread_cond_signal on `not_empty`.
pub record Queue (S : Type 0) : Type 0 where
  pub pool : S
  pub entry : ℕ → Entry
  pub head : ℕ
  pub tail : ℕ
  pub empty_waiters : ℕ
  pub destroyed : Bool
  pub nelts : ℕ
  pub held : Bool
  pub signals : ℕ

abbrev pub lock : {S : Type 0} → Queue S → Option (Queue S)
lock q = if q.held then none else some (record q { held = true })

abbrev pub unlock : {S : Type 0} → Queue S → Queue S
unlock q = record q { held = false }

-- Access through a null pointer has no defined behaviour.
abbrev pub deref : {B : Type 0} → ℕ → Option B → Option B
deref p rest = if p == 0 then none else rest

-- The end of a pop that waits on `not_empty` is open: `waiting` is the state in which it waits.
pub data PopResult (S : Type 0) : Type 0 where
  returned : ℕ → Queue S → PopResult S
  waiting : Queue S → PopResult S

module _ (al : Allocator) where
  -- frl_queue_create from the first frl_slab_palloc on. A failed allocation is not looked for, and
  -- NULL is written through.
  unfoldable pub create : al.Request → al.State → (ℕ → Entry) → Option (Queue al.State)
  create r pool entry = al.palloc r pool >>= λ (p, pool'). elim p [
    | none ↦ none
    | some d ↦ some (record {
      pool = pool';
      entry = update entry d (record (entry d) { next = 0 });
      head = d;
      tail = d;
      empty_waiters = 0;
      destroyed = false;
      nelts = 0;
      held = false;
      signals = 0;
    })
  ]

  -- `elts->next = 0; elts->pointer = pointer; tail->next = elts; tail = elts; nelts++`
  unfoldable pub link : (elts pointer : ℕ) → al.State → Queue al.State → Queue al.State
  link elts pointer pool q =
      let entry = update q.entry elts (record { pointer = pointer; next = 0 }) in
      record q {
        pool = pool;
        entry = update entry q.tail (record (entry q.tail) { next = elts });
        tail = elts;
        nelts = (q.nelts + 1) % 2 ^ 32;
      }

  -- `frl_queue_trypush_lock_with`
  unfoldable pub trypush : al.Request → ℕ → Queue al.State → Option (Status × Queue al.State)
  unfolding link
  trypush r pointer q = lock q >>= λ q. al.palloc r q.pool >>= λ (p, pool'). elim p [
    | none ↦ some (enomem, unlock (record q { pool = pool' }))
    | some elts ↦ deref q.tail (some (success, unlock (link elts pointer pool' q)))
  ]

  -- `if (queue->empty_waiters) apr_thread_cond_signal(queue->not_empty)`
  unfoldable pub signal : Queue al.State → Queue al.State
  signal q = record q { signals = if q.empty_waiters == 0 then q.signals else q.signals + 1 }

  -- `frl_queue_push_lock_with`
  unfoldable pub push : al.Request → ℕ → Queue al.State → Option (Status × Queue al.State)
  unfolding link signal
  push r pointer q = lock q >>= λ q. al.palloc r q.pool >>= λ (p, pool'). elim p [
    | none ↦ some (enomem, unlock (record q { pool = pool' }))
    | some elts ↦ deref q.tail (some (success, unlock (signal (link elts pointer pool' q))))
  ]

  -- Takes the first entry of a queue that is not empty, and frees the old head.
  unfoldable pub take_head : Queue al.State → Option (ℕ × Queue al.State)
  take_head q =
      let next = (q.entry q.head).next in
      deref q.head (
        deref next (
          al.pfree q.head q.pool >>= λ pool'. some (
            (q.entry next).pointer,
            record q { pool = pool'; head = next; nelts = (q.nelts + 2 ^ 32 - 1) % 2 ^ 32 },
          )))

  -- `frl_queue_trypop_lock_with`
  unfoldable pub trypop : Queue al.State → Option (ℕ × Queue al.State)
  trypop q = lock q >>= λ q.
      if q.head == q.tail
      then some (0, unlock q)
      else (take_head q >>= λ (pointer, q'). some (pointer, unlock q'))

  -- `empty_waiters++; apr_thread_cond_wait(not_empty, mutex); empty_waiters--`: the wait releases the
  -- mutex, other threads do `act`, and the mutex is taken again.
  unfoldable pub sleep :
      (Queue al.State → Option (Queue al.State)) → Queue al.State → Option (Queue al.State)
  sleep act q = act (unlock (record q { empty_waiters = (q.empty_waiters + 1) % 2 ^ 32 })) >>= λ q.
      lock q >>= λ q. some (record q { empty_waiters = (q.empty_waiters + 2 ^ 32 - 1) % 2 ^ 32 })

  -- The loop of frl_queue_pop_lock_with, with the mutex held. What other threads do in each wait is
  -- the next of the actions; with none left the call still waits. When the queue is destroyed in a
  -- wait the call returns 0, with the mutex locked.
  unfoldable pub pop_loop :
      List (Queue al.State → Option (Queue al.State)) → Queue al.State → Option (PopResult al.State)
  pop_loop [] q =
      if q.head == q.tail
      then some (waiting (unlock (record q { empty_waiters = (q.empty_waiters + 1) % 2 ^ 32 })))
      else (take_head q >>= λ (pointer, q'). some (returned pointer (unlock q')))
  pop_loop (act ∷ acts) q =
      let rest = λ (q : Queue al.State). pop_loop acts q in
      if q.head == q.tail
      then (sleep act q >>= λ q. if q.destroyed then some (returned 0 q) else rest q)
      else (take_head q >>= λ (pointer, q'). some (returned pointer (unlock q')))

  -- `frl_queue_pop_lock_with`
  unfoldable pub pop :
      List (Queue al.State → Option (Queue al.State)) → Queue al.State → Option (PopResult al.State)
  unfolding pop_loop
  pop acts q = lock q >>= pop_loop acts

-- `frl_queue_peek`
unfoldable pub peek : {S : Type 0} → Queue S → Option ℕ
peek q = if q.head == q.tail then some 0 else deref q.head (some (q.entry q.head).pointer)

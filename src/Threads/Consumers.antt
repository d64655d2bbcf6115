-- ===== src/Threads/Consumers.antt =====
-- frl_threads of src/lib/frl_util_threads.cpp in the model of a producer and consumers:
-- frl_threads::spawn, frl_threads::assign, and thread_producer and thread_consumer as the steps that
-- the threads take in any order. A wait on a condition variable ends
-- with a signal, or with none.
use alter.Common.{
  ℕ, zero, suc, ◌+◌, ◌%◌, ◌^◌, Bool, not, List, [], ◌∷◌, ◌++◌, ◌&&◌, ◌||◌, ltb, leb, ◌==◌, update,
  if◌then◌else◌, ◌≡◌,
}

-- Where thread_consumer stands: before apr_thread_cond_wait, in it, or behind it.
pub data Place : Type 0 where
  arriving asleep running : Place

-- Where thread_producer stands: in frl_queue_pop; with a pointer, in apr_queue_pop; before the signal.
pub data Producer : Type 0 where
  popping : Producer
  having : (pointer : ℕ) → Producer
  signalling : (consumer : ℕ) → Producer

-- `frl_threads`; the consumers are numbers, and `pointer` is the field of `consumers[i]`.
pub record Pool : Type 0 where
  pub max : ℕ
  pub opened : ℕ
  pub waiters : ℕ
  pub task_queue : List ℕ
  pub consumer_queue : List ℕ
  pub pointer : ℕ → ℕ
  pub place : ℕ → Place
  pub producer : Producer
  pub handled : ℕ → ℕ
  pub failed : ℕ → ℕ

unfoldable pub consumers_from : (i n : ℕ) → List ℕ
consumers_from i zero = []
consumers_from i (suc n) = i ∷ consumers_from (i + 1) n

-- `frl_threads::spawn`
unfoldable pub spawn_consumers : (min max : ℕ) → (handled failed : ℕ → ℕ) → Pool
unfolding consumers_from
spawn_consumers min max handled failed = record {
  max = max;
  opened = min;
  waiters = min;
  task_queue = [];
  consumer_queue = consumers_from 0 min;
  pointer = λ i. 0;
  place = λ i. arriving;
  producer = popping;
  handled = handled;
  failed = failed;
}

-- `frl_threads::assign`: frl_queue_push;
unfoldable pub assign_task : (pointer : ℕ) → Pool → Pool
assign_task pointer s = record s { task_queue = s.task_queue ++ pointer ∷ [] }

-- and, when the first look at waiters and `open` finds room, what the caller does with the mutex.
unfoldable pub open_consumer : Pool → Pool
open_consumer s =
    if leb s.waiters 0 && ltb s.opened s.max
    then record s {
      opened = s.opened + 1;
      consumer_queue = s.consumer_queue ++ s.opened ∷ [];
      place = update s.place s.opened arriving;
    }
    else s

-- thread_producer: frl_queue_pop, and the test `pointer > 0`;
unfoldable pub produce : (pointer : ℕ) → (rest : List ℕ) → Pool → Pool
produce pointer rest s = record s {
  task_queue = rest;
  producer = if ltb 0 pointer then having pointer else popping;
}

-- apr_queue_pop and `consumer->pointer = pointer`;
unfoldable pub hand : (consumer pointer : ℕ) → (rest : List ℕ) → Pool → Pool
hand consumer pointer rest s = record s {
  consumer_queue = rest;
  pointer = update s.pointer consumer pointer;
  producer = signalling consumer;
}

-- apr_thread_cond_signal, which wakes a thread that waits, and does nothing otherwise.
unfoldable pub woken : Place → Place
woken asleep = running
woken place = place

unfoldable pub signal : (consumer : ℕ) → Pool → Pool
unfolding woken
signal consumer s = record s {
  place = update s.place consumer (woken (s.place consumer));
  producer = popping;
}

-- thread_consumer: apr_thread_cond_wait;
unfoldable pub sleep : (i : ℕ) → Pool → Pool
sleep i s = record s { place = update s.place i asleep }

-- its end without a signal;
unfoldable pub wake_early : (i : ℕ) → Pool → Pool
wake_early i s = record s { place = update s.place i running }

-- execute, the counts, and apr_queue_push.
unfoldable pub consume : (execute : ℕ → Bool) → (i : ℕ) → Pool → Pool
consume execute i s = record s {
  failed =
      if s.pointer i == 0 || not (execute (s.pointer i))
      then update s.failed i ((s.failed i + 1) % 2 ^ 32)
      else s.failed;
  handled = update s.handled i ((s.handled i + 1) % 2 ^ 32);
  consumer_queue = s.consumer_queue ++ i ∷ [];
  place = update s.place i arriving;
}

-- What a step does with a consumer: nothing that is seen; it ends its wait without a signal; it executes.
pub data Deed : Type 0 where
  unseen : Deed
  woke executed : (consumer : ℕ) → Deed

pub data Move (execute : ℕ → Bool) (s : Pool) : Deed → Pool → Type 0 where
  assigns : (pointer : ℕ) → Move execute s unseen (assign_task pointer s)
  opens : Move execute s unseen (open_consumer s)
  produces :
      (pointer : ℕ) (rest : List ℕ)
      → s.producer ≡ popping
      → s.task_queue ≡ pointer ∷ rest
      → Move execute s unseen (produce pointer rest s)
  hands :
      (consumer pointer : ℕ) (rest : List ℕ)
      → s.producer ≡ having pointer
      → s.consumer_queue ≡ consumer ∷ rest
      → Move execute s unseen (hand consumer pointer rest s)
  signals :
      (consumer : ℕ) → s.producer ≡ signalling consumer → Move execute s unseen (signal consumer s)
  sleeps : (i : ℕ) → s.place i ≡ arriving → Move execute s unseen (sleep i s)
  wakes : (i : ℕ) → s.place i ≡ asleep → Move execute s (woke i) (wake_early i s)
  consumes : (i : ℕ) → s.place i ≡ running → Move execute s (executed i) (consume execute i s)

pub data Moves (execute : ℕ → Bool) (s : Pool) : List Deed → Pool → Type 0 where
  start : Moves execute s [] s
  after :
      {es : List Deed} {e : Deed} {s' s'' : Pool}
      → Moves execute s es s'
      → Move execute s' e s''
      → Moves execute s (e ∷ es) s''

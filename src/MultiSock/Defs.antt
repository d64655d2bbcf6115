-- ===== src/MultiSock/Defs.antt =====
-- frl_multi_sock::spawn, thread_accept and thread_read of src/lib/frl_util_multi_sock.cpp, as the steps
-- that the accepting thread and the readers take in any order. apr_queue_push and apr_queue_pop give the
-- readers back in the order in which they came; a lock is held for a whole step.
use alter.Common.{
  ℕ, zero, suc, ◌+◌, ◌<◌, Bool, true, false, List, [], ◌∷◌, ◌++◌, update, if◌then◌else◌, ◌≡◌,
}

-- Where a reader stands: before the loop that waits for `status`, before `ms->proc`, before
-- apr_socket_close and before apr_queue_push, with its `quit_signal`, and behind its loop.
pub data Place : Type 0 where
  waiting : Place
  serving : Place
  closing returning : (quit_signal : Bool) → Place
  gone : Place

-- `struct frl_task_t`, and where its reader stands.
pub record Task : Type 0 where
  pub socket : ℕ
  pub status : Bool
  pub place : Place

-- Where the accepting thread stands: before apr_socket_accept, before apr_queue_pop with the new socket,
-- and with the reader that it has popped.
pub data Acceptor : Type 0 where
  accepting : Acceptor
  holding : (read_sock : ℕ) → Acceptor
  placing : (read_sock idle_reader : ℕ) → Acceptor

-- `frl_multi_sock`
pub record MultiSock : Type 0 where
  pub reader_queue : List ℕ
  pub reader_tasks : ℕ → Task
  pub acceptor : Acceptor

abbrev pub at : ℕ → Task → MultiSock → MultiSock
at id task s = record s { reader_tasks = update s.reader_tasks id task }

abbrev pub at_place : ℕ → Place → MultiSock → MultiSock
at_place id place s = at id (record (s.reader_tasks id) { place = place }) s

-- The loop of `frl_multi_sock::spawn` from `i` on, with `n` rounds left: a task without a socket, a thread,
-- and the reader in the queue.
unfoldable pub spawn_loop : (n i : ℕ) → MultiSock → MultiSock
spawn_loop zero i s = s
spawn_loop (suc n) i s =
    let s' = at i (record { socket = 0; status = false; place = waiting }) s in
    spawn_loop n (i + 1) (record s' { reader_queue = s'.reader_queue ++ (i ∷ []) })

-- `frl_multi_sock::spawn`: apr_pcalloc has cleared the tasks.
unfoldable pub spawn : (n : ℕ) → MultiSock
unfolding spawn_loop
spawn n = spawn_loop n 0 (record {
  reader_queue = [];
  reader_tasks = λ _. record { socket = 0; status = false; place = gone };
  acceptor = accepting;
})

-- apr_socket_accept gives a socket;
unfoldable pub accept : (read_sock : ℕ) → MultiSock → MultiSock
accept read_sock s = record s { acceptor = holding read_sock }

-- apr_queue_pop gives a reader;
unfoldable pub select : (read_sock idle_reader : ℕ) → List ℕ → MultiSock → MultiSock
select read_sock idle_reader rest s = record s {
  reader_queue = rest;
  acceptor = placing read_sock idle_reader;
}

-- its task gets the socket, and it is woken.
unfoldable pub place_task : (read_sock idle_reader : ℕ) → MultiSock → MultiSock
place_task read_sock idle_reader s =
    let s' =
      at idle_reader (record (s.reader_tasks idle_reader) { socket = read_sock; status = true })
        s in
    record s' { acceptor = accepting }

-- The reader: it finds `status` set, and clears it;
unfoldable pub take_task : (id : ℕ) → MultiSock → MultiSock
take_task id s = at id (record (s.reader_tasks id) { status = false; place = serving }) s

-- `ms->proc` returns 0, or not;
unfoldable pub process : (id : ℕ) (quit_signal : Bool) → MultiSock → MultiSock
process id quit_signal s = at_place id (closing quit_signal) s

-- the socket is closed;
unfoldable pub close : (id : ℕ) (quit_signal : Bool) → MultiSock → MultiSock
close id quit_signal s = at_place id (returning quit_signal) s

-- with an error of apr_socket_close the thread returns;
unfoldable pub fail_close : (id : ℕ) → MultiSock → MultiSock
fail_close id s = at_place id gone s

-- the reader goes back into the queue, and after a crash its loop ends.
unfoldable pub push_back : (id : ℕ) (quit_signal : Bool) → MultiSock → MultiSock
push_back id quit_signal s =
    let s' = at_place id (if quit_signal then gone else waiting) s in
    record s' { reader_queue = s'.reader_queue ++ (id ∷ []) }

-- What a step does with a socket.
pub data Event : Type 0 where
  quiet : Event
  accepted processed closed : (socket : ℕ) → Event

-- One step with `n` readers.
pub data Step (n : ℕ) (s : MultiSock) : Event → MultiSock → Type 0 where
  accepts : (sock : ℕ) → s.acceptor ≡ accepting → Step n s (accepted sock) (accept sock s)
  selects :
      (sock id : ℕ) (rest : List ℕ)
      → s.acceptor ≡ holding sock
      → s.reader_queue ≡ id ∷ rest
      → Step n s quiet (select sock id rest s)
  places : (sock id : ℕ) → s.acceptor ≡ placing sock id → Step n s quiet (place_task sock id s)
  takes :
      (id : ℕ)
      → id < n
      → (s.reader_tasks id).place ≡ waiting
      → (s.reader_tasks id).status ≡ true
      → Step n s quiet (take_task id s)
  processes :
      (id : ℕ) (quit_signal : Bool)
      → id < n
      → (s.reader_tasks id).place ≡ serving
      → Step n s (processed (s.reader_tasks id).socket) (process id quit_signal s)
  closes :
      (id : ℕ) (quit_signal : Bool)
      → id < n
      → (s.reader_tasks id).place ≡ closing quit_signal
      → Step n s (closed (s.reader_tasks id).socket) (close id quit_signal s)
  fails_close :
      (id : ℕ) (quit_signal : Bool)
      → id < n
      → (s.reader_tasks id).place ≡ closing quit_signal
      → Step n s (closed (s.reader_tasks id).socket) (fail_close id s)
  pushes_back :
      (id : ℕ) (quit_signal : Bool)
      → id < n
      → (s.reader_tasks id).place ≡ returning quit_signal
      → Step n s quiet (push_back id quit_signal s)

-- The events of a run, the last first.
pub data Run (n : ℕ) (s : MultiSock) : List Event → MultiSock → Type 0 where
  start : Run n s [] s
  after :
      {es : List Event} {e : Event} {s' s'' : MultiSock}
      → Run n s es s'
      → Step n s' e s''
      → Run n s (e ∷ es) s''

-- ===== src/MultiSock/Claims.antt =====
-- Who may write a reader's task in src/lib/frl_util_multi_sock.cpp: the accepting thread while it has the
-- reader's number, and the reader from the moment it is woken to its return to the queue.
use alter.Common.{
  ℕ, zero, suc, ◌+◌, ◌≤◌, ◌<◌, Bool, List, [], ◌∷◌, ◌++◌, ◌==◌, count, count-append, ltb, update,
  if◌then◌else◌, ◌≡◌, refl, ◌∙◌, inl, inr, Bool-cases, arith,
}
use alter.MultiSock.Defs.{
  Place, waiting, serving, closing, returning, gone, Task, Acceptor, accepting, holding, placing,
  MultiSock, spawn_loop, spawn, accept, select, place_task, take_task, process, close, fail_close,
  push_back, Event, Step, accepts, selects, places, takes, processes, closes, fails_close,
  pushes_back,
}

unfoldable pub busy : Place → ℕ
busy waiting = 0
busy serving = 1
busy (closing q) = 1
busy (returning q) = 1
busy gone = 0

-- The accepting thread has popped the reader `i`.
unfoldable pub picked : ℕ → Acceptor → ℕ
picked i accepting = 0
picked i (holding sock) = 0
picked i (placing sock id) = if i == id then 1 else 0

unfoldable pub load : Task → ℕ
unfolding busy
load t = (if t.status then 1 else 0) + busy t.place

-- How often the reader `i` is claimed.
unfoldable pub claims : ℕ → MultiSock → ℕ
unfolding load picked
claims i s = count i s.reader_queue + picked i s.acceptor + load (s.reader_tasks i)

-- A reader stands once in the queue, or the accepting thread has it, or its task is set, or it works.
pub record IsClaimed (n : ℕ) (s : MultiSock) : Type 0 where
  pub once : (i : ℕ) → claims i s ≤ 1
  pub inside : (i : ℕ) → 0 < count i s.reader_queue + picked i s.acceptor → i < n

-- A change of one task.
load-update :
    (f : ℕ → Task) (id : ℕ) (t : Task) (i : ℕ)
    → load (update f id t i) ≡ (if i == id then load t else load (f i))
load-update f id t i = elim (Bool-cases (i == id)) [ inl e ↦ rw e refl | inr e ↦ rw e refl ]

accept-IsClaimed :
    {n : ℕ} (sock : ℕ) (s : MultiSock)
    → s.acceptor ≡ accepting
    → IsClaimed n s
    → IsClaimed n (accept sock s)
unfolding claims picked accept
accept-IsClaimed sock s at c = record {
  once = λ i. let o = c.once i in ground (arith, o);
  inside = λ i more. c.inside i (ground (arith, more, at));
}

select-IsClaimed :
    {n : ℕ} (sock id : ℕ) (rest : List ℕ) (s : MultiSock)
    → s.acceptor ≡ holding sock
    → s.reader_queue ≡ id ∷ rest
    → IsClaimed n s
    → IsClaimed n (select sock id rest s)
unfolding claims picked select
select-IsClaimed sock id rest s at queue c =
    let weigh : (i : ℕ)
        → count i rest + (if i == id then 1 else 0) ≡ count i s.reader_queue + picked i s.acceptor =
      λ i. rw (queue, at) (omega arith) in
    record {
      once = λ i. let o = c.once i in let w = weigh i in omega arith;
      inside = λ i more. c.inside i (let w = weigh i in omega arith);
    }

place_task-IsClaimed :
    {n : ℕ} (sock id : ℕ) (s : MultiSock)
    → s.acceptor ≡ placing sock id
    → IsClaimed n s
    → IsClaimed n (place_task sock id s)
unfolding claims load picked place_task
place_task-IsClaimed sock id s at c = record {
  once = λ i. let o = c.once i in ground (arith, o, at);
  inside = λ i more. c.inside i (omega arith);
}

-- A reader that goes on with no more claims.
at-IsClaimed :
    {n : ℕ} (id : ℕ) (t : Task) (s : MultiSock)
    → load t ≤ load (s.reader_tasks id)
    → IsClaimed n s
    → IsClaimed n (record s { reader_tasks = update s.reader_tasks id t })
unfolding claims
at-IsClaimed id t s less c = record {
  once = λ i.
      let o = c.once i in let u = load-update s.reader_tasks id t i in ground (arith, o, u, less);
  inside = c.inside;
}

push_back-IsClaimed :
    {n : ℕ} (id : ℕ) (quit_signal : Bool) (s : MultiSock)
    → id < n
    → (s.reader_tasks id).place ≡ returning quit_signal
    → IsClaimed n s
    → IsClaimed n (push_back id quit_signal s)
unfolding claims load busy push_back
push_back-IsClaimed id quit_signal s below at c =
    let full : load (s.reader_tasks id) ≡ (if (s.reader_tasks id).status then 1 else 0) + 1 =
      rw at refl in
    let idle : busy (if quit_signal then gone else waiting) ≡ 0 = elim (Bool-cases quit_signal) [
      | inl e ↦ rw e refl
      | inr e ↦ rw e refl
    ] in
    let queue : (i : ℕ)
        → count i (s.reader_queue ++ (id ∷ []))
          ≡ count i s.reader_queue + (if i == id then 1 else 0) =
      λ i. count-append i s.reader_queue (id ∷ []) ∙ omega arith in
    record {
      once = λ i. let o = c.once i in let q = queue i in ground (arith, o, full, idle, q);
      inside = λ i more. let q = queue i in let o = c.inside i in ground (arith, more, q, below, o);
    }

pub Step-IsClaimed :
    {n : ℕ} {s s' : MultiSock} {e : Event} → Step n s e s' → IsClaimed n s → IsClaimed n s'
unfolding load busy take_task process close fail_close
Step-IsClaimed {s} (accepts sock at) c = accept-IsClaimed sock s at c
Step-IsClaimed {s} (selects sock id rest at queue) c = select-IsClaimed sock id rest s at queue c
Step-IsClaimed {s} (places sock id at) c = place_task-IsClaimed sock id s at c
Step-IsClaimed {s} (takes id below at set) c = at-IsClaimed id _ s (rw (at, set) (omega arith)) c
Step-IsClaimed {s} (processes id q below at) c = at-IsClaimed id _ s (rw at (omega arith)) c
Step-IsClaimed {s} (closes id q below at) c = at-IsClaimed id _ s (rw at (omega arith)) c
Step-IsClaimed {s} (fails_close id q below at) c = at-IsClaimed id _ s (rw at (omega arith)) c
Step-IsClaimed {s} (pushes_back id q below at) c = push_back-IsClaimed id q s below at c

-- After `i` rounds of spawn, the readers below `i` stand in the queue.
spawn_loop-IsClaimed :
    (n i m : ℕ) (s : MultiSock)
    → i + n ≡ m
    → ((j : ℕ) → count j s.reader_queue ≡ (if ltb j i then 1 else 0))
    → ((j : ℕ) → load (s.reader_tasks j) ≡ 0)
    → s.acceptor ≡ accepting
    → IsClaimed m (spawn_loop n i s)
unfolding spawn_loop claims
spawn_loop-IsClaimed zero i m s all queue tasks at = record {
  once = λ j. let q = queue j in let t = tasks j in rw at (unfold picked in ground (arith, q, t));
  inside = λ j more.
      let q = queue j in
      let free : picked j s.acceptor ≡ 0 = unfold picked in rw at refl in
      ground (arith, more, q, free, all);
}
spawn_loop-IsClaimed (suc n) i m s all queue tasks at =
    spawn_loop-IsClaimed n (i + 1) m _ (omega arith)
      (λ j. count-append j s.reader_queue (i ∷ []) ∙ (let q = queue j in ground (arith, q)))
      (λ j.
        load-update s.reader_tasks i _ j
        ∙ (let t = tasks j in unfold load busy in ground (arith, t)))
      at

pub spawn-IsClaimed : (n : ℕ) → IsClaimed n (spawn n)
unfolding spawn load busy
spawn-IsClaimed n = spawn_loop-IsClaimed n 0 n _ (omega arith) (λ j. ground arith) (λ j. refl) refl

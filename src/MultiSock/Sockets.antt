-- ===== src/MultiSock/Sockets.antt =====
-- What becomes of the sockets that the accepting thread of src/lib/frl_util_multi_sock.cpp hands out.
use alter.Common.{
  ℕ, ◌+◌, ◌<◌, true, false, List, [], ◌∷◌, ◌++◌, ◌==◌, update, if◌then◌else◌, ◌≡◌, refl, inl, inr,
  Bool-cases, arith,
}
use alter.Common.Tally.{tally, tally-move}
use alter.MultiSock.Defs.{
  Place, waiting, serving, closing, returning, gone, Task, Acceptor, accepting, holding, placing,
  MultiSock, accept, select, place_task, take_task, process, close, fail_close, push_back, Event,
  quiet, accepted, processed, closed, Step, accepts, selects, places, takes, processes, closes,
  fails_close, pushes_back,
}
use alter.MultiSock.Claims.{IsClaimed, claims, load, busy, picked}

-- How often the socket `c` was accepted, given to `ms->proc` and closed.
unfoldable pub times_accepted : ℕ → List Event → ℕ
times_accepted c [] = 0
times_accepted c (accepted sock ∷ es) = (if c == sock then 1 else 0) + times_accepted c es
times_accepted c (processed sock ∷ es) = times_accepted c es
times_accepted c (closed sock ∷ es) = times_accepted c es
times_accepted c (quiet ∷ es) = times_accepted c es

unfoldable pub times_processed : ℕ → List Event → ℕ
times_processed c [] = 0
times_processed c (accepted sock ∷ es) = times_processed c es
times_processed c (processed sock ∷ es) = (if c == sock then 1 else 0) + times_processed c es
times_processed c (closed sock ∷ es) = times_processed c es
times_processed c (quiet ∷ es) = times_processed c es

unfoldable pub times_closed : ℕ → List Event → ℕ
times_closed c [] = 0
times_closed c (accepted sock ∷ es) = times_closed c es
times_closed c (processed sock ∷ es) = times_closed c es
times_closed c (closed sock ∷ es) = (if c == sock then 1 else 0) + times_closed c es
times_closed c (quiet ∷ es) = times_closed c es

-- Whether a reader at this place has yet to give its socket to `ms->proc`, and to close it.
unfoldable pub unserved : Place → ℕ
unserved serving = 1
unserved waiting = 0
unserved (closing q) = 0
unserved (returning q) = 0
unserved gone = 0

unfoldable pub unclosed : Place → ℕ
unclosed (closing q) = 1
unclosed waiting = 0
unclosed serving = 0
unclosed (returning q) = 0
unclosed gone = 0

-- The same of the task: how often it holds `c` before `ms->proc`, and behind it before the close.
unfoldable pub pending : ℕ → Task → ℕ
unfolding unserved
pending c t = if c == t.socket then (if t.status then 1 else 0) + unserved t.place else 0

unfoldable pub served : ℕ → Task → ℕ
unfolding unclosed
served c t = if c == t.socket then unclosed t.place else 0

-- The accepting thread has the socket.
unfoldable pub in_hand : ℕ → Acceptor → ℕ
in_hand c accepting = 0
in_hand c (holding sock) = if c == sock then 1 else 0
in_hand c (placing sock id) = if c == sock then 1 else 0

-- The socket `c` in a state behind the events `es`, with `n` readers.
pub record Accounts (n c : ℕ) (es : List Event) (s : MultiSock) : Type 0 where
  pub handed :
      times_accepted c es
      ≡ in_hand c s.acceptor + tally (pending c) s.reader_tasks n + times_processed c es
  pub finished : times_processed c es ≡ tally (served c) s.reader_tasks n + times_closed c es

-- A reader that does not work has no socket to serve or to close.
idle-place : (p : Place) → busy p ≡ 0 → (unserved p ≡ 0) × (unclosed p ≡ 0)
unfolding busy unserved unclosed
idle-place waiting free = (refl, refl)
idle-place serving free = absurd (omega arith)
idle-place (closing q) free = absurd (omega arith)
idle-place (returning q) free = (refl, refl)
idle-place gone free = (refl, refl)

idle-task : (c : ℕ) (t : Task) → load t ≡ 0 → (pending c t ≡ 0) × (served c t ≡ 0)
unfolding load pending served
idle-task c t free =
    let set : t.status ≡ false = ground (arith, free) in
    let (u, v) = idle-place t.place (ground (arith, free)) in
    (ground (arith, set, u), ground (arith, v))

-- A task that goes from one value to another, with what it hands over to the events.
move-Accounts :
    {n c : ℕ} {es : List Event} {s : MultiSock} (id : ℕ) (t : Task) (e : Event) (a' : Acceptor)
    → id < n
    → Accounts n c es s
    → in_hand c s.acceptor + pending c (s.reader_tasks id) + times_processed c es
      ≡ in_hand c a' + pending c t + times_processed c (e ∷ es)
    → served c (s.reader_tasks id) + times_closed c es + times_processed c (e ∷ es)
      ≡ served c t + times_closed c (e ∷ es) + times_processed c es
    → times_accepted c (e ∷ es) ≡ times_accepted c es
    → (q : List ℕ)
    → Accounts n c
        (e ∷ es)
        (record s { reader_queue = q; reader_tasks = update s.reader_tasks id t; acceptor = a' })
move-Accounts {n} {c} {s = s} id t e a' below a hand close same q =
    let h = a.handed in
    let f = a.finished in
    let p = tally-move (pending c) s.reader_tasks id (s.reader_tasks id) t n below refl in
    let v = tally-move (served c) s.reader_tasks id (s.reader_tasks id) t n below refl in
    record { handed = omega arith; finished = omega arith }

-- The task of a reader that the accepting thread has.
pub picked-load :
    {n : ℕ} {s : MultiSock} (sock id : ℕ)
    → s.acceptor ≡ placing sock id
    → IsClaimed n s
    → load (s.reader_tasks id) ≡ 0
unfolding claims picked
picked-load {s = s} sock id at k =
    let o = k.once id in let p : picked id s.acceptor ≡ 1 = rw at (ground arith) in omega arith

-- The task of a reader that works is not set.
busy-status :
    {n : ℕ} {s : MultiSock} (id : ℕ)
    → busy ((s.reader_tasks id).place) ≡ 1
    → IsClaimed n s
    → (s.reader_tasks id).status ≡ false
unfolding claims load
busy-status {s = s} id works k = let o = k.once id in ground (arith, o, works)

place-Accounts :
    {n c : ℕ} {es : List Event} {s : MultiSock} (sock id : ℕ)
    → s.acceptor ≡ placing sock id
    → IsClaimed n s
    → Accounts n c es s
    → Accounts n c (quiet ∷ es) (place_task sock id s)
unfolding times_accepted times_processed times_closed in_hand place_task
place-Accounts {n} {c} {es} {s} sock id at k a =
    let free = picked-load sock id at k in
    let (p, v) = idle-task c (s.reader_tasks id) free in
    let b : busy ((s.reader_tasks id).place) ≡ 0 = unfold load in ground (arith, free) in
    let (u, w) = idle-place ((s.reader_tasks id).place) b in
    let hand : in_hand c s.acceptor ≡ (if c == sock then 1 else 0) = rw at refl in
    let inside : id < n = k.inside id (unfold picked in rw at (ground arith)) in
    move-Accounts id (record (s.reader_tasks id) { socket = sock; status = true }) quiet accepting
      inside a (unfold pending in ground (arith, hand, p, u))
      (unfold served in ground (arith, v, w)) refl s.reader_queue

pub Step-Accounts :
    {n c : ℕ} {es : List Event} {s s' : MultiSock} {e : Event}
    → Step n s e s'
    → IsClaimed n s
    → Accounts n c es s
    → Accounts n c (e ∷ es) s'
unfolding times_accepted times_processed times_closed in_hand pending served unserved unclosed
    accept select take_task process close fail_close push_back
Step-Accounts {c} {s} (accepts sock at) k a =
    let h = a.handed in
    let free : in_hand c s.acceptor ≡ 0 = rw at refl in
    record { handed = omega arith; finished = a.finished }
Step-Accounts {c} {s} (selects sock id rest at queue) k a =
    let h = a.handed in
    let same : in_hand c s.acceptor ≡ (if c == sock then 1 else 0) = rw at refl in
    record { handed = omega arith; finished = a.finished }
Step-Accounts (places sock id at) k a = place-Accounts sock id at k a
Step-Accounts {s} (takes id below at set) k a =
    move-Accounts id _ quiet s.acceptor below a (rw (at, set) refl) (rw at refl) refl s.reader_queue
Step-Accounts {c} {s} (processes id q below at) k a =
    let idle = busy-status {s = s} id (unfold busy in rw at refl) k in
    move-Accounts id _ (processed (s.reader_tasks id).socket) s.acceptor below a
      (rw (at, idle) (ground arith)) (rw at (ground arith)) refl s.reader_queue
Step-Accounts {c} {s} (closes id q below at) k a =
    move-Accounts id _ (closed (s.reader_tasks id).socket) s.acceptor below a (rw at refl)
      (rw at (ground arith)) refl s.reader_queue
Step-Accounts {c} {s} (fails_close id q below at) k a =
    move-Accounts id _ (closed (s.reader_tasks id).socket) s.acceptor below a (rw at refl)
      (rw at (ground arith)) refl s.reader_queue
Step-Accounts {s} (pushes_back id q below at) k a =
    let idle = idle-place (if q then gone else waiting) (elim (Bool-cases q) [
      | inl e ↦ unfold busy in rw e refl
      | inr e ↦ unfold busy in rw e refl
    ]) in
    move-Accounts id _ quiet s.acceptor below a (rw (at, idle.0) refl) (rw (at, idle.1) refl) refl
      (s.reader_queue ++ (id ∷ []))

-- ===== src/MultiSock/Runs.antt =====
-- The runs of src/lib/frl_util_multi_sock.cpp: no socket is lost or handed out twice, unless its reader
-- has ended.
use alter.Common.{
  ℕ, zero, suc, ◌+◌, ◌<◌, ◌≤◌, Bool, true, false, List, [], ◌==◌, update, ◌≡◌, refl, sym, ap, ◌∙◌,
  inl, inr, Bool-cases, arith, ◌++◌, ◌≤◌,
}
use alter.Common.Tally.{tally, tally-zero, tally-member}
use alter.MultiSock.Defs.{
  Place, waiting, serving, closing, returning, gone, Task, placing, MultiSock, spawn_loop, spawn,
  accept, select, place_task, take_task, process, close, fail_close, push_back, Event, Step,
  accepts, selects, places, takes, processes, closes, fails_close, pushes_back, Run, start, after,
}
use alter.MultiSock.Claims.{IsClaimed, load, busy, picked, Step-IsClaimed, spawn-IsClaimed}
use alter.MultiSock.Sockets.{
  times_accepted, times_processed, times_closed, unserved, unclosed, pending, served, in_hand,
  Accounts, picked-load, Step-Accounts,
}

-- At the start no reader has a socket.
spawn_loop-idle :
    (w : Task → ℕ) (n i : ℕ) (s : MultiSock)
    → w (record { socket = 0; status = false; place = waiting }) ≡ 0
    → ((j : ℕ) → w (s.reader_tasks j) ≡ 0)
    → (j : ℕ) → w ((spawn_loop n i s).reader_tasks j) ≡ 0
unfolding spawn_loop
spawn_loop-idle w zero i s free all = all
spawn_loop-idle w (suc n) i s free all =
    spawn_loop-idle w n (i + 1) _ free
      λ j. elim (Bool-cases (j == i)) [ inl e ↦ rw e free | inr e ↦ rw e (all j) ]

spawn_loop-acceptor : (n i : ℕ) (s : MultiSock) → (spawn_loop n i s).acceptor ≡ s.acceptor
unfolding spawn_loop
spawn_loop-acceptor zero i s = refl
spawn_loop-acceptor (suc n) i s = spawn_loop-acceptor n (i + 1) _

spawn-Accounts : (n c : ℕ) → Accounts n c [] (spawn n)
unfolding spawn times_accepted times_processed times_closed pending served unserved unclosed
spawn-Accounts n c =
    let none_held =
      tally-zero (pending c) (spawn n).reader_tasks n
        (spawn_loop-idle (pending c) n 0 _ (ground arith) λ j. ground arith) in
    let none_served =
      tally-zero (served c) (spawn n).reader_tasks n
        (spawn_loop-idle (served c) n 0 _ (ground arith) λ j. ground arith) in
    let hand : in_hand c (spawn n).acceptor ≡ 0 =
      unfold in_hand in rw (spawn_loop-acceptor n 0 _) refl in
    record { handed = omega arith; finished = omega arith }

pub Run-IsClaimed :
    {n : ℕ} {s : MultiSock} {es : List Event} {s' : MultiSock}
    → Run n s es s'
    → IsClaimed n s
    → IsClaimed n s'
Run-IsClaimed start c = c
Run-IsClaimed (after run step) c = Step-IsClaimed step (Run-IsClaimed run c)

-- In every run of the accepting thread and n readers behind spawn, for each socket: as often as
-- it was accepted, it is with the accepting thread, or with a reader that has yet to process it,
-- or was processed; and as often as it was processed, it is with a reader that has yet to close
-- it, or was closed.
pub Run-Accounts :
    (n c : ℕ) {es : List Event} {s : MultiSock} → Run n (spawn n) es s → Accounts n c es s
Run-Accounts n c start = spawn-Accounts n c
Run-Accounts n c (after run step) =
    Step-Accounts step (Run-IsClaimed run (spawn-IsClaimed n)) (Run-Accounts n c run)

-- The accepting thread only writes a task that is not set, and whose reader waits or has ended.
Run-picked :
    (n sock id : ℕ) {es : List Event} {s : MultiSock}
    → Run n (spawn n) es s
    → s.acceptor ≡ placing sock id
    → (id < n) × ((s.reader_tasks id).status ≡ false) × (busy ((s.reader_tasks id).place) ≡ 0)
unfolding load picked
Run-picked n sock id run at =
    let k = Run-IsClaimed run (spawn-IsClaimed n) in
    let free = picked-load sock id at k in
    (k.inside id (rw at (ground arith)), ground (arith, free), ground (arith, free))

abbrev is_gone : Place → Bool
is_gone gone = true
is_gone waiting = false
is_gone serving = false
is_gone (closing q) = false
is_gone (returning q) = false

-- A reader in its loop writes no other task.
other-task :
    (f : ℕ → Task) (id id' : ℕ) (t : Task) (p : Place)
    → (f id').place ≡ p
    → is_gone p ≡ false
    → (f id).place ≡ gone
    → update f id' t id ≡ f id
other-task f id id' t p at live out = elim (Bool-cases (id == id')) [
  | inl e ↦
      let same : id ≡ id' = ground (arith, e) in
      let both : gone ≡ p = sym out ∙ ap (λ j. (f j).place) same ∙ at in
      absurd (cc (ap is_gone both, live))
  | inr e ↦ rw e refl
]

-- One step leaves a task that is set, of a reader whose loop has ended.
Step-gone :
    {n : ℕ} {s s' : MultiSock} {e : Event} (id : ℕ)
    → Step n s e s'
    → IsClaimed n s
    → (s.reader_tasks id).place ≡ gone
    → (s.reader_tasks id).status ≡ true
    → s'.reader_tasks id ≡ s.reader_tasks id
unfolding accept select place_task take_task process close fail_close push_back
Step-gone id (accepts sock at) k out set = refl
Step-gone id (selects sock id' rest at queue) k out set = refl
Step-gone {s} id (places sock id' at) k out set = elim (Bool-cases (id == id')) [
  | inl e ↦
      let free = picked-load sock id' at k in absurd (unfold load in ground (arith, e, free, set))
  | inr e ↦ rw e refl
]
Step-gone {s} id (takes id' below at set') k out set =
    other-task s.reader_tasks id id' _ waiting at refl out
Step-gone {s} id (processes id' q below at) k out set =
    other-task s.reader_tasks id id' _ serving at refl out
Step-gone {s} id (closes id' q below at) k out set =
    other-task s.reader_tasks id id' _ (closing q) at refl out
Step-gone {s} id (fails_close id' q below at) k out set =
    other-task s.reader_tasks id id' _ (closing q) at refl out
Step-gone {s} id (pushes_back id' q below at) k out set =
    other-task s.reader_tasks id id' _ (returning q) at refl out

-- No step of a run changes the task of a reader whose loop has ended, once it is set.
Run-reader_tasks :
    {n : ℕ} {s : MultiSock} {es : List Event} {s' : MultiSock} (id : ℕ)
    → Run n s es s'
    → IsClaimed n s
    → (s.reader_tasks id).place ≡ gone
    → (s.reader_tasks id).status ≡ true
    → s'.reader_tasks id ≡ s.reader_tasks id
Run-reader_tasks id start k out set = refl
Run-reader_tasks id (after run step) k out set =
    let same = Run-reader_tasks id run k out set in
    Step-gone id step (Run-IsClaimed run k) (ap (λ (t : Task). t.place) same ∙ out)
      (ap (λ (t : Task). t.status) same ∙ set)
    ∙ same

Run-append :
    {n : ℕ} {s s' s'' : MultiSock} {es es' : List Event}
    → Run n s es s'
    → Run n s' es' s''
    → Run n s (es' ++ es) s''
Run-append run start = run
Run-append run (after run' step) = after (Run-append run run') step

-- When, in a run behind spawn, the task of a reader whose loop has ended is set to a socket, and
-- the socket is accepted once at most in that run and a run that goes on from there, then in
-- both of them it is neither processed nor closed.
pub Run-gone :
    (n id : ℕ) {es es' : List Event} {s s' : MultiSock}
    → Run n (spawn n) es s
    → Run n s es' s'
    → id < n
    → (s.reader_tasks id).place ≡ gone
    → (s.reader_tasks id).status ≡ true
    → times_accepted (s.reader_tasks id).socket (es' ++ es) ≤ 1
    → (times_processed (s.reader_tasks id).socket (es' ++ es) ≡ 0)
      × (times_closed (s.reader_tasks id).socket (es' ++ es) ≡ 0)
Run-gone n id {s} {s'} run run' below out set once =
    let c = (s.reader_tasks id).socket in
    let same = Run-reader_tasks id run' (Run-IsClaimed run (spawn-IsClaimed n)) out set in
    let a = Run-Accounts n c (Run-append run run') in
    let waits : 1 ≤ pending c (s.reader_tasks id) = unfold pending in rw set (ground arith) in
    let held : 1 ≤ tally (pending c) s'.reader_tasks n =
      omega
        (arith, tally-member (pending c) s'.reader_tasks id n below, ap (pending c) same, waits) in
    (omega (arith, a.handed, held, once), omega (arith, a.handed, a.finished, held, once))

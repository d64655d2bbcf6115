-- ===== src/Examples/Workers.antt =====
-- A worker with two classes of items, one follower, and two transporters: each theorem on
-- src/worker/alter.cpp at a concrete input.
use alter.Common.{false, ◌<◌, [], ◌∷◌, ◌≡◌, refl, arith}
use alter.Slab.Defs.{Pool}
use alter.Slab.Api.{slab_allocator}
use alter.Worker.Sizes.{Sizes, alloc, Served, alloc-Served}
use alter.Worker.Release.{
  holding, testing, done, Buffer, share, drop_ref, test_ref, here, there, drops, tests, Released,
  shared, then_releases, held, tested, Released-frees,
}
use alter.Worker.Registry.{Register, Registry}
use alter.Worker.Seats.{IsRegistry}
use alter.Worker.Enrolment.{sessions, Enrolled, sessions-Enrolled}
use alter.Pipe.Spawn.{Threads}
use alter.Examples.SlabPool.{empty_pool, empty_pool-PoolIsValid, empty_pool-Fits, no_mallocs}

-- Pools of 8 and of 16 bytes.
abbrev two_classes : Sizes Pool
two_classes = record { min = 8; total = 2; chain = λ _. empty_pool }

alloc-Served_example :
    Served slab_allocator two_classes 10 (alloc slab_allocator no_mallocs 10 two_classes)
alloc-Served_example =
    alloc-Served slab_allocator two_classes 10 no_mallocs
      λ i below. (empty_pool-PoolIsValid, empty_pool-Fits)

-- The handler and one transporter both drop the buffer before either of them tests the count: the buffer
-- is freed twice.
abbrev after_drops : Buffer
after_drops = drop_ref (testing ∷ testing ∷ []) (drop_ref (testing ∷ holding ∷ []) (share 1 1))

abbrev after_tests : Buffer
after_tests = test_ref (done ∷ done ∷ []) (test_ref (done ∷ testing ∷ []) after_drops)

after_tests-Released : Released (share 1 1) after_tests
unfolding share drop_ref test_ref
after_tests-Released =
    then_releases
      (then_releases (then_releases (then_releases shared (drops here)) (drops (there here)))
        (tests here))
      (tests (there here))

freed_twice : after_tests.frees ≡ 2
unfolding share drop_ref test_ref
freed_twice = refl

Released-frees_example :
    (0 < held (done ∷ done ∷ []) → after_tests.frees ≡ 0)
    × (held (done ∷ done ∷ []) ≡ 0 → tested (done ∷ done ∷ []) ≡ 0 → 0 < after_tests.frees)
unfolding share drop_ref test_ref
Released-frees_example = Released-frees 1 (omega arith) after_tests-Released

abbrev no_threads : Threads
no_threads = record {
  sender = false;
  receiver = false;
  recv_state = 0;
  send_state = 0;
  replicate = 0;
  address = 0;
}

abbrev registry : Registry
registry = record {
  follow = 0;
  max = 2;
  backup = 1;
  transporter = λ _. no_threads;
  registers = 0;
  receipts = 0;
}

registry-IsRegistry : IsRegistry registry
registry-IsRegistry = record {
  room = omega arith;
  bound = omega arith;
  idle = λ _. record { sender = refl; receiver = refl };
}

abbrev first_worker : Register
first_worker = record { ticket = 7; sockaddr = 70 }

abbrev second_worker : Register
second_worker = record { ticket = 8; sockaddr = 80 }

sessions-Enrolled_example :
    Enrolled
      (first_worker ∷ second_worker ∷ [])
      registry
      (sessions (first_worker ∷ second_worker ∷ []) registry)
sessions-Enrolled_example =
    sessions-Enrolled (first_worker ∷ second_worker ∷ []) registry registry-IsRegistry (omega arith)

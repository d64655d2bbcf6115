-- ===== src/Queue/Create.antt =====
-- A queue that frl_queue_create has set up is empty.
use alter.Common.{ℕ, ◌≡◌, Option, none, some, [], refl, arith, inl}
use alter.Common.Chain.{nil}
use alter.Allocator.{Allocator, Allocates, hands_out, no_memory}
use alter.Queue.Defs.{Entry, Queue, create}
use alter.Queue.Invariant.{Holds}

-- How frl_queue_create ends in a pool that is ready: with an empty queue, or with a write through
-- NULL.
pub data Creates (al : Allocator) : Option (Queue al.State) → Type 0 where
  created : {q : Queue al.State} → Holds al q [] → Creates al (some q)
  null_written : Creates al none

module _ (al : Allocator) (pool : al.State) (r : al.Request) (entry : ℕ → Entry) where
  create-eq :
      {m : Option (Option ℕ × al.State)}
      → al.palloc r pool ≡ m
      → Allocates al.IsValid al.Live pool m
      → Creates al (create al r pool entry)
  unfolding create
  create-eq e (hands_out ok pos fresh added) = simp e (
      created (record {
        nodes = [];
        at = record {
          unlocked = refl;
          pool_valid = ok;
          chain = nil;
          tail_out = refl;
          tail_next = ground arith;
          live = λ a i. (added a).1 (inl (ground arith));
          not_null = λ a i. ground arith;
          values = refl;
          size = refl;
        };
      }))
  create-eq e no_memory = simp e null_written

  -- frl_queue_create in a pool that is ready gives an empty queue, or writes through NULL when
  -- the pool has no item for the head.
  pub create-Creates : al.IsValid pool → al.IsReady pool r → Creates al (create al r pool entry)
  create-Creates v ready = create-eq refl (al.palloc-Allocates pool r v ready)

-- ===== src/Queue/Push.antt =====
-- Pushing puts a pointer behind the others.
use alter.Common.{
  ℕ, ◌+◌, ◌<◌, true, false, Option, some, List, [], ◌∷◌, ◌++◌, ◌≡◌, ◌≢◌, ◌==◌, ◌||◌, ◌↔◌, ◌⊎◌, inl,
  inr, if◌then◌else◌, arith, has, refl, has-append, Bool-cases, length-append,
}
use mathlib.Core.List.{map-append}
use alter.Common.Chain
use alter.Common.Chain.{Chain, nil, cons}
use alter.Allocator.{Allocator, Allocates, hands_out, no_memory}
use alter.Queue.Defs.{Queue, Status, success, enomem, link, trypush, push, unlock}
use alter.Queue.Invariant.{HoldsAt, Holds, behind, pointers, has-behind, behind-snoc, pointers-same}

module _ (al : Allocator) {q : Queue al.State} {xs vs : List ℕ} (h : HoldsAt al q xs vs)
    (e v signals : ℕ) {pool' : al.State} (ok : al.IsValid pool') (pos : 0 < e)
    (fresh : ¬ al.Live q.pool e)
    (added : (p : ℕ) → al.Live pool' p ↔ ((p ≡ e) ⊎ al.Live q.pool p)) where
  abbrev linked : Queue al.State
  linked = unlock (record (link al e v pool' q) { signals = signals })

  -- The new entry is none of the queue's nodes.
  new_node : (a : ℕ) → (has a xs || (a == q.tail)) ≡ true → a ≢ e
  new_node a i is = fresh (rw is at (h.live a i))

  tail_ne : q.tail ≢ e
  tail_ne = new_node q.tail (ground arith)

  out : has e xs ≡ false
  out = ground (arith, new_node e)

  next_old : (a : ℕ) → has a xs ≡ true → (linked.entry a).next ≡ (q.entry a).next
  unfolding link
  next_old a i = ground (arith, h.tail_out, out)

  next_tail : (linked.entry q.tail).next ≡ e
  unfolding link
  next_tail = ground arith

  same_pointer :
      (a : ℕ) → has a (behind xs q.tail) ≡ true → (linked.entry a).pointer ≡ (q.entry a).pointer
  unfolding link
  same_pointer a i = ground (arith, new_node a (has-behind a q.tail xs i), tail_ne)

  new_pointer : (linked.entry e).pointer ≡ v
  unfolding link
  new_pointer = ground (arith, tail_ne)

  in_new :
      (a : ℕ) → (has a (xs ++ q.tail ∷ []) || (a == e)) ≡ ((has a xs || (a == q.tail)) || (a == e))
  in_new a = ground (arith, has-append a xs (q.tail ∷ []))

  linked_values : pointers linked.entry (behind (xs ++ q.tail ∷ []) e) ≡ vs ++ v ∷ []
  linked_values = rw (
    behind-snoc,
    map-append,
    pointers-same q.entry linked.entry (behind xs q.tail) same_pointer,
    h.values,
    new_pointer,
  )

  linked-Chain : Chain (λ a. (linked.entry a).next) e q.head (xs ++ q.tail ∷ [])
  linked-Chain =
      Chain.snoc (Chain.frame (λ a. (linked.entry a).next) h.chain next_old) h.tail_out next_tail

  still_live : (a : ℕ) → (has a (xs ++ q.tail ∷ []) || (a == e)) ≡ true → (a ≡ e) ⊎ al.Live q.pool a
  still_live a i = elim (Bool-cases (a == e)) [
    | inl is ↦ inl (ground arith)
    | inr no_e ↦ inr (h.live a (ground (arith, in_new a)))
  ]

  pub link-HoldsAt : HoldsAt al linked (xs ++ q.tail ∷ []) (vs ++ v ∷ [])
  unfolding link
  link-HoldsAt = record {
    unlocked = refl;
    pool_valid = ok;
    chain = linked-Chain;
    tail_out = ground (arith, has-append e xs (q.tail ∷ []), out, tail_ne);
    tail_next = ground (arith, tail_ne);
    live = λ a i. (added a).1 (still_live a i);
    not_null = λ a i. ground (arith, h.not_null a, in_new a);
    values = linked_values;
    size = omega (arith, h.size, length-append vs (v ∷ []));
  }

-- How a push of `v` onto a queue with the pointers `vs` ends, in a pool that is ready: the pointer
-- stands behind the others, and `signals` tells how often `not_empty` has been signalled; or there
-- was no memory, and the list of entries is as before.
pub data Pushes (al : Allocator) (q : Queue al.State) (vs : List ℕ) (v signals : ℕ)
    : Option (Status × Queue al.State) → Type 0 where
  pushed :
      {q' : Queue al.State}
      → Holds al q' (vs ++ v ∷ [])
      → q'.signals ≡ signals
      → q'.empty_waiters ≡ q.empty_waiters
      → q'.destroyed ≡ q.destroyed
      → Pushes al q vs v signals (some (success, q'))
  out_of_memory :
      {pool : al.State}
      → Pushes al q vs v signals (some (enomem, record q { pool = pool; held = false }))

module _ (al : Allocator) {q : Queue al.State} {vs : List ℕ} (h : Holds al q vs) (r : al.Request)
    (v : ℕ) (ready : al.IsReady q.pool r) where
  held_at : q.held ≡ false
  held_at = h.at.unlocked

  tail_at : (q.tail == 0) ≡ false
  tail_at = ground (arith, h.at.not_null q.tail)

  trypush-eq :
      {m : Option (Option ℕ × al.State)}
      → al.palloc r q.pool ≡ m
      → Allocates al.IsValid al.Live q.pool m
      → Pushes al q vs v q.signals (trypush al r v q)
  unfolding trypush
  trypush-eq e (hands_out {p} ok pos fresh added) =
      simp (held_at, e, tail_at)
        (pushed
          (record {
            nodes = h.nodes ++ q.tail ∷ [];
            at = link-HoldsAt al h.at p v q.signals ok pos fresh added;
          })
          refl refl refl)
  trypush-eq e no_memory = simp (held_at, e) out_of_memory

  push-eq :
      {m : Option (Option ℕ × al.State)}
      → al.palloc r q.pool ≡ m
      → Allocates al.IsValid al.Live q.pool m
      → Pushes al q vs v (if q.empty_waiters == 0 then q.signals else q.signals + 1) (push al r v q)
  unfolding push
  push-eq e (hands_out {p} ok pos fresh added) =
      simp (held_at, e, tail_at)
        (pushed
          (record {
            nodes = h.nodes ++ q.tail ∷ [];
            at =
                link-HoldsAt al h.at p v (if q.empty_waiters == 0 then q.signals else q.signals + 1)
                  ok pos fresh added;
          })
          refl refl refl)
  push-eq e no_memory = simp (held_at, e) out_of_memory

  -- On a queue that holds the pointers vs, in an allocator that is ready,
  -- frl_queue_trypush_lock_with leaves vs with its pointer at the end; or it reports that there
  -- is no memory and changes nothing but the pool. In no case does it signal a pop that waits.
  pub trypush-Pushes : Pushes al q vs v q.signals (trypush al r v q)
  trypush-Pushes = trypush-eq refl (al.palloc-Allocates q.pool r h.at.pool_valid ready)

  -- On a queue that holds the pointers vs, in an allocator that is ready,
  -- frl_queue_push_lock_with leaves vs with its pointer at the end and signals not_empty when a
  -- pop waits; or it reports that there is no memory and changes nothing but the pool.
  pub push-Pushes :
      Pushes al q vs v (if q.empty_waiters == 0 then q.signals else q.signals + 1) (push al r v q)
  push-Pushes = push-eq refl (al.palloc-Allocates q.pool r h.at.pool_valid ready)

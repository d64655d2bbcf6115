-- ===== src/Examples/Lists.antt =====
-- A list with two entries on a slab pool: each theorem on src/lib/frl_list.c at a concrete input.
use alter.Common.{
  ℕ, ◌<◌, Option, none, some, ◌≡◌, List, [], ◌∷◌, arith, refl, ◌==◌, update, Bool-cases, inl, inr,
  insert_after,
}
use alter.Common.Chain.{nil, cons}
use alter.Slab.Defs.{Pool, pool_create}
use alter.Slab.Alloc.{palloc}
use alter.Slab.Allocation.{Fits}
use alter.Slab.Api.{slab_allocator}
use alter.LinkedList.Defs.{Store, add, after, get}
use alter.LinkedList.Invariant.{Leads, Owns, first_with}
use alter.LinkedList.Lookup.{get-first_with, set-Sets, Sets}
use alter.LinkedList.Insertion.{placed}
use alter.LinkedList.Add.{AddsBehind, added, out_of_memory, add-AddsBehind}
use alter.LinkedList.Remove.{Removes, Precedes, remove-Removes}
use alter.LinkedList.Lifetime.{ReadyAfter}
use alter.LinkedList.Stale.{Loses, add-remove-Loses}
use alter.Examples.SlabPool.{
  empty_pool, two_out, first_out, second_out, two_out-grows, no_mallocs, second_mallocs,
  no_mallocs-Fits,
}

-- The list 5 with the sentinels at 1076 and 1032, as frl_list_create sets it up.
abbrev empty_list : Store Pool
empty_list = record {
  pool = two_out;
  entry =
      update
        (update (λ a. record { key = 0; pointer = 0; list = 0; next = 0; prev = 0 }) 1076
          (record { key = 0; pointer = 0; list = 5; next = 1032; prev = 0 }))
        1032 (record { key = 0; pointer = 0; list = 5; next = 0; prev = 1076 });
  lists = λ l. record { head = 1076; tail = 1032; nelts = 0 };
}

empty_list-Leads : Leads empty_list 5 []
empty_list-Leads = record {
  chain = cons refl refl nil;
  tail_out = refl;
  not_null = λ a i. ground arith;
  owner = λ a i. ground arith;
}

empty_list-Owns : Owns slab_allocator empty_list 5 []
empty_list-Owns = record {
  leads = empty_list-Leads;
  size = refl;
  pool_valid = second_out.keeps_valid;
  live = λ a i. elim (Bool-cases (a == 1032)) [
    | inl e ↦ (second_out.added a).1 (inl (ground arith))
    | inr e ↦ (second_out.added a).1 (inr ((first_out.added a).1 (inl (ground arith))))
  ];
}

abbrev list_of : Option (ℕ × Store Pool) → Store Pool
list_of none = empty_list
list_of (some (n, s)) = s

-- What an insertion that succeeds gives.
AddsBehind-Owns :
    {s s' : Store Pool} {list e key pointer n : ℕ} {xs : List ℕ} {run : Option (ℕ × Store Pool)}
    → AddsBehind slab_allocator s list xs e key pointer run
    → 0 < n
    → run ≡ some (n, s')
    → Owns slab_allocator s' list (placed (s.lists list).head e n xs)
AddsBehind-Owns {s'} {n} (added {n = m} {s' = t} h a b) pos e =
    let same : t ≡ s' = ground (arith, e) in
    let same_entry : m ≡ n = ground (arith, e) in rw (same, same_entry) at h
AddsBehind-Owns out_of_memory pos e = absurd (ground (arith, e))

abbrev pub one_list : Store Pool
one_list = list_of (add slab_allocator second_mallocs 1076 after 3 70 empty_list)

one_list-Owns : Owns slab_allocator one_list 5 (2164 ∷ [])
unfolding pool_create palloc add insert_after
one_list-Owns =
    AddsBehind-Owns {n = 2164}
      (add-AddsBehind slab_allocator empty_list-Owns second_mallocs two_out-grows 1076 3 70 refl)
      (omega arith) refl

one_list-Fits : Fits one_list.pool no_mallocs
unfolding pool_create palloc add
one_list-Fits = no_mallocs-Fits one_list.pool (omega arith)

abbrev pub two_list : Store Pool
two_list = list_of (add slab_allocator no_mallocs 2164 after 4 80 one_list)

pub two_list-Owns : Owns slab_allocator two_list 5 (2164 ∷ 2120 ∷ [])
unfolding pool_create palloc add insert_after
two_list-Owns =
    AddsBehind-Owns {n = 2120}
      (add-AddsBehind slab_allocator one_list-Owns no_mallocs one_list-Fits 2164 4 80 refl)
      (omega arith) refl

pub two_list-Fits : Fits two_list.pool no_mallocs
unfolding pool_create palloc add
two_list-Fits = no_mallocs-Fits two_list.pool (omega arith)

get-first_with_example : get 3 5 4 two_list ≡ some (first_with two_list.entry 4 (2164 ∷ 2120 ∷ []))
get-first_with_example = get-first_with two_list-Owns.leads 3 4 (omega arith)

-- The key that lies in the head is 0.
pub two_list-head_key : (two_list.entry (two_list.lists 5).head).key ≡ 0
unfolding pool_create palloc add
two_list-head_key = refl

set-Sets_example : Sets 4 5 4 90 two_list (2164 ∷ 2120 ∷ [])
set-Sets_example =
    set-Sets two_list-Owns.leads 4 4 90 (omega arith) (ground (arith, two_list-head_key))

add-AddsBehind_example :
    AddsBehind slab_allocator two_list 5
      (2164 ∷ 2120 ∷ [])
      2164
      6
      60
      (add slab_allocator no_mallocs 2164 after 6 60 two_list)
add-AddsBehind_example =
    add-AddsBehind slab_allocator two_list-Owns no_mallocs two_list-Fits 2164 6 60 (ground arith)

two_list-Precedes : Precedes two_list 5 (2164 ∷ 2120 ∷ []) 2164 2120
unfolding pool_create palloc add
two_list-Precedes = record { inside = refl; entry = refl; next = refl }

two_list-prev : (two_list.entry 2120).prev ≡ 2164
unfolding pool_create palloc add
two_list-prev = refl

remove-Removes_example :
    (s' : Store Pool) × Removes slab_allocator two_list-Owns 2164 2120 two_list-Precedes
      two_list-prev s'
remove-Removes_example =
    remove-Removes slab_allocator two_list-Owns 2164 2120 two_list-Precedes two_list-prev

add-remove-Loses_example :
    Loses slab_allocator two_list 5
      (2164 ∷ 2120 ∷ [])
      2120
      (add slab_allocator no_mallocs 2164 after 6 60 two_list)
add-remove-Loses_example =
    add-remove-Loses slab_allocator two_list-Owns no_mallocs two_list-Fits 6 60 2164 2120
      two_list-Precedes two_list-prev

ready_after : ReadyAfter slab_allocator no_mallocs no_mallocs empty_pool
unfolding pool_create palloc
ready_after p pool' e =
    no_mallocs-Fits pool'
      (let same : pool'.max_capacity ≡ 2 = ground (arith, e) in omega (arith, same))

-- ===== src/Examples/Hashes.antt =====
-- A hash table of one list, which has the keys 3 and 4.
use alter.Common.{◌<◌, [], ◌∷◌, some, ◌≡◌, refl, arith}
use alter.Slab.Defs.{Pool, pool_create}
use alter.Slab.Alloc.{palloc}
use alter.Slab.Api.{slab_allocator}
use alter.LinkedList.Defs.{add}
use alter.LinkedList.Invariant.{first_with}
use alter.Hash.Defs.{Hash, success, hash_get, hash_set, hash_add}
use alter.Hash.Lookup.{Forgets, hash_add-Forgets, hash_set-hash_get}
use alter.Examples.SlabPool.{no_mallocs}
use alter.Examples.Lists.{two_list, two_list-Owns, two_list-Fits, two_list-head_key}

abbrev table : Hash Pool
table = record { nelts = 1; entry = λ i. 5; store = two_list }

absent : first_with two_list.entry 6 (2164 ∷ 2120 ∷ []) ≡ 0
unfolding pool_create palloc add first_with
absent = refl

present : 0 < first_with two_list.entry 4 (2164 ∷ 2120 ∷ [])
unfolding pool_create palloc add first_with
present = omega arith

hash_add-Forgets_example : Forgets table 6 3 (hash_add slab_allocator no_mallocs 6 60 table)
hash_add-Forgets_example =
    hash_add-Forgets slab_allocator table 6 (omega arith) two_list-Owns 3 60 no_mallocs
      two_list-Fits (omega arith) absent

hash_set-hash_get_example :
    (h' : Hash Pool) × (hash_set 4 4 90 table ≡ some (success, h')) × (hash_get 4 4 h' ≡ some 90)
hash_set-hash_get_example =
    hash_set-hash_get table 4 4 90 (omega arith) two_list-Owns.leads (omega arith)
      (ground (arith, two_list-head_key)) present

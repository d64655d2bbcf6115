-- ===== src/Hash/Lookup.antt =====
-- What frl_hash_get finds behind frl_hash_set and frl_hash_add.
use alter.Common.{
  ℕ, suc, ◌+◌, ◌%◌, ◌^◌, ◌<◌, false, List, length, Option, some, ◌==◌, if◌then◌else◌, ◌>>=◌, ◌≡◌,
  ◌≢◌, refl, ap, ◌∙◌, arith,
}
use alter.Allocator.{Allocator}
use alter.LinkedList.Defs.{Store, get}
use alter.LinkedList.Invariant.{Leads, Owns, first_with}
use alter.LinkedList.Lookup.{get-first_with, set-Sets}
use alter.LinkedList.Add.{AddsBefore, lost, out_of_memory, add-AddsBefore}
use alter.Hash.Defs.{
  Hash, Outcome, success, bad_argument, hash_func, bucket, hash_get, hash_set, hash_add,
}

-- The list of a key.
abbrev pub list_of : {S : Type 0} → (key : ℕ) → Hash S → ℕ
list_of key h = h.entry (hash_func key h.nelts)

module _ {S : Type 0} (h : Hash S) (key : ℕ) (some_lists : 0 < h.nelts) where
  pub bucket-list_of : bucket key h ≡ some (list_of key h)
  unfolding bucket
  bucket-list_of = let few : (h.nelts == 0) ≡ false = ground (arith, some_lists) in rw few refl

  pub hash_get-get :
      (fuel : ℕ) {e : ℕ}
      → get fuel (list_of key h) key h.store ≡ some e
      → hash_get fuel key h ≡ some (if e == 0 then 0 else (h.store.entry e).pointer)
  unfolding hash_get
  hash_get-get fuel found = rw (bucket-list_of, found) refl

-- What frl_hash_add does to a key: it reports success, and the key is still not found; or it reports that
-- there is no memory.
pub data Forgets {S : Type 0} (h : Hash S) (key fuel : ℕ) : Option (Outcome × Hash S) → Type 0 where
  forgotten :
      {h' : Hash S}
      → (h'.store.lists (list_of key h)).nelts
        ≡ ((h.store.lists (list_of key h)).nelts + 1) % 2 ^ 32
      → hash_get fuel key h' ≡ some 0
      → Forgets h key fuel (some (success, h'))
  refused : {h' : Hash S} → Forgets h key fuel (some (bad_argument, h'))

module _ (al : Allocator) (h : Hash al.State) (key : ℕ) (some_lists : 0 < h.nelts) {xs : List ℕ}
    (o : Owns al h.store (list_of key h) xs) where
  add-Forgets :
      (fuel : ℕ) {run : Option (ℕ × Store al.State)}
      → length xs < fuel
      → first_with h.store.entry key xs ≡ 0
      → AddsBefore al h.store (list_of key h) xs (h.store.lists (list_of key h)).tail run
      → Forgets h key fuel (
          run >>= λ (e, store).
          some (if e == 0 then bad_argument else success, record h { store = store }))
  add-Forgets fuel f absent (lost {n} {s'} pos live new leads size same) =
      let made : (n == 0) ≡ false = ground (arith, pos) in
      rw made (
        forgotten size (
          hash_get-get (record h { store = s' }) key some_lists fuel
            (same fuel key f ∙ get-first_with o.leads fuel key f ∙ ap some absent)))
  add-Forgets fuel f absent out_of_memory = refused

  -- In an allocator that is ready, with fuel for one round more than there are entries, when no
  -- entry of the well-formed list of a key has the key, frl_hash_add of the key reports success
  -- and counts one entry more, but frl_hash_get of the key returns NULL behind it; or it reports
  -- a bad argument.
  pub hash_add-Forgets :
      (fuel pointer : ℕ) (r : al.Request)
      → al.IsReady h.store.pool r
      → length xs < fuel
      → first_with h.store.entry key xs ≡ 0
      → Forgets h key fuel (hash_add al r key pointer h)
  unfolding hash_add
  hash_add-Forgets fuel pointer r ready f absent = rw (bucket-list_of h key some_lists) (
      add-Forgets fuel f absent (
        add-AddsBefore al o r ready (h.store.lists (list_of key h)).tail key pointer
          (ground arith)))

-- With fuel for two rounds more than there are entries, when an entry of the well-formed list of
-- a key has the key, and the head of that list does not, frl_hash_set succeeds, and frl_hash_get
-- of the key returns the pointer behind it.
pub hash_set-hash_get :
    {S : Type 0} (h : Hash S) (key : ℕ) {xs : List ℕ} (fuel pointer : ℕ)
    → 0 < h.nelts
    → Leads h.store (list_of key h) xs
    → suc (length xs) < fuel
    → (h.store.entry (h.store.lists (list_of key h)).head).key ≢ key
    → 0 < first_with h.store.entry key xs
    → (h' : Hash S) × (hash_set fuel key pointer h ≡ some (success, h'))
      × (hash_get fuel key h' ≡ some pointer)
unfolding hash_set
hash_set-hash_get h key {xs} fuel pointer some_lists l f other there =
    let w = set-Sets l fuel key pointer f other in
    let found : 0 < w.e = omega (arith, w.finds, there) in
    let is_there : (w.e == 0) ≡ false = ground (arith, found) in
    (
      record h { store = w.s' },
      rw (bucket-list_of h key some_lists, w.runs, is_there) refl,
      hash_get-get (record h { store = w.s' }) key some_lists fuel w.looked_up
          ∙ rw is_there (ap (λ x. some x.pointer) (w.written found)),
    )

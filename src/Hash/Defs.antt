-- ===== src/Hash/Defs.antt =====
-- frl_hash_get, frl_hash_set, frl_hash_add and frl_hash_remove of src/lib/frl_hash.c over the lists
-- with a lock. A result `none` means that the call has no defined behaviour, or that the fuel of a
-- loop over a list ran out; NULL is 0.
use alter.Common.{ℕ, ◌*◌, ◌%◌, ◌^◌, Option, none, some, ◌==◌, if◌then◌else◌, ◌>>=◌}
use alter.Allocator.{Allocator}
use alter.LinkedList.Defs.{Store, before, get, set, add, remove}

-- `struct frl_hash_t`, and the lists; `entry` has the address of each list.
pub record Hash (S : Type 0) : Type 0 where
  pub nelts : ℕ
  pub entry : ℕ → ℕ
  pub store : Store S

-- APR_SUCCESS and APR_BADARG.
pub data Outcome : Type 0 where
  success bad_argument : Outcome

-- `frl_hash_func`, where the key has 64 bits.
unfoldable pub hash_func : (key nelts : ℕ) → ℕ
hash_func key nelts = key * 33 % 2 ^ 64 % 701 % nelts

-- The list of a key; a division by 0 is not defined.
unfoldable pub bucket : {S : Type 0} → (key : ℕ) → Hash S → Option ℕ
unfolding hash_func
bucket key h = if h.nelts == 0 then none else some (h.entry (hash_func key h.nelts))

module _ {S : Type 0} where
  -- `frl_hash_get`
  unfoldable pub hash_get : (fuel key : ℕ) → Hash S → Option ℕ
  unfolding bucket get
  hash_get fuel key h = bucket key h >>= λ list.
      get fuel list key h.store >>= λ e. some (if e == 0 then 0 else (h.store.entry e).pointer)

  -- `frl_hash_set`
  unfoldable pub hash_set : (fuel key pointer : ℕ) → Hash S → Option (Outcome × Hash S)
  unfolding bucket set
  hash_set fuel key pointer h = bucket key h >>= λ list.
      set fuel list key pointer h.store >>= λ (e, store).
      some (if e == 0 then bad_argument else success, record h { store = store })

module _ (al : Allocator) where
  -- `frl_hash_add`: before the tail of the list.
  unfoldable pub hash_add :
      al.Request → (key pointer : ℕ) → Hash al.State → Option (Outcome × Hash al.State)
  unfolding bucket add
  hash_add r key pointer h = bucket key h >>= λ list.
      add al r (h.store.lists list).tail before key pointer h.store >>= λ (e, store).
      some (if e == 0 then bad_argument else success, record h { store = store })

  -- `frl_hash_remove`
  unfoldable pub hash_remove : (fuel key : ℕ) → Hash al.State → Option (Outcome × Hash al.State)
  unfolding bucket get remove
  hash_remove fuel key h = bucket key h >>= λ list. get fuel list key h.store >>= λ e.
      if e == 0
      then some (bad_argument, h)
      else (remove al e h.store >>= λ store. some (success, record h { store = store }))

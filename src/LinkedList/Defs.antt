-- ===== src/LinkedList/Defs.antt =====
-- The linked list: the functions of src/lib/frl_list.c named `_lock_with`, frl_list_stat, and the
-- parts of frl_list_create and frl_list_destroy that work on entries. Lists and entries are addressed by
-- numbers, and NULL is 0. The lock is taken and given back on every path, with one thread at work,
-- and is left out. A result `none` means that the call has no defined behaviour or that the fuel of
-- a loop, an argument, ran out.
use alter.Common.{
  ℕ, zero, suc, ◌+◌, ◌-◌, ◌%◌, ◌^◌, Option, none, some, ◌==◌, ◌||◌, if◌then◌else◌, update, ◌>>=◌,
}
use alter.Allocator.{Allocator}

-- `enum frl_insert_u`
pub data Insert : Type 0 where
  before after : Insert

-- `struct frl_list_entry_t`
pub record Entry : Type 0 where
  pub key : ℕ
  pub pointer : ℕ
  pub list : ℕ
  pub next : ℕ
  pub prev : ℕ

-- `struct frl_list_t`
pub record ListHead : Type 0 where
  pub head : ℕ
  pub tail : ℕ
  pub nelts : ℕ

-- The lists that share a pool, and the memory of their entries.
pub record Store (S : Type 0) : Type 0 where
  pub pool : S
  pub entry : ℕ → Entry
  pub lists : ℕ → ListHead

-- Writes to the links of an entry.
abbrev pub set_next : (ℕ → Entry) → ℕ → ℕ → ℕ → Entry
set_next entry e p = update entry e (record (entry e) { next = p })

abbrev pub set_prev : (ℕ → Entry) → ℕ → ℕ → ℕ → Entry
set_prev entry e p = update entry e (record (entry e) { prev = p })

-- The loop of frl_list_get_lock_with: the address of the entry, or 0.
unfoldable pub find : (ℕ → Entry) → (tail key : ℕ) → ℕ → (elts : ℕ) → Option ℕ
find entry tail key zero elts = none
find entry tail key (suc k) elts =
    let rest = find entry tail key k (entry elts).next in
    if elts == tail || elts == 0
    then some 0
    else if (entry elts).key == key
    then some elts
    else rest

module _ {S : Type 0} where
  -- `frl_list_get_lock_with`
  unfoldable pub get : ℕ → (list key : ℕ) → Store S → Option ℕ
  unfolding find
  get fuel list key s = let l = s.lists list in find s.entry l.tail key fuel (s.entry l.head).next

  -- `frl_list_set_lock_with`: its loop starts at the head itself.
  unfoldable pub set : ℕ → (list key pointer : ℕ) → Store S → Option (ℕ × Store S)
  unfolding find
  set fuel list key pointer s =
      let l = s.lists list in
      find s.entry l.tail key fuel l.head >>= λ elts. some (
        elts,
        if elts == 0 then s else record s {
          entry = update s.entry elts (record (s.entry elts) { pointer = pointer });
        },
      )

  -- The writes of frl_list_add_lock_with to the new entry `elts`.
  unfoldable pub link_entry : (entry : ℕ) → Insert → (key pointer elts : ℕ) → Store S → Store S
  link_entry e after key pointer elts s =
      let list = (s.entry e).list in
      let l = s.lists list in
      let fresh : Entry = record {
        key = key;
        pointer = pointer;
        list = list;
        next = (s.entry e).next;
        prev = e;
      } in
      record s {
        entry = set_next (update s.entry elts fresh) e elts;
        lists = update s.lists list (record l { nelts = (l.nelts + 1) % 2 ^ 32 });
      }
  link_entry e before key pointer elts s =
      let list = (s.entry e).list in
      let l = s.lists list in
      let fresh : Entry = record {
        key = key;
        pointer = pointer;
        list = list;
        next = e;
        prev = (s.entry e).prev;
      } in
      record s {
        entry = set_prev (update s.entry elts fresh) e elts;
        lists = update s.lists list (record l { nelts = (l.nelts + 1) % 2 ^ 32 });
      }

  -- The writes of frl_list_remove_lock_with: the neighbours are joined, and the list counts one less.
  unfoldable pub unlink : ℕ → Store S → Store S
  unlink elts s =
      let list = (s.entry elts).list in
      let l = s.lists list in
      let prev = (s.entry elts).prev in
      let next = (s.entry elts).next in
      let joined = if prev == 0 then s.entry else set_next s.entry prev next in
      record s {
        entry =
            if (joined elts).next == 0
            then joined
            else set_prev joined (joined elts).next (joined elts).prev;
        lists = update s.lists list (record l { nelts = (l.nelts + 2 ^ 32 - 1) % 2 ^ 32 });
      }

-- `struct frl_list_stat_t`
pub record Stat : Type 0 where
  pub nelts : ℕ
  pub busy : ℕ

-- The loop of frl_list_stat, which stops at the tail only.
unfoldable pub stat_loop : (ℕ → Entry) → (tail : ℕ) → ℕ → (elts : ℕ) → Stat → Option Stat
stat_loop entry tail zero elts stat = none
stat_loop entry tail (suc k) elts stat =
    let rest = stat_loop entry tail k (entry elts).next (record {
      nelts = (stat.nelts + 1) % 2 ^ 32;
      busy = if (entry elts).pointer == 0 then (stat.busy + 1) % 2 ^ 32 else stat.busy;
    }) in
    if elts == tail then some stat else rest

-- `frl_list_stat`
unfoldable pub list_stat : {S : Type 0} → ℕ → ℕ → Store S → Option Stat
unfolding stat_loop
list_stat fuel list s =
    let l = s.lists list in
    stat_loop s.entry l.tail fuel (s.entry l.head).next (record { nelts = 0; busy = 0 })

module _ (al : Allocator) where
  -- `frl_list_add_lock_with`: the address of the new entry, or 0.
  unfoldable pub add :
      al.Request
      → (entry : ℕ) → Insert
      → (key pointer : ℕ) → Store al.State
      → Option (ℕ × Store al.State)
  unfolding link_entry
  add r e insert key pointer s = al.palloc r s.pool >>= λ (p, pool'). elim p [
    | none ↦ some (0, record s { pool = pool' })
    | some elts ↦ some (elts, link_entry e insert key pointer elts (record s { pool = pool' }))
  ]

  -- `frl_list_remove_lock_with`
  unfoldable pub remove : ℕ → Store al.State → Option (Store al.State)
  unfolding unlink
  remove elts s =
      let s' = unlink elts s in al.pfree elts s'.pool >>= λ pool'. some (record s' { pool = pool' })

  -- The loop of frl_list_destroy: every entry from the head on is freed.
  unfoldable pub free_entries : ℕ → ℕ → Store al.State → Option (Store al.State)
  free_entries zero elts s = none
  free_entries (suc k) elts s =
      let rest =
        λ (pool : al.State). free_entries k (s.entry elts).next (record s { pool = pool }) in
      if elts == 0 then some s else (al.pfree elts s.pool >>= rest)

  -- frl_list_create behind its `malloc`: the two sentinels of the list at the address `list`. The
  -- results of frl_slab_palloc are not looked at, so NULL would be written through.
  unfoldable pub create :
      (r r' : al.Request) → (list : ℕ) → Store al.State → Option (Store al.State)
  create r r' list s = al.palloc r s.pool >>= λ (p, pool). al.palloc r' pool >>= λ (p', pool').
      p >>= λ head. p' >>= λ tail.
      let at_head : Entry = record (s.entry head) { prev = 0; next = tail; list = list } in
      let entry = update s.entry head at_head in
      let at_tail : Entry = record (entry tail) { prev = head; next = 0; list = list } in
      some (record {
        pool = pool';
        entry = update entry tail at_tail;
        lists = update s.lists list (record { head = head; tail = tail; nelts = 0 });
      })

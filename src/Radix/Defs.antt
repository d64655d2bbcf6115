-- ===== src/Radix/Defs.antt =====
-- The radix tree: keycmp, empty, frl_radix_tree_get_lock_with and frl_radix_tree_add_lock_with of
-- src/lib/frl_radix_tree.c. A key is a function from positions to bytes. The lock is taken and given
-- back on every path, with one thread at work, and is left out.
use alter.Common.{
  ℕ, zero, suc, ◌+◌, ◌-◌, ◌%◌, ◌^◌, Bool, true, false, Option, none, some, ltb, ◌==◌, if◌then◌else◌,
  update, ◌>>=◌,
}
use alter.Allocator.{Allocator}

-- `struct frl_radix_tree_entry_t`, without the link to the tree. There is one tree.
pub record Node : Type 0 where
  pub depth : ℕ
  pub nelts : ℕ
  pub pointer : ℕ
  pub key : ℕ → ℕ
  pub parent : ℕ
  pub children : ℕ → ℕ

-- `struct frl_radix_tree_t`, with the memory of its nodes.
pub record Tree (S : Type 0) : Type 0 where
  pub pool : S
  pub nelts : ℕ
  pub root : ℕ
  pub key_size : ℕ
  pub nodes : ℕ → Node

-- The loop of `keycmp`, with `n` bytes to go from `k` on.
unfoldable pub keycmp_from : (key1 key2 : ℕ → ℕ) → ℕ → (k : ℕ) → Bool
keycmp_from key1 key2 zero k = true
keycmp_from key1 key2 (suc n) k =
    let rest = keycmp_from key1 key2 n (k + 1) in if key1 k == key2 k then rest else false

-- `keycmp`
abbrev pub keycmp : (key1 key2 : ℕ → ℕ) → (k size : ℕ) → Bool
keycmp key1 key2 k size = keycmp_from key1 key2 (size - k) k

-- The loop of frl_radix_tree_get_lock_with, with `n` rounds to go from `i` on: a node or 0.
unfoldable pub get_from : (ℕ → Node) → (size : ℕ) → (key : ℕ → ℕ) → ℕ → (i elts : ℕ) → ℕ
unfolding keycmp_from
get_from nodes size key zero i elts = 0
get_from nodes size key (suc n) i elts =
    let child = (nodes elts).children (key i) in
    let rest = get_from nodes size key n (i + 1) child in
    if child == 0 then 0 else if keycmp (nodes child).key key (i + 1) size then child else rest

-- `frl_radix_tree_get_lock_with`
unfoldable pub tree_get : {S : Type 0} → (key : ℕ → ℕ) → Tree S → ℕ
unfolding get_from
tree_get key t = get_from t.nodes t.key_size key t.key_size 0 t.root

-- The loop of frl_radix_tree_add_lock_with: the node that gets a child, and the position; or `none`
-- when it breaks off or ends.
unfoldable pub slot_from :
    (ℕ → Node) → (size : ℕ) → (key : ℕ → ℕ) → ℕ → (i elts : ℕ) → Option (ℕ × ℕ)
unfolding keycmp_from
slot_from nodes size key zero i elts = none
slot_from nodes size key (suc n) i elts =
    let child = (nodes elts).children (key i) in
    let rest = slot_from nodes size key n (i + 1) child in
    if child == 0
    then some (elts, i)
    else if keycmp (nodes elts).key key (i + 1) size
    then none
    else rest

-- The writes to the new leaf and its parent.
unfoldable pub hang_leaf :
    {S : Type 0} → (key : ℕ → ℕ) → (pointer leaf elts i : ℕ) → Tree S → Tree S
hang_leaf key pointer leaf elts i t =
    let fresh : Node = record {
      depth = i;
      nelts = 0;
      pointer = pointer;
      key = λ k. if ltb k t.key_size then key k else (t.nodes leaf).key k;
      parent = elts;
      children = λ byte. 0;
    } in
    let nodes = update t.nodes leaf fresh in
    let node = nodes elts in
    record t {
      nelts = (t.nelts + 1) % 2 ^ 32;
      nodes = update nodes elts (record node {
        children = update node.children (key i) leaf;
        nelts = (node.nelts + 1) % 2 ^ 32;
      });
    }

-- The copy into `key[32]` of the new leaf, and all the writes. A longer copy runs into the fields behind.
unfoldable pub add_leaf :
    {S : Type 0} → (key : ℕ → ℕ) → (pointer leaf elts i : ℕ) → Tree S → Option (Tree S)
unfolding hang_leaf
add_leaf key pointer leaf elts i t =
    if ltb 32 t.key_size then none else some (hang_leaf key pointer leaf elts i t)

-- What frl_radix_tree_add_lock_with does at the place that its loop has found.
unfoldable pub add_at :
    (al : Allocator)
    → al.Request
    → (key : ℕ → ℕ) → (pointer : ℕ) → Tree al.State
    → Option (ℕ × ℕ)
    → Option (ℕ × Tree al.State)
unfolding add_leaf
add_at al r key pointer t none = some (0, t)
add_at al r key pointer t (some (elts, i)) = al.palloc r t.pool >>= λ (p, pool'). p >>= λ leaf.
    add_leaf key pointer leaf elts i (record t { pool = pool' }) >>= λ t'. some (leaf, t')

-- `frl_radix_tree_add_lock_with`: the new node, or 0. The result of frl_slab_palloc is not looked at,
-- and NULL would be written through.
unfoldable pub tree_add :
    (al : Allocator)
    → al.Request
    → (key : ℕ → ℕ) → (pointer : ℕ) → Tree al.State
    → Option (ℕ × Tree al.State)
unfolding slot_from add_at
tree_add al r key pointer t =
    add_at al r key pointer t (slot_from t.nodes t.key_size key t.key_size 0 t.root)

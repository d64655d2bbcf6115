-- ===== src/Radix/Remove.antt =====
-- frl_radix_tree_remove_lock_with of src/lib/frl_radix_tree.c, and the choice between the variants in
-- frl_radix_tree_get, frl_radix_tree_add and frl_radix_tree_remove.
use alter.Common.{
  ℕ, zero, suc, ◌+◌, ◌-◌, ◌%◌, ◌^◌, Option, none, some, ltb, ◌==◌, if◌then◌else◌, update, ◌>>=◌,
}
use alter.Allocator.{Allocator}
use alter.Slab.Defs.{Lock, lock_with, lock_free}
use alter.Radix.Defs.{Node, Tree, tree_get, tree_add}

-- The loop over the children, with `n` rounds to go from `i` on: the first child without children
-- of its own, or else the first child.
unfoldable pub pick_child : (ℕ → Node) → (leaf : ℕ) → ℕ → (i newleaf : ℕ) → ℕ
pick_child nodes leaf zero i newleaf = newleaf
pick_child nodes leaf (suc n) i newleaf =
    let child = (nodes leaf).children i in
    let skip = pick_child nodes leaf n (i + 1) newleaf in
    let keep = pick_child nodes leaf n (i + 1) (if newleaf == 0 then child else newleaf) in
    if child == 0 then skip else if (nodes child).nelts == 0 then child else keep

-- The loop down to a node without children; `none` at a null pointer or when the fuel runs out.
unfoldable pub descend : (ℕ → Node) → ℕ → (leaf : ℕ) → Option ℕ
unfolding pick_child
descend nodes zero leaf = none
descend nodes (suc k) leaf =
    let rest = descend nodes k (pick_child nodes leaf 256 0 0) in
    if leaf == 0 then none else if (nodes leaf).nelts == 0 then some leaf else rest

-- The leaf is taken off its parent.
unfoldable pub cut_leaf : (leaf : ℕ) → (ℕ → Node) → (ℕ → Node)
cut_leaf leaf nodes =
    let parent = (nodes leaf).parent in
    let node = nodes parent in
    let byte = (nodes leaf).key (nodes leaf).depth in
    update nodes parent (record node {
      children = update node.children byte 0;
      nelts = (node.nelts + 2 ^ 32 - 1) % 2 ^ 32;
    })

-- The key, `size` bytes of it, and the pointer of the leaf go to the node `elts`.
unfoldable pub move_leaf : (size leaf elts : ℕ) → (ℕ → Node) → (ℕ → Node)
move_leaf size leaf elts nodes = update nodes elts (record (nodes elts) {
  key = λ k. if ltb k size then (nodes leaf).key k else (nodes elts).key k;
  pointer = (nodes leaf).pointer;
})

-- `frl_radix_tree_remove_lock_with`
unfoldable pub tree_remove :
    (al : Allocator) → (fuel elts : ℕ) → Tree al.State → Option (Tree al.State)
unfolding descend cut_leaf move_leaf
tree_remove al fuel elts t = descend t.nodes fuel elts >>= λ leaf.
    let nodes = cut_leaf leaf t.nodes in
    let nodes' = if leaf == elts then nodes else move_leaf t.key_size leaf elts nodes in
    if (t.nodes leaf).parent == 0
    then none
    else (al.pfree leaf t.pool >>= λ pool'. some (record t { pool = pool'; nodes = nodes' }))

-- `frl_radix_tree_get`: the value of a call of the empty variant is not defined.
unfoldable pub radix_get : {S : Type 0} → Lock → (key : ℕ → ℕ) → Tree S → Option ℕ
unfolding tree_get
radix_get lock_free key t = none
radix_get lock_with key t = some (tree_get key t)

-- `frl_radix_tree_add`
unfoldable pub radix_add :
    (al : Allocator)
    → Lock
    → al.Request
    → (key : ℕ → ℕ) → (pointer : ℕ) → Tree al.State
    → Option (ℕ × Tree al.State)
unfolding tree_add
radix_add al lock_free r key pointer t = none
radix_add al lock_with r key pointer t = tree_add al r key pointer t

-- `frl_radix_tree_remove`
unfoldable pub radix_remove :
    (al : Allocator) → Lock → (fuel elts : ℕ) → Tree al.State → Option (Tree al.State)
unfolding tree_remove
radix_remove al lock_free fuel elts t = none
radix_remove al lock_with fuel elts t = tree_remove al fuel elts t

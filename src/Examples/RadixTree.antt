-- ===== src/Examples/RadixTree.antt =====
-- A radix tree with one key: each theorem on src/lib/frl_radix_tree.c at a concrete input.
use alter.Common.{
  ℕ, suc, zero, ◌+◌, ◌≤◌, ◌<◌, ◌≡◌, ◌≢◌, ◌==◌, if◌then◌else◌, arith, refl, ◌⊎◌, inl, inr,
  Bool-cases, some, sym,
}
use alter.Slab.Defs.{Pool}
use alter.Radix.Defs.{Tree, tree_get, tree_add, keycmp_from}
use alter.Radix.Lookup.{IsRadix, Gets, walk, tree_get-Gets}
use alter.Examples.SlabPool.{
  empty_pool, two_out, second_mallocs, second_out, two_out-grows, second-Live, first-Live,
}
use alter.Slab.Api.{slab_allocator}
use alter.Radix.Insertion.{IsTree}
use alter.Radix.Create.{root-IsTree}
use alter.Radix.Adds.{Adds, tree_add-Adds}
use alter.Radix.Cut.{IsEnd}
use alter.Radix.Removal.{Removes, tree_remove-Removes}
use alter.Radix.Remove.{tree_remove}
use alter.Slab.Invariant.{Live}
use alter.Radix.Twice.{Single, AddsTwice, tree_add-AddsTwice}

-- The key 7, 9 below the root.
abbrev seven_nine : ℕ → ℕ
seven_nine j = if j == 0 then 7 else 9

abbrev one_key : Tree Pool
one_key = record {
  pool = empty_pool;
  nelts = 1;
  root = 10;
  key_size = 2;
  nodes = λ a. record {
    depth = 0;
    nelts = if a == 10 then 1 else 0;
    pointer = if a == 10 then 0 else 70;
    key = λ j. if a == 10 then 0 else seven_nine j;
    parent = if a == 10 then 0 else 10;
    children = λ byte. if a == 10 then (if byte == 7 then 20 else 0) else 0;
  };
}

one_key-prefix :
    (key : ℕ → ℕ) (i : ℕ)
    → i < 2
    → walk one_key.nodes 10 key (i + 1) ≢ 0
    → (j : ℕ) → j ≤ i
    → (one_key.nodes (walk one_key.nodes 10 key (i + 1))).key j ≡ key j
unfolding walk
one_key-prefix key zero h ne j le = let e : j ≡ 0 = omega arith in rw e (ground arith)
one_key-prefix key (suc i) h ne j le = absurd (ground arith)

one_key-IsRadix : IsRadix one_key.nodes 10 2
one_key-IsRadix = record { not_null = λ e. absurd (omega arith); prefix = one_key-prefix }

tree_get-Gets_example : Gets one_key.nodes 10 2 seven_nine (tree_get seven_nine one_key)
tree_get-Gets_example = tree_get-Gets one_key seven_nine one_key-IsRadix

-- The same tree on a slab pool, with the root at 1076 and the node at 1032.
abbrev pool_tree : Tree Pool
pool_tree = record {
  pool = two_out;
  nelts = 1;
  root = 1076;
  key_size = 2;
  nodes = λ a. record {
    depth = 0;
    nelts = if a == 1076 then 1 else 0;
    pointer = if a == 1076 then 0 else 70;
    key = λ j. if a == 1076 then 0 else seven_nine j;
    parent = if a == 1076 then 0 else 1076;
    children = λ byte. if a == 1076 then (if byte == 7 then 1032 else 0) else 0;
  };
}

pool_tree-Single : Single pool_tree 0 seven_nine 1032
unfolding keycmp_from
pool_tree-Single = record {
  size = refl;
  child = refl;
  not_null = omega arith;
  below_root = λ e. absurd (omega arith);
  has_key = refl;
  leaf = refl;
  other_root = refl;
}

tree_add-AddsTwice_example :
    AddsTwice slab_allocator second_mallocs seven_nine 1032 pool_tree
      (tree_add slab_allocator second_mallocs seven_nine 90 pool_tree)
tree_add-AddsTwice_example =
    tree_add-AddsTwice slab_allocator pool_tree seven_nine pool_tree-Single second_mallocs 90
      (omega arith) second_out.keeps_valid two_out-grows second-Live first-Live

-- A tree with nothing but its root, at 1076.
abbrev root_tree : Tree Pool
root_tree = record {
  pool = two_out;
  nelts = 0;
  root = 1076;
  key_size = 2;
  nodes = λ a. record {
    depth = 0;
    nelts = 0;
    pointer = 0;
    key = λ j. 0;
    parent = 0;
    children = λ byte. 0;
  };
}

root_tree-IsTree : IsTree slab_allocator root_tree
root_tree-IsTree =
    root-IsTree slab_allocator root_tree (λ byte. refl) (λ e. absurd (omega arith))
      second_out.keeps_valid first-Live

tree_add-Adds_example :
    Adds slab_allocator second_mallocs seven_nine 90 root_tree
      (tree_add slab_allocator second_mallocs seven_nine 90 root_tree)
tree_add-Adds_example =
    tree_add-Adds slab_allocator root_tree seven_nine 90 second_mallocs root_tree-IsTree
      (omega arith) two_out-grows

-- The paths of the tree with the node at 1032.
pool_walk :
    (key : ℕ → ℕ) (k : ℕ)
    → (walk pool_tree.nodes 1076 key (suc k) ≡ 0)
      ⊎ ((k ≡ 0) × (key 0 ≡ 7) × (walk pool_tree.nodes 1076 key (suc k) ≡ 1032))
unfolding walk
pool_walk key zero = elim (Bool-cases (key 0 == 7)) [
  | inl e ↦ inr (refl, ground (arith, e), ground (arith, e))
  | inr e ↦ inl (ground (arith, e))
]
pool_walk key (suc k) = elim (pool_walk key k) [
  | inl gone ↦ inl (rw gone refl)
  | inr (_, _, there) ↦ inl (rw there refl)
]

pool_live :
    (key : ℕ → ℕ) (k : ℕ)
    → k ≤ 2
    → walk pool_tree.nodes 1076 key k ≢ 0
    → Live two_out (walk pool_tree.nodes 1076 key k)
unfolding walk
pool_live key zero le ne = first-Live
pool_live key (suc k) le ne = elim (pool_walk key k) [
  | inl gone ↦ absurd (ne gone)
  | inr (_, _, there) ↦ rw there second-Live
]

pool_tree-IsTree : IsTree slab_allocator pool_tree
pool_tree-IsTree = record {
  radix = record {
    not_null = λ e. absurd (omega arith);
    prefix = λ key k less ne j le.
        let one : k + 1 ≡ suc k = omega arith in
        elim (pool_walk key k) [
          | inl gone ↦ absurd (ne (rw one gone))
          | inr (first, seven, there) ↦
              let start : j ≡ 0 = omega arith in rw (one, there, start, seven) refl
        ];
  };
  levels = record {
    root_some = λ e. absurd (omega arith);
    depth = λ key k less ne. elim (pool_walk key k) [
      | inl gone ↦ absurd (ne gone)
      | inr (first, _, _) ↦ sym first
    ];
    rooted = λ key k less e. elim (pool_walk key k) [
      | inl gone ↦ absurd (omega arith)
      | inr (_, _, there) ↦ absurd (omega arith)
    ];
  };
  valid = second_out.keeps_valid;
  live = pool_live;
}

pool_tree-IsEnd : IsEnd pool_tree.nodes 1076 2 1032
pool_tree-IsEnd = record {
  some = λ e. absurd (omega arith);
  not_root = λ e. absurd (omega arith);
  inside = omega arith;
  bare = λ b. refl;
  parent = λ key k less there. elim (pool_walk key k) [
    | inl gone ↦ absurd (omega arith)
    | inr (first, _, _) ↦ rw first (unfold walk in refl)
  ];
  has_parent = λ e. absurd (omega arith);
  linked = refl;
}

tree_remove-Removes_example :
    (t' : Tree Pool) × (tree_remove slab_allocator 1 1032 pool_tree ≡ some t')
    × Removes slab_allocator 1032 pool_tree t'
tree_remove-Removes_example =
    tree_remove-Removes slab_allocator pool_tree 0 1032 pool_tree-IsTree pool_tree-IsEnd refl
      second-Live

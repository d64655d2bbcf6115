-- ===== src/Radix/Twice.antt =====
-- An insertion compares the key with a node it has come from, and not with the one it goes to, so
-- that a key can be added twice.
use alter.Common.{
  ℕ, suc, ◌+◌, ◌-◌, ◌%◌, ◌^◌, ◌≤◌, ◌<◌, ltb, true, false, Option, none, some, ◌==◌, ◌≡◌, ◌≢◌, arith,
  refl, ap, ◌∙◌,
}
use alter.Allocator.{Allocator, Allocates, hands_out, no_memory}
use alter.Radix.Defs.{
  Node, Tree, keycmp_from, get_from, tree_get, tree_add, slot_from, hang_leaf, add_leaf, add_at,
}

-- The only node that the key's path leads through is `e`, a child of the root that has the key, and
-- the bytes in the root are others than the key's.
pub record Single {S : Type 0} (t : Tree S) (m : ℕ) (key : ℕ → ℕ) (e : ℕ) : Type 0 where
  pub size : t.key_size ≡ suc (suc m)
  pub child : (t.nodes t.root).children (key 0) ≡ e
  pub not_null : 0 < e
  pub below_root : e ≢ t.root
  pub has_key : keycmp_from (t.nodes e).key key (suc m) 1 ≡ true
  pub leaf : (t.nodes e).children (key 1) ≡ 0
  pub other_root : keycmp_from (t.nodes t.root).key key (suc m) 1 ≡ false

-- How an insertion of a key ends that the node `e` has already: with a second node for the key, which
-- lookups of the key do not find; or there is no memory, and NULL is written through.
pub data AddsTwice (al : Allocator) (r : al.Request) (key : ℕ → ℕ) (e : ℕ) (t : Tree al.State)
    : Option (ℕ × Tree al.State) → Type 0 where
  added_twice :
      {n : ℕ} {t' : Tree al.State}
      → n ≢ e
      → ((j : ℕ) → j < t.key_size → (t'.nodes n).key j ≡ key j)
      → t'.nelts ≡ (t.nelts + 1) % 2 ^ 32
      → tree_get key t' ≡ e
      → (t'.nodes e).pointer ≡ (t.nodes e).pointer
      → AddsTwice al r key e t (some (n, t'))
  null_written :
      {s' : al.State} → al.palloc r t.pool ≡ some (none, s') → AddsTwice al r key e t none

module _ (al : Allocator) (t : Tree al.State) {m : ℕ} (key : ℕ → ℕ) {e : ℕ}
    (g : Single t m key e) where
  slot : slot_from t.nodes t.key_size key t.key_size 0 t.root ≡ some (e, 1)
  unfolding slot_from
  slot =
      let on : (e == 0) ≡ false = ground (arith, g.not_null) in
      let rounds : suc (suc m) - 1 ≡ suc m = omega arith in
      rw g.size (simp (g.child, on, rounds, g.other_root, g.leaf))

  same_hit :
      (nodes : ℕ → Node)
      → (nodes e).key ≡ (t.nodes e).key
      → keycmp_from (nodes e).key key (suc m) 1 ≡ true
  same_hit nodes same = ap (λ k. keycmp_from k key (suc m) 1) same ∙ g.has_key

  -- What a lookup reads.
  finds_old :
      (nodes : ℕ → Node)
      → (nodes t.root).children (key 0) ≡ e
      → (nodes e).key ≡ (t.nodes e).key
      → get_from nodes t.key_size key t.key_size 0 t.root ≡ e
  unfolding get_from
  finds_old nodes child same =
      let on : (e == 0) ≡ false = ground (arith, g.not_null) in
      let rounds : suc (suc m) - 1 ≡ suc m = omega arith in
      let hit : keycmp_from (nodes e).key key (suc m) (0 + 1) ≡ true = same_hit nodes same in
      rw g.size (simp (child, on, rounds, hit))

  module _ (r : al.Request) (pointer n : ℕ) (pool : al.State) (ne : n ≢ e) (ne' : n ≢ t.root) where
    abbrev longer : Tree al.State
    longer = hang_leaf key pointer n e 1 (record t { pool = pool })

    longer-AddsTwice : AddsTwice al r key e t (some (n, longer))
    unfolding hang_leaf tree_get
    longer-AddsTwice =
        added_twice ne (λ j h. ground arith) refl
          (finds_old longer.nodes (ground (arith, g.child, g.below_root)) (ground arith))
          (ground arith)

  at_slot :
      (r : al.Request) (pointer : ℕ)
      → tree_add al r key pointer t ≡ add_at al r key pointer t (some (e, 1))
  at_slot r pointer = unfold tree_add in ap (add_at al r key pointer t) slot

  add-eq :
      (r : al.Request) (pointer : ℕ) {m : Option (Option ℕ × al.State)}
      → t.key_size ≤ 32
      → al.palloc r t.pool ≡ m
      → Allocates al.IsValid al.Live t.pool m
      → al.Live t.pool e
      → al.Live t.pool t.root
      → AddsTwice al r key e t (add_at al r key pointer t (some (e, 1)))
  unfolding add_at add_leaf
  add-eq r pointer short run (hands_out {p = n} {s' = pool} ok pos fresh more) live live' =
      let fits : ltb 32 t.key_size ≡ false = ground (arith, short) in
      rw (run, fits)
        (longer-AddsTwice r pointer n pool (λ is. fresh (rw is live)) (λ is. fresh (rw is live')))
  add-eq r pointer short run no_memory live live' = rw run (null_written run)

  -- In an allocator that is ready, when keys have 32 bytes at most and a child of the root
  -- without a further node on the path has a key of two bytes or more, and the bytes in the root
  -- differ from it behind the first, frl_radix_tree_add_lock_with adds the key a second time:
  -- the tree counts a new node with the key, but a lookup of the key still finds the old one,
  -- with its old pointer; or there is no memory, and NULL is written through.
  pub tree_add-AddsTwice :
      (r : al.Request) (pointer : ℕ)
      → t.key_size ≤ 32
      → al.IsValid t.pool
      → al.IsReady t.pool r
      → al.Live t.pool e
      → al.Live t.pool t.root
      → AddsTwice al r key e t (tree_add al r key pointer t)
  tree_add-AddsTwice r pointer short ok ready live live' =
      rw (at_slot r pointer)
        (add-eq r pointer short refl (al.palloc-Allocates t.pool r ok ready) live live')

-- ===== src/Radix/Adds.antt =====
-- How frl_radix_tree_add_lock_with of src/lib/frl_radix_tree.c ends in a well-formed tree.
use alter.Common.{
  ℕ, ◌+◌, ◌%◌, ◌^◌, ◌≤◌, ◌<◌, true, false, ltb, Option, none, some, ◌==◌, ◌≡◌, ◌≢◌, ◌⊎◌, ◌↔◌, inl,
  inr, arith, refl, sym, ap, ◌∙◌, Bool-cases,
}
use alter.Allocator.{Allocator, Allocates, hands_out, no_memory}
use alter.Radix.Defs.{Node, Tree, hang_leaf, add_leaf, add_at, tree_add, tree_get}
use alter.Radix.Lookup.{walk, Gets, tree_get-Gets}
use alter.Radix.Walk.{Spot, GivesUp, Spotted, refused, spotted, slot_from-Spotted, Hung}
use alter.Radix.Insertion.{IsTree, Hangs, leaf-Hangs, Gets-none, Gets-unique}

-- What an insertion leaves: the new leaf has the key and the pointer, a lookup of the key finds it when it
-- found nothing before, lookups of other keys find what they found, and all other pointers stay.
pub record Inserts (al : Allocator) (key : ℕ → ℕ) (pointer leaf : ℕ) (t t' : Tree al.State)
    : Type 0 where
  pub fresh : ¬ al.Live t.pool leaf
  pub finds : tree_get key t ≡ 0 → tree_get key t' ≡ leaf
  pub others :
      (key2 : ℕ → ℕ) (j : ℕ) → j < t.key_size → key2 j ≢ key j → tree_get key2 t' ≡ tree_get key2 t
  pub has_key : (j : ℕ) → j < t.key_size → (t'.nodes leaf).key j ≡ key j
  pub has_pointer : (t'.nodes leaf).pointer ≡ pointer
  pub pointers : (e : ℕ) → e ≢ leaf → (t'.nodes e).pointer ≡ (t.nodes e).pointer
  pub counts : t'.nelts ≡ (t.nelts + 1) % 2 ^ 32
  pub keeps : IsTree al t'

-- How an insertion ends: with an insertion; or with NULL and the tree as it was, when a node on the path is
-- taken to have the key; or there is no memory, and NULL is written through.
pub data Adds (al : Allocator) (r : al.Request) (key : ℕ → ℕ) (pointer : ℕ) (t : Tree al.State)
    : Option (ℕ × Tree al.State) → Type 0 where
  inserts :
      {leaf : ℕ} {t' : Tree al.State}
      → Inserts al key pointer leaf t t'
      → Adds al r key pointer t (some (leaf, t'))
  finds_key : GivesUp t.nodes t.root t.key_size key → Adds al r key pointer t (some (0, t))
  null_written :
      {s' : al.State} → al.palloc r t.pool ≡ some (none, s') → Adds al r key pointer t none

-- What the other nodes keep.
hang_leaf-keeps :
    {S : Type 0} (t : Tree S) (key : ℕ → ℕ) (pointer leaf elts i : ℕ) {A : Type 0} (f : Node → A)
    → ((n : Node) (cs : ℕ → ℕ) (m : ℕ) → f (record n { children = cs; nelts = m }) ≡ f n)
    → elts ≢ leaf
    → (e : ℕ) → e ≢ leaf
    → f ((hang_leaf key pointer leaf elts i t).nodes e) ≡ f (t.nodes e)
unfolding hang_leaf
hang_leaf-keeps t key pointer leaf elts i f inv apart e ne =
    let two : (e == leaf) ≡ false = ground (arith, ne) in
    let here : (elts == leaf) ≡ false = ground (arith, apart) in
    elim (Bool-cases (e == elts)) [
      | inl same ↦
          let at_elts : e ≡ elts = ground (arith, same) in
          rw (same, here) (inv _ _ _ ∙ ap (λ x. f (t.nodes x)) (sym at_elts))
      | inr other ↦ rw (other, two) refl
    ]

hang_leaf-Hung :
    {S : Type 0} (t : Tree S) (key : ℕ → ℕ) (pointer leaf elts i : ℕ)
    → elts ≢ leaf
    → Hung t.nodes (hang_leaf key pointer leaf elts i t).nodes key elts i leaf
unfolding hang_leaf
hang_leaf-Hung t key pointer leaf elts i apart =
    let here : (elts == leaf) ≡ false = ground (arith, apart) in
    let there : (leaf == elts) ≡ false = ground (arith, apart) in
    let self : (elts == elts) ≡ true = ground arith in
    let self' : (leaf == leaf) ≡ true = ground arith in
    record {
      apart = apart;
      child = rw (self, here) refl;
      bare = λ b. rw (there, self') refl;
      others = λ e ne ne'.
          let one : (e == elts) ≡ false = ground (arith, ne) in
          let two : (e == leaf) ≡ false = ground (arith, ne') in rw (one, two) refl;
      keys = hang_leaf-keeps t key pointer leaf elts i (λ n. n.key) (λ _ _ _. refl) apart;
      depths = hang_leaf-keeps t key pointer leaf elts i (λ n. n.depth) (λ _ _ _. refl) apart;
    }

-- The new leaf.
record IsLeaf {S : Type 0} (t t' : Tree S) (key : ℕ → ℕ) (pointer leaf i : ℕ) : Type 0 where
  key_there : (j : ℕ) → j < t.key_size → (t'.nodes leaf).key j ≡ key j
  depth_there : (t'.nodes leaf).depth ≡ i
  pointer_there : (t'.nodes leaf).pointer ≡ pointer

hang_leaf-IsLeaf :
    {S : Type 0} (t : Tree S) (key : ℕ → ℕ) (pointer leaf elts i : ℕ)
    → elts ≢ leaf
    → IsLeaf t (hang_leaf key pointer leaf elts i t) key pointer leaf i
unfolding hang_leaf
hang_leaf-IsLeaf t key pointer leaf elts i apart =
    let there : (leaf == elts) ≡ false = ground (arith, apart) in
    let self' : (leaf == leaf) ≡ true = ground arith in
    record {
      key_there = λ j less. rw (there, self') (ground (arith, less));
      depth_there = rw (there, self') refl;
      pointer_there = rw (there, self') refl;
    }

module _ (al : Allocator) (t : Tree al.State) (key : ℕ → ℕ) (pointer : ℕ) (w : IsTree al t) where
  -- An insertion with the item that the pool has handed out.
  hang_leaf-Inserts :
      {elts i : ℕ} (leaf : ℕ) (pool' : al.State)
      → Spot t.nodes t.root t.key_size key elts i
      → al.IsValid pool'
      → 0 < leaf
      → ¬ al.Live t.pool leaf
      → ((q : ℕ) → al.Live pool' q ↔ ((q ≡ leaf) ⊎ al.Live t.pool q))
      → Inserts al key pointer leaf t
          (hang_leaf key pointer leaf elts i (record t { pool = pool' }))
  unfolding hang_leaf
  hang_leaf-Inserts {elts} {i} leaf pool' spot valid positive not_live live =
      let t1 : Tree al.State = record t { pool = pool' } in
      let fresh : (key2 : ℕ → ℕ) (k : ℕ) → k ≤ t.key_size → walk t.nodes t.root key2 k ≢ leaf =
        λ key2 k le e. elim (Bool-cases (walk t.nodes t.root key2 k == 0)) [
          | inl z ↦ absurd (ground (arith, z, e, positive))
          | inr nz ↦ not_live (rw e at (w.live key2 k le (ground (arith, nz))))
        ] in
      let inside = spot.inside in
      let apart : elts ≢ leaf = λ e. fresh key i (omega arith) (spot.leads ∙ e) in
      let hung = hang_leaf-Hung t1 key pointer leaf elts i apart in
      let is_leaf = hang_leaf-IsLeaf t1 key pointer leaf elts i apart in
      let nodes' = (hang_leaf key pointer leaf elts i t1).nodes in
      let h : Hangs t.nodes nodes' t.root t.key_size key leaf =
        leaf-Hangs t.nodes nodes' t.root t.key_size key elts i leaf w.radix w.levels spot hung fresh
          positive is_leaf.key_there is_leaf.depth_there in
      let now : (key2 : ℕ → ℕ)
          → Gets nodes' t.root t.key_size key2
              (tree_get key2 (hang_leaf key pointer leaf elts i t1)) =
        λ key2. tree_get-Gets (hang_leaf key pointer leaf elts i t1) key2 h.radix in
      record {
        fresh = not_live;
        finds =
            λ none_found. h.finds _ (Gets-none (tree_get-Gets t key w.radix) none_found) (now key);
        others = λ key2 j less differs.
            Gets-unique (now key2) (h.others key2 j _ less differs (tree_get-Gets t key2 w.radix));
        has_key = is_leaf.key_there;
        has_pointer = is_leaf.pointer_there;
        pointers =
            hang_leaf-keeps t1 key pointer leaf elts i (λ n. n.pointer) (λ _ _ _. refl) apart;
        counts = refl;
        keeps = record {
          radix = h.radix;
          levels = h.levels;
          valid = valid;
          live =
              h.all (al.Live pool') ((live leaf).1 (inl refl))
                λ key2 k le ne. (live (walk t.nodes t.root key2 k)).1 (inr (w.live key2 k le ne));
        };
      }

  add_at-Adds :
      {o : Option (ℕ × ℕ)} (r : al.Request)
      → t.key_size ≤ 32
      → al.IsReady t.pool r
      → Spotted t.nodes t.root t.key_size key o
      → Adds al r key pointer t (add_at al r key pointer t o)
  unfolding add_at add_leaf
  add_at-Adds r short ready (refused up) = finds_key up
  add_at-Adds r short ready (spotted spot) =
      from_pool spot refl (al.palloc-Allocates t.pool r w.valid ready)
    where
      from_pool :
          {elts i : ℕ} {run : Option (Option ℕ × al.State)}
          → Spot t.nodes t.root t.key_size key elts i
          → al.palloc r t.pool ≡ run
          → Allocates al.IsValid al.Live t.pool run
          → Adds al r key pointer t (add_at al r key pointer t (some (elts, i)))
      from_pool spot is (hands_out {p} {s' = pool'} valid positive not_live live) =
          let fits : ltb 32 t.key_size ≡ false = ground (arith, short) in
          rw (is, fits) (inserts (hang_leaf-Inserts p pool' spot valid positive not_live live))
      from_pool spot is no_memory = rw is (null_written is)

-- In a tree whose nodes lie on the paths of their keys, at their depths, and are handed out,
-- with keys of 32 bytes at most and in an allocator that is ready, frl_radix_tree_add_lock_with
-- adds a new leaf with the key and the pointer, which a lookup of the key finds when it found
-- none before, while lookups of all other keys and the pointers of all other nodes are as they
-- were, and the tree is such a tree again; or it returns NULL and changes nothing, when on the
-- path of the key a node that has a child for the next byte has the bytes of the key behind
-- that, or when the path leads through nodes to its end; or frl_slab_palloc gives NULL, which is
-- written through.
pub tree_add-Adds :
    (al : Allocator) (t : Tree al.State) (key : ℕ → ℕ) (pointer : ℕ) (r : al.Request)
    → IsTree al t
    → t.key_size ≤ 32
    → al.IsReady t.pool r
    → Adds al r key pointer t (tree_add al r key pointer t)
unfolding tree_add
tree_add-Adds al t key pointer r w short ready = add_at-Adds al t key pointer w r short ready (
    slot_from-Spotted t.nodes t.root t.key_size key t.key_size 0 t.root (unfold walk in refl)
      w.levels.root_some (omega arith))

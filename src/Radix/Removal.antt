-- ===== src/Radix/Removal.antt =====
-- How frl_radix_tree_remove_lock_with of src/lib/frl_radix_tree.c ends for a node without children.
use alter.Common.{
  ℕ, suc, ◌<◌, true, false, Option, none, some, ◌>>=◌, ◌==◌, if◌then◌else◌, ◌≡◌, ◌≢◌, ◌↔◌, arith,
  refl, ◌∙◌,
}
use alter.Allocator.{Allocator, Frees, freed}
use alter.Radix.Defs.{Node, Tree, tree_get}
use alter.Radix.Lookup.{walk, Gets, tree_get-Gets}
use alter.Radix.Insertion.{IsTree, Gets-unique}
use alter.Radix.Remove.{descend, cut_leaf, tree_remove}
use alter.Radix.Cut.{
  IsEnd, cut-IsRadix, cut-IsLevelled, cut-pointer, remained, other-Gets, leaf-Gets,
}

-- What the removal of `leaf` leaves: it is not handed out any more, a lookup that found it finds nothing,
-- lookups of keys that differ from its key find what they found, and all pointers stay.
pub record Removes (al : Allocator) (leaf : ℕ) (t t' : Tree al.State) : Type 0 where
  pub gone : (q : ℕ) → al.Live t'.pool q ↔ (al.Live t.pool q × (q ≢ leaf))
  pub finds_none : (key : ℕ → ℕ) → tree_get key t ≡ leaf → tree_get key t' ≡ 0
  pub others :
      (key : ℕ → ℕ) (j : ℕ)
      → j < t.key_size
      → key j ≢ (t.nodes leaf).key j
      → tree_get key t' ≡ tree_get key t
  pub pointers : (e : ℕ) → (t'.nodes e).pointer ≡ (t.nodes e).pointer
  pub keeps : IsTree al t'

module _ (al : Allocator) (t : Tree al.State) (leaf : ℕ) (w : IsTree al t)
    (end : IsEnd t.nodes t.root t.key_size leaf) where
  cut_leaf-Removes :
      (pool' : al.State)
      → al.IsValid pool'
      → ((q : ℕ) → al.Live pool' q ↔ (al.Live t.pool q × (q ≢ leaf)))
      → Removes al leaf t (record t { pool = pool'; nodes = cut_leaf leaf t.nodes })
  cut_leaf-Removes pool' valid live =
      let radix' = cut-IsRadix t.nodes t.root t.key_size leaf w.radix w.levels end in
      let now : (key : ℕ → ℕ)
          → Gets (cut_leaf leaf t.nodes) t.root t.key_size key
              (tree_get key (record t { pool = pool'; nodes = cut_leaf leaf t.nodes })) =
        λ key.
          tree_get-Gets (record t { pool = pool'; nodes = cut_leaf leaf t.nodes }) key radix' in
      record {
        gone = live;
        finds_none = λ key at_leaf.
            leaf-Gets t.nodes t.root t.key_size leaf w.radix w.levels end key at_leaf
              (tree_get-Gets t key w.radix) (now key);
        others = λ key j less differs. Gets-unique (now key) (
            other-Gets t.nodes t.root t.key_size leaf w.radix w.levels end key j less differs
              (tree_get-Gets t key w.radix));
        pointers = cut-pointer t.nodes t.root t.key_size leaf w.radix w.levels end;
        keeps = record {
          radix = radix';
          levels = cut-IsLevelled t.nodes t.root t.key_size leaf w.radix w.levels end;
          valid = valid;
          live = λ key k le ne.
              let (same, other) =
                remained t.nodes t.root t.key_size leaf w.radix w.levels end key k le ne in
              rw same (
                (live (walk t.nodes t.root key k)).1 (w.live key k le (λ z. ne (same ∙ z)), other));
        };
      }

-- How frl_slab_pfree of the leaf ends.
Frees-Removes :
    (al : Allocator) (t : Tree al.State) (leaf : ℕ) {run : Option al.State}
    → IsTree al t
    → IsEnd t.nodes t.root t.key_size leaf
    → Frees al.IsValid al.Live t.pool leaf run
    → (t' : Tree al.State) × ((run >>= λ pool'.
          some (record t { pool = pool'; nodes = cut_leaf leaf t.nodes }))
        ≡ some t')
      × Removes al leaf t t'
Frees-Removes al t leaf w end (freed {s'} valid live) =
    (_, refl, cut_leaf-Removes al t leaf w end s' valid live)

-- A node without children is its own leaf.
own_leaf :
    (leaf nelts : ℕ) (rest : Option ℕ)
    → leaf ≢ 0
    → nelts ≡ 0
    → (if leaf == 0 then none else if nelts == 0 then some leaf else rest) ≡ some leaf
own_leaf leaf nelts rest ne childless = ground (arith, ne, childless)

descend-leaf :
    (nodes : ℕ → Node) (fuel leaf : ℕ)
    → leaf ≢ 0
    → (nodes leaf).nelts ≡ 0
    → descend nodes (suc fuel) leaf ≡ some leaf
unfolding descend
descend-leaf nodes fuel leaf ne childless = own_leaf leaf ((nodes leaf).nelts) _ ne childless

-- In a tree whose nodes lie on the paths of their keys, at their depths, and are handed out, for
-- a node at the end of a path, below its parent, that is handed out and counts no children, and
-- with fuel for a round or more, frl_radix_tree_remove_lock_with returns: the node is not handed
-- out any more, a lookup that found it finds nothing, lookups of keys that differ from its key
-- find what they found, all pointers stay, and the tree is such a tree again.
pub tree_remove-Removes :
    (al : Allocator) (t : Tree al.State) (fuel leaf : ℕ)
    → IsTree al t
    → IsEnd t.nodes t.root t.key_size leaf
    → (t.nodes leaf).nelts ≡ 0
    → al.Live t.pool leaf
    → (t' : Tree al.State) × (tree_remove al (suc fuel) leaf t ≡ some t') × Removes al leaf t t'
unfolding tree_remove
tree_remove-Removes al t fuel leaf w end childless live =
    let self : (leaf == leaf) ≡ true = ground arith in
    let parent : ((t.nodes leaf).parent == 0) ≡ false =
      let ne = end.has_parent in ground (arith, ne) in
    rw (descend-leaf t.nodes fuel leaf end.some childless, self, parent)
      (Frees-Removes al t leaf w end (al.pfree-Frees t.pool leaf w.valid live))

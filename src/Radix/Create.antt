-- ===== src/Radix/Create.antt =====
-- The part of frl_radix_tree_create of src/lib/frl_radix_tree.c behind its calls of `malloc` and
-- frl_slab_pool_create.
use alter.Common.{
  ℕ, zero, suc, ◌+◌, Option, none, some, ◌≡◌, ◌≢◌, ◌>>=◌, update, arith, refl, inl, sym, ◌∙◌,
}
use alter.Allocator.{Allocator, Allocates, hands_out, no_memory}
use alter.Radix.Defs.{Node, Tree}
use alter.Radix.Lookup.{IsRadix, walk}
use alter.Radix.Walk.{IsLevelled}
use alter.Radix.Insertion.{IsTree}

-- The result of frl_slab_palloc is not looked at, and NULL would be written through.
unfoldable pub tree_create :
    (al : Allocator) → al.Request → (key_size : ℕ) → al.State → (ℕ → Node) → Option (Tree al.State)
tree_create al r key_size pool nodes = al.palloc r pool >>= λ (p, pool'). p >>= λ root.
    some (record {
      pool = pool';
      nelts = 0;
      root = root;
      key_size = key_size;
      nodes = update nodes root (record {
        depth = 0;
        nelts = 0;
        pointer = 0;
        key = (nodes root).key;
        parent = 0;
        children = λ byte. 0;
      });
    })

-- How a creation ends: with a well-formed tree that no key leads into, or with a write through NULL.
pub data CreatesTree (al : Allocator) (key_size : ℕ) : Option (Tree al.State) → Type 0 where
  created :
      {t : Tree al.State}
      → IsTree al t
      → t.key_size ≡ key_size
      → ((key : ℕ → ℕ) → walk t.nodes t.root key 1 ≡ 0)
      → CreatesTree al key_size (some t)
  null_written : CreatesTree al key_size none

module _ (nodes : ℕ → Node) (root : ℕ)
    (none_below : (byte : ℕ) → (nodes root).children byte ≡ 0) where
  walk-root : (key : ℕ → ℕ) (i : ℕ) → walk nodes root key (i + 1) ≡ 0
  unfolding walk
  walk-root key zero = ground (arith, none_below (key 0))
  walk-root key (suc i) =
      let e : suc i + 1 ≡ suc (i + 1) = omega arith in rw e (ground (arith, walk-root key i))

  root-IsRadix : (size : ℕ) → root ≢ 0 → IsRadix nodes root size
  root-IsRadix size ne = record {
    not_null = ne;
    prefix = λ key i h there j le. absurd (there (walk-root key i));
  }

  root-IsLevelled : (size : ℕ) → root ≢ 0 → IsLevelled nodes root size
  root-IsLevelled size ne =
      let below : (key : ℕ → ℕ) (k : ℕ) → walk nodes root key (suc k) ≡ 0 =
        λ key k. let one : k + 1 ≡ suc k = omega arith in rw one at (walk-root key k) in
      record {
        root_some = ne;
        depth = λ key k less there. absurd (there (below key k));
        rooted = λ key k less z. ne (sym z ∙ below key k);
      }

only_root :
    (P : ℕ → Type 0) (nodes : ℕ → Node) (root : ℕ)
    → ((byte : ℕ) → (nodes root).children byte ≡ 0)
    → P root
    → (key : ℕ → ℕ) (k : ℕ) → walk nodes root key k ≢ 0
    → P (walk nodes root key k)
only_root P nodes root bare here key zero ne = unfold walk in here
only_root P nodes root bare here key (suc k) ne =
    let one : k + 1 ≡ suc k = omega arith in
    absurd (ne (rw one at (walk-root nodes root bare key k)))

-- A tree with nothing but its root.
pub root-IsTree :
    (al : Allocator) (t : Tree al.State)
    → ((byte : ℕ) → (t.nodes t.root).children byte ≡ 0)
    → t.root ≢ 0
    → al.IsValid t.pool
    → al.Live t.pool t.root
    → IsTree al t
root-IsTree al t bare ne valid live =
    let levels = root-IsLevelled t.nodes t.root bare t.key_size ne in
    record {
      radix = root-IsRadix t.nodes t.root bare t.key_size ne;
      levels = levels;
      valid = valid;
      live = λ key k le ne'. only_root (al.Live t.pool) t.nodes t.root bare live key k ne';
    }

module _ (al : Allocator) (r : al.Request) (key_size : ℕ) (pool : al.State) (nodes : ℕ → Node) where
  create-eq :
      {m : Option (Option ℕ × al.State)}
      → al.palloc r pool ≡ m
      → Allocates al.IsValid al.Live pool m
      → CreatesTree al key_size (tree_create al r key_size pool nodes)
  unfolding tree_create
  create-eq run (hands_out {p} {s' = pool'} ok pos fresh more) = rw run (
      created (root-IsTree al _ (λ byte. ground arith) (ground arith) ok ((more p).1 (inl refl)))
        refl (λ key. walk-root _ p (λ byte. ground arith) key 0))
  create-eq run no_memory = rw run null_written

  -- frl_radix_tree_create in an allocator that is ready gives a well-formed tree with the key
  -- size asked for, whose root is handed out and which no key leads into; or it writes through
  -- NULL when there is no memory.
  pub tree_create-CreatesTree :
      al.IsValid pool
      → al.IsReady pool r
      → CreatesTree al key_size (tree_create al r key_size pool nodes)
  tree_create-CreatesTree ok ready = create-eq refl (al.palloc-Allocates pool r ok ready)

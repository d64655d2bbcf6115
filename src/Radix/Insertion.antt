-- ===== src/Radix/Insertion.antt =====
-- frl_radix_tree_add_lock_with of src/lib/frl_radix_tree.c keeps the tree well formed, and a lookup
-- behind it finds what was added.
use alter.Common.{
  ℕ, zero, suc, ◌+◌, ◌-◌, ◌≤◌, ◌<◌, ◌==◌, ◌≡◌, ◌≢◌, ◌⊎◌, ◌↔◌, inl, inr, arith, refl, sym, ap, ◌∙◌,
  Bool-cases,
}
use alter.Allocator.{Allocator}
use alter.Radix.Defs.{Node, Tree}
use alter.Radix.Lookup.{walk, HasKey, IsRadix, Gets, found, missing}
use alter.Radix.Walk.{IsLevelled, Spot, Hung, Joins, Reach, old, new, off, reach}

-- A well-formed tree: every node lies on the path of its own key, at its depth, and is handed out.
pub record IsTree (al : Allocator) (t : Tree al.State) : Type 0 where
  pub radix : IsRadix t.nodes t.root t.key_size
  pub levels : IsLevelled t.nodes t.root t.key_size
  pub valid : al.IsValid t.pool
  pub live :
      (key : ℕ → ℕ) (k : ℕ)
      → k ≤ t.key_size
      → walk t.nodes t.root key k ≢ 0
      → al.Live t.pool (walk t.nodes t.root key k)

-- What the new leaf changes: the tree is well formed, and lookups of other keys are as they were.
pub record Hangs (nodes nodes' : ℕ → Node) (root size : ℕ) (key : ℕ → ℕ) (leaf : ℕ) : Type 1 where
  pub radix : IsRadix nodes' root size
  pub levels : IsLevelled nodes' root size
  pub others :
      (key2 : ℕ → ℕ) (j e : ℕ)
      → j < size
      → key2 j ≢ key j
      → Gets nodes root size key2 e
      → Gets nodes' root size key2 e
  pub finds :
      (e : ℕ)
      → ((k : ℕ) → k < size → ¬ HasKey nodes size key (walk nodes root key (k + 1)))
      → Gets nodes' root size key e
      → e ≡ leaf
  pub all :
      (P : ℕ → Type 0)
      → P leaf
      → ((key2 : ℕ → ℕ) (k : ℕ)
          → k ≤ size
          → walk nodes root key2 k ≢ 0
          → P (walk nodes root key2 k))
      → (key2 : ℕ → ℕ) (k : ℕ) → k ≤ size
      → walk nodes' root key2 k ≢ 0
      → P (walk nodes' root key2 k)

module _ (nodes nodes' : ℕ → Node) (root size : ℕ) (key : ℕ → ℕ) (elts i leaf : ℕ)
    (radix : IsRadix nodes root size) (levels : IsLevelled nodes root size)
    (spot : Spot nodes root size key elts i) (hung : Hung nodes nodes' key elts i leaf)
    (fresh : (key2 : ℕ → ℕ) (k : ℕ) → k ≤ size → walk nodes root key2 k ≢ leaf)
    (positive : 0 < leaf) (leaf_key : (j : ℕ) → j < size → (nodes' leaf).key j ≡ key j)
    (leaf_depth : (nodes' leaf).depth ≡ i) where
  abbrev JoinsHere : (ℕ → ℕ) → Type 0
  JoinsHere = Joins nodes nodes' root size key elts i leaf levels spot hung fresh

  reaches :
      (key2 : ℕ → ℕ) (k : ℕ)
      → k < size
      → Reach nodes nodes' root size key elts i leaf levels spot hung fresh key2 k
  reaches = reach nodes nodes' root size key elts i leaf levels spot hung fresh

  prefix_of :
      (key2 : ℕ → ℕ) (k j : ℕ)
      → k < size
      → walk nodes root key2 (suc k) ≢ 0
      → j ≤ k
      → (nodes (walk nodes root key2 (suc k))).key j ≡ key2 j
  prefix_of key2 k j less ne le =
      let one : k + 1 ≡ suc k = omega arith in rw one at (radix.prefix key2 k less (rw one ne) j le)

  -- Keys whose paths go through the same place begin alike.
  same_start : (key2 : ℕ → ℕ) (j : ℕ) → JoinsHere key2 → j ≤ i → key2 j ≡ key j
  same_start key2 j (leads, same) le = elim (Bool-cases (j == i)) [
    | inl e ↦ let at_i : j ≡ i = ground (arith, e) in rw at_i same
    | inr e ↦
        let below : j ≤ i - 1 = ground (arith, e, le) in
        let whole : suc (i - 1) ≡ i = ground (arith, e, le) in
        let inside = spot.inside in
        let mine = prefix_of key2 (i - 1) j (omega arith) (rw (whole, leads) spot.node) below in
        let its = prefix_of key (i - 1) j (omega arith) (rw (whole, spot.leads) spot.node) below in
        sym (rw (whole, leads) at mine) ∙ rw (whole, spot.leads) at its
  ]

  hung-IsRadix : IsRadix nodes' root size
  hung-IsRadix = record {
    not_null = radix.not_null;
    prefix = λ key2 k less ne j le.
        let one : k + 1 ≡ suc k = omega arith in
        rw one (elim (reaches key2 k less) [
          | old same _ ↦
              rw (same, hung.keys (walk nodes root key2 (suc k)) (fresh key2 (suc k) (omega arith)))
                (prefix_of key2 k j less (λ z. ne (rw one (same ∙ z))) le)
          | new at_i joins there ↦
              rw (there, leaf_key j (omega arith)) (sym (same_start key2 j joins (omega arith)))
          | off _ _ there ↦ absurd (ne (rw one there))
        ]);
  }

  hung-IsLevelled : IsLevelled nodes' root size
  hung-IsLevelled = record {
    root_some = levels.root_some;
    depth = λ key2 k less ne. elim (reaches key2 k less) [
      | old same _ ↦
          rw (same, hung.depths (walk nodes root key2 (suc k)) (fresh key2 (suc k) (omega arith)))
            (levels.depth key2 k less (λ z. ne (same ∙ z)))
      | new at_i joins there ↦ rw (there, leaf_depth) (sym at_i)
      | off _ _ there ↦ absurd (ne there)
    ];
    rooted = λ key2 k less z. elim (reaches key2 k less) [
      | old same _ ↦ levels.rooted key2 k less (sym same ∙ z)
      | new at_i joins there ↦ fresh key2 zero (omega arith) (unfold walk in (sym z ∙ there))
      | off _ _ there ↦ levels.root_some (sym z ∙ there)
    ];
  }

  -- An old node has a key as it had it.
  had_key : (key2 : ℕ → ℕ) (e : ℕ) → e ≢ leaf → HasKey nodes' size key2 e ↔ HasKey nodes size key2 e
  had_key key2 e other =
      let same = hung.keys e other in
      (
        λ (ne, all). (ne, λ j less. ap (λ f. f j) (sym same) ∙ all j less),
        λ (ne, all). (ne, λ j less. ap (λ f. f j) same ∙ all j less),
      )

  -- Behind a missing child there is nothing.
  nothing_behind : (key2 : ℕ → ℕ) (d : ℕ) → JoinsHere key2 → walk nodes root key2 (suc (d + i)) ≡ 0
  unfolding walk
  nothing_behind key2 zero (leads, same) =
      let here : zero + i ≡ i = omega arith in
      elim (Bool-cases (walk nodes root key2 (zero + i) == 0)) [
        | inl e ↦ rw e refl
        | inr e ↦ rw (e, here, leads, same) spot.free
      ]
  nothing_behind key2 (suc d) joins =
      let more : suc d + i ≡ suc (d + i) = omega arith in
      rw (more, nothing_behind key2 d joins) refl

  -- An old node on the path of a key that has the key is there still.
  stays :
      (key2 : ℕ → ℕ) (k : ℕ)
      → k < size
      → HasKey nodes size key2 (walk nodes root key2 (suc k))
      → (walk nodes' root key2 (suc k) ≡ walk nodes root key2 (suc k))
        × HasKey nodes' size key2 (walk nodes root key2 (suc k))
  stays key2 k less has = elim (reaches key2 k less) [
    | old same _ ↦ (
      same,
      (had_key key2 (walk nodes root key2 (suc k)) (fresh key2 (suc k) (omega arith))).1 has,
    )
    | new at_i joins there ↦
        let at : zero + i ≡ k = omega arith in
        absurd (has.0 (rw at at (nothing_behind key2 zero joins)))
    | off above joins there ↦
        let far : k - i + i ≡ k = omega arith in
        absurd (has.0 (rw far at (nothing_behind key2 (k - i) joins)))
  ]

  -- A node on the path of a key that has the key is an old one, or the new leaf.
  was :
      (key2 : ℕ → ℕ) (k : ℕ)
      → k < size
      → HasKey nodes' size key2 (walk nodes' root key2 (suc k))
      → HasKey nodes size key2 (walk nodes root key2 (suc k))
        ⊎ ((walk nodes' root key2 (suc k) ≡ leaf) × ((j : ℕ) → j < size → key2 j ≡ key j))
  was key2 k less has = elim (reaches key2 k less) [
    | old same _ ↦ inl (
        (had_key key2 (walk nodes root key2 (suc k)) (fresh key2 (suc k) (omega arith))).0
          (rw same at has))
    | new at_i joins there ↦ inr (
      there,
      λ j within. sym (has.1 j within) ∙ ap (λ x. (nodes' x).key j) there ∙ leaf_key j within,
    )
    | off _ _ there ↦ absurd (has.0 there)
  ]

  -- A path that did not lead to another key there, does not now.
  none_still :
      (key2 : ℕ → ℕ) (j k : ℕ)
      → j < size
      → key2 j ≢ key j
      → k < size
      → ¬ HasKey nodes size key2 (walk nodes root key2 (k + 1))
      → ¬ HasKey nodes' size key2 (walk nodes' root key2 (k + 1))
  none_still key2 j k less differs within before has =
      let one : k + 1 ≡ suc k = omega arith in
      elim (was key2 k within (rw one at has)) [
        | inl h ↦ before (rw one h)
        | inr (_, all) ↦ differs (all j less)
      ]

  -- The first node that has another key is the one that was it.
  other-Gets :
      (key2 : ℕ → ℕ) (j : ℕ) {e : ℕ}
      → j < size
      → key2 j ≢ key j
      → Gets nodes root size key2 e
      → Gets nodes' root size key2 e
  other-Gets key2 j less differs (found {e} k below at_e has first) =
      let one : k + 1 ≡ suc k = omega arith in
      let at_k : walk nodes root key2 (suc k) ≡ e = rw one at at_e in
      let (same, still) = stays key2 k below (rw at_k has) in
      found k below (rw one (same ∙ at_k)) (rw at_k at still)
        λ k' less'. none_still key2 j k' less differs (omega arith) (first k' less')
  other-Gets key2 j less differs (missing no_one) =
      missing λ k within. none_still key2 j k less differs within (no_one k within)

  -- When no node had the key, the first node that has it is the new leaf.
  key-Gets :
      {e : ℕ}
      → ((k : ℕ) → k < size → ¬ HasKey nodes size key (walk nodes root key (k + 1)))
      → Gets nodes' root size key e
      → e ≡ leaf
  key-Gets no_one (found {e} k below at_e has first) =
      let one : k + 1 ≡ suc k = omega arith in
      let at_k : walk nodes' root key (suc k) ≡ e = rw one at at_e in
      elim (was key k below (rw at_k has)) [
        | inl h ↦ absurd (no_one k below (rw one h))
        | inr (there, _) ↦ sym at_k ∙ there
      ]
  key-Gets no_one (missing none_now) =
      let one : i + 1 ≡ suc i = omega arith in
      elim (reaches key i spot.inside) [
        | new _ _ there ↦
            absurd (none_now i spot.inside (rw (one, there) (λ z. absurd (omega arith), leaf_key)))
        | old _ why ↦ elim why [
          | inl below ↦ absurd (omega arith)
          | inr apart ↦ absurd (apart (spot.leads, refl))
        ]
        | off above _ _ ↦ absurd (omega arith)
      ]

  -- What holds of all nodes and of the new leaf, holds of all nodes now.
  hung-all :
      (P : ℕ → Type 0)
      → P leaf
      → ((key2 : ℕ → ℕ) (k : ℕ)
          → k ≤ size
          → walk nodes root key2 k ≢ 0
          → P (walk nodes root key2 k))
      → (key2 : ℕ → ℕ) (k : ℕ) → k ≤ size
      → walk nodes' root key2 k ≢ 0
      → P (walk nodes' root key2 k)
  hung-all P here all key2 zero le ne = unfold walk in all key2 zero le ne
  hung-all P here all key2 (suc k) le ne = elim (reaches key2 k (omega arith)) [
    | old same _ ↦ rw same (all key2 (suc k) le (λ z. ne (same ∙ z)))
    | new _ _ there ↦ rw there here
    | off _ _ there ↦ absurd (ne there)
  ]

  pub leaf-Hangs : Hangs nodes nodes' root size key leaf
  leaf-Hangs = record {
    radix = hung-IsRadix;
    levels = hung-IsLevelled;
    others = λ key2 j e. other-Gets key2 j;
    finds = λ e. key-Gets;
    all = hung-all;
  }

-- A lookup that gives NULL has passed no node that has the key.
pub Gets-none :
    {nodes : ℕ → Node} {root size : ℕ} {key : ℕ → ℕ} {e : ℕ}
    → Gets nodes root size key e
    → e ≡ 0
    → (k : ℕ) → k < size
    → ¬ HasKey nodes size key (walk nodes root key (k + 1))
Gets-none (found k below at_e has first) z = absurd (has.0 z)
Gets-none (missing no_one) z = no_one

-- There is one first node that has the key.
pub Gets-unique :
    {nodes : ℕ → Node} {root size : ℕ} {key : ℕ → ℕ} {e e' : ℕ}
    → Gets nodes root size key e
    → Gets nodes root size key e'
    → e ≡ e'
Gets-unique {nodes} {root} {size} {key} (found {e} k below at_e has first)
      (found {e = e'} k' below' at_e' has' first') =
    go (ground arith)
  where
    go : (k ≡ k') ⊎ ((k < k') ⊎ (k' < k)) → e ≡ e'
    go (inl same) = sym at_e ∙ ap (λ x. walk nodes root key (x + 1)) same ∙ at_e'
    go (inr (inl less)) = absurd (first' k less (rw at_e has))
    go (inr (inr more)) = absurd (first k' more (rw at_e' has'))
Gets-unique (found k below at_e has first) (missing no_one) = absurd (no_one k below (rw at_e has))
Gets-unique (missing no_one) (found k below at_e has first) = absurd (no_one k below (rw at_e has))
Gets-unique (missing _) (missing _) = refl

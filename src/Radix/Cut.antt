-- ===== src/Radix/Cut.antt =====
-- The removal of a node without children by frl_radix_tree_remove_lock_with of
-- src/lib/frl_radix_tree.c.
use alter.Common.{
  ℕ, zero, suc, ◌+◌, ◌-◌, ◌≤◌, ◌<◌, true, ◌==◌, if◌then◌else◌, ◌≡◌, ◌≢◌, ◌⊎◌, ◌↔◌, inl, inr, arith,
  refl, sym, ap, ◌∙◌, Bool-cases,
}
use alter.Radix.Defs.{Node}
use alter.Radix.Lookup.{walk, HasKey, IsRadix, Gets, found, missing}
use alter.Radix.Walk.{IsLevelled, end_walk}
use alter.Radix.Remove.{cut_leaf}

-- The node `leaf` stands in the tree, at the end of a path, and knows its parent; and a node without
-- children is counted as one.
pub record IsEnd (nodes : ℕ → Node) (root size leaf : ℕ) : Type 0 where
  pub some : leaf ≢ 0
  pub not_root : root ≢ leaf
  pub inside : (nodes leaf).depth < size
  pub bare : (b : ℕ) → (nodes leaf).children b ≡ 0
  pub parent :
      (key : ℕ → ℕ) (k : ℕ)
      → k < size
      → walk nodes root key (suc k) ≡ leaf
      → (nodes leaf).parent ≡ walk nodes root key k
  pub has_parent : (nodes leaf).parent ≢ 0
  pub linked : (nodes (nodes leaf).parent).children ((nodes leaf).key (nodes leaf).depth) ≡ leaf

module _ (nodes : ℕ → Node) (root size leaf : ℕ) (radix : IsRadix nodes root size)
    (levels : IsLevelled nodes root size) (end : IsEnd nodes root size leaf) where
  abbrev cut : ℕ → Node
  cut = cut_leaf leaf nodes

  abbrev parent : ℕ
  parent = (nodes leaf).parent

  abbrev byte : ℕ
  byte = (nodes leaf).key (nodes leaf).depth

  cut-key : (e : ℕ) → (cut e).key ≡ (nodes e).key
  unfolding cut_leaf
  cut-key e = elim (Bool-cases (e == parent)) [
    | inl s ↦
        let at_parent : e ≡ parent = ground (arith, s) in
        rw s (ap (λ x. (nodes x).key) (sym at_parent))
    | inr s ↦ rw s refl
  ]

  cut-depth : (e : ℕ) → (cut e).depth ≡ (nodes e).depth
  unfolding cut_leaf
  cut-depth e = elim (Bool-cases (e == parent)) [
    | inl s ↦
        let at_parent : e ≡ parent = ground (arith, s) in
        rw s (ap (λ x. (nodes x).depth) (sym at_parent))
    | inr s ↦ rw s refl
  ]

  pub cut-pointer : (e : ℕ) → (cut e).pointer ≡ (nodes e).pointer
  unfolding cut_leaf
  cut-pointer e = elim (Bool-cases (e == parent)) [
    | inl s ↦
        let at_parent : e ≡ parent = ground (arith, s) in
        rw s (ap (λ x. (nodes x).pointer) (sym at_parent))
    | inr s ↦ rw s refl
  ]

  -- The last byte of a path to the leaf is the byte that its parent has it at.
  leaf_byte : (key : ℕ → ℕ) (k : ℕ) → k < size → walk nodes root key (suc k) ≡ leaf → key k ≡ byte
  leaf_byte key k less at_leaf =
      let one : k + 1 ≡ suc k = omega arith in
      let ne : walk nodes root key (suc k) ≢ 0 = λ z. end.some (sym at_leaf ∙ z) in
      let mine = rw (one, at_leaf) at (radix.prefix key k less (rw one ne) k (omega arith)) in
      let deep = levels.depth key k less ne in
      sym mine ∙ ap (nodes leaf).key (sym deep ∙ ap (λ x. (nodes x).depth) at_leaf)

  cut_child :
      (key : ℕ → ℕ) (k : ℕ)
      → k < size
      → walk nodes root key k ≢ 0
      → walk nodes root key (suc k) ≡ (nodes (walk nodes root key k)).children (key k)
      → (cut (walk nodes root key k)).children (key k)
        ≡ (if walk nodes root key (suc k) == leaf then 0 else walk nodes root key (suc k))
  unfolding cut_leaf
  cut_child key k less ne step =
      let keeps : (c : ℕ) → c ≢ leaf → (if c == leaf then 0 else c) ≡ c =
        λ c other. ground (arith, other) in
      elim (Bool-cases (walk nodes root key k == parent)) [
        | inl s ↦
            let at_parent : walk nodes root key k ≡ parent = ground (arith, s) in
            elim (Bool-cases (key k == byte)) [
              | inl b ↦
                  let at_byte : key k ≡ byte = ground (arith, b) in
                  let child : walk nodes root key (suc k) ≡ leaf =
                    step
                    ∙ ap (λ x. (nodes x).children (key k)) at_parent
                    ∙ ap (nodes parent).children at_byte
                    ∙ end.linked in
                  let self : (leaf == leaf) ≡ true = ground arith in rw (s, b, child, self) refl
              | inr b ↦
                  let other : walk nodes root key (suc k) ≢ leaf =
                    λ c. let same = leaf_byte key k less c in absurd (ground (arith, b, same)) in
                  rw (s, b, keeps (walk nodes root key (suc k)) other)
                    (ap (λ x. (nodes x).children (key k)) (sym at_parent) ∙ sym step)
            ]
        | inr s ↦
            let other : walk nodes root key (suc k) ≢ leaf =
              λ c. let same = end.parent key k less c in absurd (ground (arith, s, same)) in
            rw (s, keeps (walk nodes root key (suc k)) other) (sym step)
      ]

  cut-walk :
      (key : ℕ → ℕ) (k : ℕ)
      → k ≤ size
      → walk cut root key k ≡ (if walk nodes root key k == leaf then 0 else walk nodes root key k)
  unfolding walk
  cut-walk key zero le = let other = end.not_root in ground (arith, other)
  cut-walk key (suc k) le =
      let ih = cut-walk key k (omega arith) in
      elim (Bool-cases (walk nodes root key k == 0)) [
        | inl z ↦
            let zero_k : walk nodes root key k ≡ 0 = ground (arith, z) in
            let gone : walk cut root key k ≡ 0 = rw zero_k at ih ∙ ground arith in
            rw (gone, z) (ground arith)
        | inr nz ↦ elim (Bool-cases (walk nodes root key k == leaf)) [
          | inl l ↦
              let at_leaf : walk nodes root key k ≡ leaf = ground (arith, l) in
              let gone : walk cut root key k ≡ 0 = ih ∙ ground (arith, l) in
              let bare = end.bare (key k) in rw (gone, nz, at_leaf, bare) (ground arith)
          | inr o ↦
              let same : walk cut root key k ≡ walk nodes root key k = ih ∙ ground (arith, o) in
              let child = cut_child key k (omega arith) (ground (arith, nz)) (ground (arith, nz)) in
              rw (same, nz) (child ∙ rw nz refl)
        ]
      ]

  -- A node on a path now was there, and is not the leaf.
  pub remained :
      (key : ℕ → ℕ) (k : ℕ)
      → k ≤ size
      → walk cut root key k ≢ 0
      → (walk cut root key k ≡ walk nodes root key k) × (walk nodes root key k ≢ leaf)
  remained key k le ne =
      let w = cut-walk key k le in
      elim (Bool-cases (walk nodes root key k == leaf)) [
        | inl l ↦ absurd (ne (w ∙ ground (arith, l)))
        | inr o ↦ (w ∙ ground (arith, o), ground (arith, o))
      ]

  has_key : (key : ℕ → ℕ) (e : ℕ) → HasKey cut size key e ↔ HasKey nodes size key e
  has_key key e =
      let same = cut-key e in
      (
        λ (ne, all). (ne, λ j less. ap (λ f. f j) (sym same) ∙ all j less),
        λ (ne, all). (ne, λ j less. ap (λ f. f j) same ∙ all j less),
      )

  pub cut-IsRadix : IsRadix cut root size
  cut-IsRadix = record {
    not_null = radix.not_null;
    prefix = λ key k less ne j le.
        let (same, other) = remained key (k + 1) (omega arith) ne in
        rw (same, cut-key (walk nodes root key (k + 1)))
          (radix.prefix key k less (λ z. ne (same ∙ z)) j le);
  }

  pub cut-IsLevelled : IsLevelled cut root size
  cut-IsLevelled = record {
    root_some = levels.root_some;
    depth = λ key k less ne.
        let (same, other) = remained key (suc k) (omega arith) ne in
        rw (same, cut-depth (walk nodes root key (suc k)))
          (levels.depth key k less (λ z. ne (same ∙ z)));
    rooted = λ key k less at_root.
        let (same, other) =
          remained key (suc k) (omega arith) (λ z. levels.root_some (sym at_root ∙ z)) in
        levels.rooted key k less (sym same ∙ at_root);
  }

  -- A node that has a key now had it.
  had :
      (key : ℕ → ℕ) (k : ℕ)
      → k < size
      → HasKey cut size key (walk cut root key (k + 1))
      → HasKey nodes size key (walk nodes root key (k + 1)) × (walk nodes root key (k + 1) ≢ leaf)
  had key k less has =
      let (same, other) = remained key (k + 1) (omega arith) has.0 in
      ((has_key key (walk nodes root key (k + 1))).0 (rw same at has), other)

  -- The first node that has another key is the one that was it.
  pub other-Gets :
      (key : ℕ → ℕ) (j : ℕ) {e : ℕ}
      → j < size
      → key j ≢ (nodes leaf).key j
      → Gets nodes root size key e
      → Gets cut root size key e
  other-Gets key j less differs (found {e} k below at_e has first) =
      let w = cut-walk key (k + 1) (omega arith) in
      let other : e ≢ leaf = λ l. differs (sym (has.1 j less) ∙ ap (λ x. (nodes x).key j) l) in
      let same : walk cut root key (k + 1) ≡ e = w ∙ rw at_e (ground (arith, other)) in
      found k below same ((has_key key e).1 has)
        λ k' less' now. first k' less' (had key k' (omega arith) now).0
  other-Gets key j less differs (missing no_one) =
      missing λ k within now. no_one k within (had key k within now).0

  -- Behind the leaf there is nothing.
  beyond :
      (key : ℕ → ℕ) (k d : ℕ) → walk nodes root key k ≡ leaf → walk nodes root key (d + suc k) ≡ 0
  unfolding walk
  beyond key k zero at_leaf =
      let here : zero + suc k ≡ suc k = omega arith in
      rw here (end_walk nodes root key k leaf at_leaf end.bare)
  beyond key k (suc d) at_leaf =
      let more : suc d + suc k ≡ suc (d + suc k) = omega arith in
      rw (more, beyond key k d at_leaf) refl

  -- When the leaf was the first node that has a key, none has it now.
  pub leaf-Gets :
      (key : ℕ → ℕ) {e e' : ℕ}
      → e' ≡ leaf
      → Gets nodes root size key e'
      → Gets cut root size key e
      → e ≡ 0
  leaf-Gets key at_leaf gets (missing none_now) = refl
  leaf-Gets key at_leaf (missing no_one) (found k below at_e has first) =
      absurd (end.some (sym at_leaf))
  leaf-Gets key at_leaf (found {e = e'} k0 below0 at_e' has' first')
        (found {e} k below at_e has first) =
      let (before, other) = had key k below (rw at_e has) in go before other (ground arith)
    where
      go :
          HasKey nodes size key (walk nodes root key (k + 1))
          → walk nodes root key (k + 1) ≢ leaf
          → (k < k0) ⊎ ((k ≡ k0) ⊎ (k0 < k))
          → e ≡ 0
      go before other (inl less) = absurd (first' k less before)
      go before other (inr (inl same)) =
          absurd (other (ap (λ x. walk nodes root key (x + 1)) same ∙ at_e' ∙ at_leaf))
      go before other (inr (inr more)) =
          let far : k - k0 - 1 + suc (k0 + 1) ≡ k + 1 = omega arith in
          absurd (before.0 (rw far at (beyond key (k0 + 1) (k - k0 - 1) (at_e' ∙ at_leaf))))

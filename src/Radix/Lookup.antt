-- ===== src/Radix/Lookup.antt =====
-- A lookup finds the first node on the key's path that has the key.
use alter.Common.{
  ℕ, zero, suc, ◌+◌, ◌-◌, ◌≤◌, ◌<◌, true, false, ◌==◌, if◌then◌else◌, ◌≡◌, ◌≢◌, inl, inr, arith,
  refl, Bool-cases, leb, ltb,
}
use alter.Radix.Defs.{Node, Tree, keycmp_from, keycmp, get_from, tree_get}

-- The node that the first `i` bytes of a key lead to from the root, or 0.
unfoldable pub walk : (ℕ → Node) → (root : ℕ) → (key : ℕ → ℕ) → ℕ → ℕ
walk nodes root key zero = root
walk nodes root key (suc i) =
    let e = walk nodes root key i in if e == 0 then 0 else (nodes e).children (key i)

-- The node `e` has the key.
abbrev pub HasKey : (ℕ → Node) → (size : ℕ) → (key : ℕ → ℕ) → ℕ → Type 0
HasKey nodes size key e = (e ≢ 0) × ((j : ℕ) → j < size → (nodes e).key j ≡ key j)

-- A node lies on the path of its own key.
pub record IsRadix (nodes : ℕ → Node) (root size : ℕ) : Type 0 where
  pub not_null : root ≢ 0
  pub prefix :
      (key : ℕ → ℕ) (i : ℕ)
      → i < size
      → walk nodes root key (i + 1) ≢ 0
      → (j : ℕ) → j ≤ i
      → (nodes (walk nodes root key (i + 1))).key j ≡ key j

-- How a lookup ends: with the first node below the root on the path of the key that has the key, or
-- with NULL, and no node on the path has it.
pub data Gets (nodes : ℕ → Node) (root size : ℕ) (key : ℕ → ℕ) : ℕ → Type 0 where
  found :
      {e : ℕ} (i : ℕ)
      → i < size
      → walk nodes root key (i + 1) ≡ e
      → HasKey nodes size key e
      → ((k : ℕ) → k < i → ¬ HasKey nodes size key (walk nodes root key (k + 1)))
      → Gets nodes root size key e
  missing :
      ((k : ℕ) → k < size → ¬ HasKey nodes size key (walk nodes root key (k + 1)))
      → Gets nodes root size key 0

keycmp_from-true :
    (key1 key2 : ℕ → ℕ) (n k : ℕ)
    → keycmp_from key1 key2 n k ≡ true
    → (j : ℕ) → k ≤ j
    → j < k + n
    → key1 j ≡ key2 j
unfolding keycmp_from
keycmp_from-true key1 key2 zero k e j low high = absurd (omega arith)
keycmp_from-true key1 key2 (suc n) k e j low high = elim (Bool-cases (j == k)) [
  | inl is ↦ let at_k : j ≡ k = ground arith in rw at_k (ground arith)
  | inr past ↦ keycmp_from-true key1 key2 n (k + 1) (ground arith) j (ground arith) (omega arith)
]

true-keycmp_from :
    (key1 key2 : ℕ → ℕ) (n k : ℕ)
    → ((j : ℕ) → k ≤ j → j < k + n → key1 j ≡ key2 j)
    → keycmp_from key1 key2 n k ≡ true
unfolding keycmp_from
true-keycmp_from key1 key2 zero k same = refl
true-keycmp_from key1 key2 (suc n) k same =
    let here = same k (omega arith) (omega arith) in
    let rest = true-keycmp_from key1 key2 n (k + 1) λ j l h. same j (omega arith) (omega arith) in
    ground arith

module _ (nodes : ℕ → Node) (root size : ℕ) (ok : IsRadix nodes root size) (key : ℕ → ℕ) where
  abbrev at : ℕ → ℕ
  at i = walk nodes root key i

  at-suc : (i : ℕ) → at i ≢ 0 → at (i + 1) ≡ (nodes (at i)).children (key i)
  unfolding walk
  at-suc i ne = let e : i + 1 ≡ suc i = omega arith in rw e (ground arith)

  -- Behind the end of a path there are no nodes.
  at-none : (i d : ℕ) → at i ≡ 0 → at (d + i) ≡ 0
  unfolding walk
  at-none i zero e = let z : zero + i ≡ i = omega arith in rw z e
  at-none i (suc d) e =
      let s : suc d + i ≡ suc (d + i) = omega arith in rw s (ground (arith, at-none i d e))

  compared :
      (i : ℕ)
      → i < size
      → at (i + 1) ≢ 0
      → keycmp (nodes (at (i + 1))).key key (i + 1) size ≡ true
      → HasKey nodes size key (at (i + 1))
  compared i h ne e = (
    ne,
    λ j less. elim (Bool-cases (leb j i)) [
      | inl low ↦ ok.prefix key i h ne j (ground arith)
      | inr high ↦
          keycmp_from-true (nodes (at (i + 1))).key key (size - (i + 1)) (i + 1) e j (ground arith)
            (omega arith)
    ],
  )

  no_more :
      (i k : ℕ)
      → at (i + 1) ≡ 0
      → ((k : ℕ) → k < i → ¬ HasKey nodes size key (at (k + 1)))
      → ¬ HasKey nodes size key (at (k + 1))
  no_more i k stop none_yet has_key = elim (Bool-cases (ltb k i)) [
    | inl low ↦ none_yet k (ground arith) has_key
    | inr high ↦
        let far : (k - i) + (i + 1) ≡ k + 1 = ground arith in
        has_key.0 (rw far at (at-none (i + 1) (k - i) stop))
  ]

  not_here :
      (i k : ℕ)
      → keycmp (nodes (at (i + 1))).key key (i + 1) size ≡ false
      → ((k : ℕ) → k < i → ¬ HasKey nodes size key (at (k + 1)))
      → k < i + 1
      → i + 1 ≤ size
      → ¬ HasKey nodes size key (at (k + 1))
  not_here i k miss none_yet h le has_key = elim (Bool-cases (k == i)) [
    | inl is ↦
        let at_i : k ≡ i = ground arith in
        let same = (rw at_i at has_key).1 in
        let hit =
          true-keycmp_from (nodes (at (i + 1))).key key (size - (i + 1)) (i + 1)
            λ j low high. same j (omega arith) in
        absurd (ground (arith, hit, miss))
    | inr less ↦ none_yet k (ground arith) has_key
  ]

  get_from-Gets :
      (n i : ℕ)
      → at i ≢ 0
      → i + n ≡ size
      → ((k : ℕ) → k < i → ¬ HasKey nodes size key (at (k + 1)))
      → Gets nodes root size key (get_from nodes size key n i (at i))
  unfolding get_from
  get_from-Gets zero i ne e none_yet = missing λ k h. none_yet k (omega arith)
  get_from-Gets (suc n) i ne e none_yet = rw (← at-suc i ne) (elim (Bool-cases (at (i + 1) == 0)) [
    | inl stop ↦ rw stop (missing λ k h. no_more i k (ground arith) none_yet)
    | inr on ↦ elim (Bool-cases (keycmp (nodes (at (i + 1))).key key (i + 1) size)) [
      | inl hit ↦
          rw (on, hit)
            (found i (omega arith) refl (compared i (omega arith) (ground arith) hit) none_yet)
      | inr miss ↦
          rw (on, miss)
            (get_from-Gets n (i + 1) (ground arith) (omega arith)
              λ k h. not_here i k miss none_yet h (omega arith))
    ]
  ])

-- In a tree where every node below the root lies on the path of its own key,
-- frl_radix_tree_get_lock_with returns the first node below the root on the path of a key that
-- has the key, or NULL when none has it.
pub tree_get-Gets :
    {S : Type 0} (t : Tree S) (key : ℕ → ℕ)
    → IsRadix t.nodes t.root t.key_size
    → Gets t.nodes t.root t.key_size key (tree_get key t)
unfolding tree_get walk
tree_get-Gets t key ok =
    get_from-Gets t.nodes t.root t.key_size ok key t.key_size 0 ok.not_null (omega arith)
      λ k h. absurd (omega arith)

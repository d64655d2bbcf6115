-- ===== src/Radix/Walk.antt =====
-- The paths of a radix tree before and after frl_radix_tree_add_lock_with of src/lib/frl_radix_tree.c
-- has hung a leaf into it.
use alter.Common.{
  ℕ, zero, suc, ◌+◌, ◌-◌, ◌≤◌, ◌<◌, true, Option, none, some, ◌==◌, update, ◌≡◌, ◌≢◌, ◌⊎◌, inl, inr,
  arith, refl, sym, ap, ◌∙◌, Bool-cases,
}
use alter.Radix.Defs.{Node, keycmp_from, slot_from}
use alter.Radix.Lookup.{walk}

-- The depth of a node is the length of its path, less one, and no path leads back to the root.
pub record IsLevelled (nodes : ℕ → Node) (root size : ℕ) : Type 0 where
  pub root_some : root ≢ 0
  pub depth :
      (key : ℕ → ℕ) (k : ℕ)
      → k < size
      → walk nodes root key (suc k) ≢ 0
      → (nodes (walk nodes root key (suc k))).depth ≡ k
  pub rooted : (key : ℕ → ℕ) (k : ℕ) → k < size → walk nodes root key (suc k) ≢ root

-- The place for a key: the node that its first `i` bytes lead to has no child for the next one.
pub record Spot (nodes : ℕ → Node) (root size : ℕ) (key : ℕ → ℕ) (elts i : ℕ) : Type 0 where
  pub leads : walk nodes root key i ≡ elts
  pub node : elts ≢ 0
  pub free : (nodes elts).children (key i) ≡ 0
  pub inside : i < size

-- The loop gives the key up: at a node on its path that it goes on from, and whose bytes behind the position
-- are the key's; or at the end of a path that leads through nodes all along.
pub data GivesUp (nodes : ℕ → Node) (root size : ℕ) (key : ℕ → ℕ) : Type 0 where
  taken :
      (k e : ℕ)
      → k < size
      → walk nodes root key k ≡ e
      → e ≢ 0
      → (nodes e).children (key k) ≢ 0
      → keycmp_from (nodes e).key key (size - (k + 1)) (k + 1) ≡ true
      → GivesUp nodes root size key
  whole : walk nodes root key size ≢ 0 → GivesUp nodes root size key

pub data Spotted (nodes : ℕ → Node) (root size : ℕ) (key : ℕ → ℕ) : Option (ℕ × ℕ) → Type 0 where
  refused : GivesUp nodes root size key → Spotted nodes root size key none
  spotted :
      {elts i : ℕ} → Spot nodes root size key elts i → Spotted nodes root size key (some (elts, i))

walk-step :
    (nodes : ℕ → Node) (root : ℕ) (key : ℕ → ℕ) (k : ℕ)
    → walk nodes root key k ≢ 0
    → walk nodes root key (suc k) ≡ (nodes (walk nodes root key k)).children (key k)
unfolding walk
walk-step nodes root key k ne = ground arith

pub slot_from-Spotted :
    (nodes : ℕ → Node) (root size : ℕ) (key : ℕ → ℕ) (n i elts : ℕ)
    → walk nodes root key i ≡ elts
    → elts ≢ 0
    → i + n ≡ size
    → Spotted nodes root size key (slot_from nodes size key n i elts)
unfolding slot_from
slot_from-Spotted nodes root size key zero i elts leads ne all =
    let end : i ≡ size = omega arith in refused (whole (rw (← end, leads) ne))
slot_from-Spotted nodes root size key (suc n) i elts leads ne all =
    elim (Bool-cases ((nodes elts).children (key i) == 0)) [
      | inl e ↦ rw e (
          spotted
            (record { leads = leads; node = ne; free = ground (arith, e); inside = omega arith }))
      | inr e ↦ elim (Bool-cases (keycmp_from (nodes elts).key key (size - (i + 1)) (i + 1))) [
        | inl hit ↦
            rw (e, hit) (refused (taken i elts (omega arith) leads ne (ground (arith, e)) hit))
        | inr miss ↦
            let one : i + 1 ≡ suc i = omega arith in
            let next : walk nodes root key (suc i) ≡ (nodes elts).children (key i) =
              walk-step nodes root key i (rw leads ne)
              ∙ ap (λ x. (nodes x).children (key i)) leads in
            rw (e, miss)
              (slot_from-Spotted nodes root size key n (i + 1) ((nodes elts).children (key i))
                (rw one next) (ground (arith, e)) (omega arith))
      ]
    ]

-- `nodes'` has the new leaf behind `elts`.
pub record Hung (nodes nodes' : ℕ → Node) (key : ℕ → ℕ) (elts i leaf : ℕ) : Type 0 where
  pub apart : elts ≢ leaf
  pub child : (nodes' elts).children ≡ update (nodes elts).children (key i) leaf
  pub bare : (b : ℕ) → (nodes' leaf).children b ≡ 0
  pub others : (e : ℕ) → e ≢ elts → e ≢ leaf → (nodes' e).children ≡ (nodes e).children
  pub keys : (e : ℕ) → e ≢ leaf → (nodes' e).key ≡ (nodes e).key
  pub depths : (e : ℕ) → e ≢ leaf → (nodes' e).depth ≡ (nodes e).depth

-- A path ends at a node without children.
pub end_walk :
    (nodes : ℕ → Node) (root : ℕ) (key : ℕ → ℕ) (k leaf : ℕ)
    → walk nodes root key k ≡ leaf
    → ((b : ℕ) → (nodes leaf).children b ≡ 0)
    → walk nodes root key (suc k) ≡ 0
unfolding walk
end_walk nodes root key k leaf there bare = elim (Bool-cases (walk nodes root key k == 0)) [
  | inl e ↦ rw e refl
  | inr e ↦ rw (e, there) (bare (key k))
]

-- A node stands on one level only.
one_level :
    (nodes : ℕ → Node) (root size : ℕ)
    → IsLevelled nodes root size
    → (key key2 : ℕ → ℕ) (k k' e : ℕ) → k ≤ size
    → k' ≤ size
    → walk nodes root key k ≡ e
    → walk nodes root key2 k' ≡ e
    → e ≢ 0
    → k ≡ k'
unfolding walk
one_level nodes root size levels key key2 zero zero e le le' at at' ne = refl
one_level nodes root size levels key key2 zero (suc k') e le le' at at' ne =
    absurd (levels.rooted key2 k' (omega arith) (at' ∙ sym at))
one_level nodes root size levels key key2 (suc k) zero e le le' at at' ne =
    absurd (levels.rooted key k (omega arith) (at ∙ sym at'))
one_level nodes root size levels key key2 (suc k) (suc k') e le le' at at' ne =
    let d = levels.depth key k (omega arith) (λ z. ne (sym at ∙ z)) in
    let d' = levels.depth key2 k' (omega arith) (λ z. ne (sym at' ∙ z)) in
    ap suc (sym d ∙ ap (λ x. (nodes x).depth) (at ∙ sym at') ∙ d')

module _ (nodes nodes' : ℕ → Node) (root size : ℕ) (key : ℕ → ℕ) (elts i leaf : ℕ)
    (levels : IsLevelled nodes root size) (spot : Spot nodes root size key elts i)
    (hung : Hung nodes nodes' key elts i leaf)
    (fresh : (key2 : ℕ → ℕ) (k : ℕ) → k ≤ size → walk nodes root key2 k ≢ leaf) where
  -- The path of `key2` goes through the new leaf.
  abbrev pub Joins : (key2 : ℕ → ℕ) → Type 0
  Joins key2 = (walk nodes root key2 i ≡ elts) × (key2 i ≡ key i)

  same_children :
      (key2 : ℕ → ℕ) (k : ℕ)
      → suc k ≤ size
      → ((suc k ≤ i) ⊎ (¬ Joins key2))
      → walk nodes root key2 k ≢ 0
      → (nodes' (walk nodes root key2 k)).children (key2 k)
        ≡ (nodes (walk nodes root key2 k)).children (key2 k)
  same_children key2 k le off ne = elim (Bool-cases (walk nodes root key2 k == elts)) [
    | inl e ↦
        let at_elts : walk nodes root key2 k ≡ elts = ground (arith, e) in
        let inside = spot.inside in
        let level =
          one_level nodes root size levels key2 key k i elts (omega arith) (omega arith) at_elts
            spot.leads spot.node in
        elim off [
          | inl below ↦ absurd (omega arith)
          | inr apart ↦
              let other : key2 k ≢ key i =
                λ same. apart (rw (← level) at_elts, ap key2 (sym level) ∙ same) in
              rw (at_elts, hung.child) (ground (arith, other))
        ]
    | inr e ↦
        ap (λ f. f (key2 k))
          (hung.others (walk nodes root key2 k) (ground (arith, e)) (fresh key2 k (omega arith)))
  ]

  same_walk :
      (key2 : ℕ → ℕ) (k : ℕ)
      → k ≤ size
      → ((k ≤ i) ⊎ (¬ Joins key2))
      → walk nodes' root key2 k ≡ walk nodes root key2 k
  unfolding walk
  same_walk key2 zero le off = refl
  same_walk key2 (suc k) le off =
      let shorter : (k ≤ i) ⊎ (¬ Joins key2) = elim off [
        | inl below ↦ inl (omega arith)
        | inr apart ↦ inr apart
      ] in
      let ih = same_walk key2 k (omega arith) shorter in
      elim (Bool-cases (walk nodes root key2 k == 0)) [
        | inl e ↦ rw (ih, e) refl
        | inr e ↦ rw (ih, e) (same_children key2 k le off (ground (arith, e)))
      ]

  -- A path that goes through the new leaf.
  new_walk : (key2 : ℕ → ℕ) → Joins key2 → walk nodes' root key2 (suc i) ≡ leaf
  new_walk key2 (leads, same) =
      let inside = spot.inside in
      let there : walk nodes' root key2 i ≡ elts =
        same_walk key2 i (omega arith) (inl (omega arith)) ∙ leads in
      walk-step nodes' root key2 i (λ z. spot.node (sym there ∙ z))
      ∙ ap (λ x. (nodes' x).children (key2 i)) there
      ∙ rw (hung.child, same) (ground arith)

  -- It ends there.
  off_walk : (key2 : ℕ → ℕ) (d : ℕ) → Joins key2 → walk nodes' root key2 (suc (d + suc i)) ≡ 0
  unfolding walk
  off_walk key2 zero joins =
      let one : zero + suc i ≡ suc i = omega arith in
      end_walk nodes' root key2 (zero + suc i) leaf (rw one (new_walk key2 joins)) hung.bare
  off_walk key2 (suc d) joins =
      let more : suc d + suc i ≡ suc (d + suc i) = omega arith in
      let ih = off_walk key2 d joins in rw (more, ih) refl

  -- Where a path leads after the insertion.
  pub data Reach (key2 : ℕ → ℕ) (k : ℕ) : Type 0 where
    old :
        walk nodes' root key2 (suc k) ≡ walk nodes root key2 (suc k)
        → (k < i) ⊎ (¬ Joins key2)
        → Reach key2 k
    new : k ≡ i → Joins key2 → walk nodes' root key2 (suc k) ≡ leaf → Reach key2 k
    off : i < k → Joins key2 → walk nodes' root key2 (suc k) ≡ 0 → Reach key2 k

  Joins-cases : (key2 : ℕ → ℕ) → Joins key2 ⊎ (¬ Joins key2)
  Joins-cases key2 = elim (Bool-cases (walk nodes root key2 i == elts)) [
    | inr e ↦ inr λ j. let leads = j.0 in absurd (ground (arith, e, leads))
    | inl e ↦ elim (Bool-cases (key2 i == key i)) [
      | inl f ↦ inl (ground (arith, e), ground (arith, f))
      | inr f ↦ inr λ j. let same = j.1 in absurd (ground (arith, f, same))
    ]
  ]

  pub reach : (key2 : ℕ → ℕ) (k : ℕ) → k < size → Reach key2 k
  reach key2 k less = elim (Joins-cases key2) [
    | inr apart ↦ old (same_walk key2 (suc k) (omega arith) (inr apart)) (inr apart)
    | inl joins ↦ go (ground arith) joins
  ]
    where
      go : ((k < i) ⊎ (k ≡ i)) ⊎ (i < k) → Joins key2 → Reach key2 k
      go (inl (inl below)) joins =
          old (same_walk key2 (suc k) (omega arith) (inl (omega arith))) (inl below)
      go (inl (inr here)) joins =
          new here joins (ap (λ x. walk nodes' root key2 (suc x)) here ∙ new_walk key2 joins)
      go (inr above) joins =
          let far : k - suc i + suc i ≡ k = omega arith in
          off above joins (rw far at (off_walk key2 (k - suc i) joins))

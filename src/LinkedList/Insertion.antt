-- ===== src/LinkedList/Insertion.antt =====
-- The writes of frl_list_add behind an entry put the new entry there. Those before an entry do not:
-- no `next` pointer of the list is changed.
use alter.Common.{
  ℕ, suc, ◌+◌, ◌%◌, ◌^◌, ◌<◌, true, false, List, ◌∷◌, ◌≡◌, ◌≢◌, ◌==◌, ◌||◌, has, length,
  if◌then◌else◌, arith, ap, ◌∙◌, sym, insert_after, has-insert_after, length-insert_after,
}
use alter.Common.Chain
use alter.Common.Chain.{Chain, nil, cons}
use alter.Common.ChainEdit.{Chain-insert_after}
use alter.LinkedList.Defs.{Store, before, after, link_entry}
use alter.LinkedList.Invariant.{Leads, IsNode, next_in}

-- The entries with `n` put behind `e`, which may be the head.
abbrev pub placed : (head e n : ℕ) → List ℕ → List ℕ
placed head e n xs = if head == e then n ∷ xs else insert_after e n xs

module _ {S : Type 0} {s : Store S} {list : ℕ} {xs : List ℕ} (h : Leads s list xs)
    (e n key pointer : ℕ) (i : has e ((s.lists list).head ∷ xs) ≡ true) (pos : 0 < n)
    (new : (a : ℕ) → IsNode s list xs a → a ≢ n) where
  abbrev pub head : ℕ
  head = (s.lists list).head

  abbrev pub tail : ℕ
  tail = (s.lists list).tail

  e_owner : (s.entry e).list ≡ list
  e_owner = h.owner e (ground (arith, i))

  abbrev pub behind : Store S
  behind = link_entry e after key pointer n s

  n_out : has n (head ∷ xs) ≡ false
  n_out = ground (arith, new n)

  next_e : (behind.entry e).next ≡ n
  unfolding link_entry
  next_e = ground arith

  next_n : (behind.entry n).next ≡ (s.entry e).next
  unfolding link_entry
  next_n = ground (arith, n_out, i)

  pub next_same :
      (a : ℕ) → has a (head ∷ xs) ≡ true → a ≢ e → (behind.entry a).next ≡ (s.entry a).next
  unfolding link_entry
  next_same a j ne = ground (arith, n_out)

  placed-eq : insert_after e n (head ∷ xs) ≡ head ∷ placed head e n xs
  unfolding insert_after
  placed-eq = ground arith

  pub same_ends :
      ((behind.lists list).head ≡ head)
      × ((behind.lists list).tail ≡ tail)
      × ((behind.lists list).nelts ≡ ((s.lists list).nelts + 1) % 2 ^ 32)
  unfolding link_entry
  same_ends = ground (arith, e_owner)

  pub in_placed : (a : ℕ) → has a (head ∷ placed head e n xs) ≡ (has a (head ∷ xs) || (a == n))
  in_placed a = sym (ap (has a) placed-eq) ∙ ground (arith, has-insert_after a e n (head ∷ xs), i)

  behind-Chain : Chain (next_in behind.entry) tail head (head ∷ placed head e n xs)
  behind-Chain = rw placed-eq at (Chain-insert_after e n next_e next_n h.chain n_out next_same)

  pub behind_owner :
      (a : ℕ)
      → (has a (head ∷ xs) || ((a == n) || (a == tail))) ≡ true
      → (behind.entry a).list ≡ list
  unfolding link_entry
  behind_owner a j = ground (arith, h.owner a, e_owner)

  pub length-placed : length (placed head e n xs) ≡ suc (length xs)
  length-placed = ground (arith, ap length placed-eq, length-insert_after e n (head ∷ xs) i)

  -- The entries of the list are those of before, with the new one behind `e`.
  pub behind-Leads : Leads behind list (placed head e n xs)
  behind-Leads = record {
    chain = rw (same_ends.0, same_ends.1) behind-Chain;
    tail_out =
        ground (
          arith,
          same_ends.0,
          same_ends.1,
          in_placed (behind.lists list).tail,
          h.tail_out,
          new tail,
        );
    not_null = λ a. rw (same_ends.0, same_ends.1) λ j. ground (arith, in_placed a, h.not_null a);
    owner = λ a. rw (same_ends.0, same_ends.1) λ j. behind_owner a (ground (arith, in_placed a));
  }

  -- A node of the new list is the new entry or was a node.
  pub old-IsNode : (a : ℕ) → IsNode behind list (placed head e n xs) a → a ≢ n → IsNode s list xs a
  old-IsNode a j ne = ground (arith, j, same_ends.0, same_ends.1, in_placed a)

  pub behind-entry :
      ((behind.entry n).key ≡ key)
      × ((behind.entry n).pointer ≡ pointer)
      × ((behind.entry n).prev ≡ e)
  unfolding link_entry
  behind-entry = ground (arith, n_out, i)

  -- The entries of before keep their keys, pointers and `prev` links.
  pub behind-others :
      (a : ℕ)
      → IsNode s list xs a
      → ((behind.entry a).key ≡ (s.entry a).key)
        × ((behind.entry a).pointer ≡ (s.entry a).pointer)
        × ((behind.entry a).prev ≡ (s.entry a).prev)
  unfolding link_entry
  behind-others a j = ground (arith, new a)

module _ {S : Type 0} {s : Store S} {list : ℕ} {xs : List ℕ} (h : Leads s list xs)
    (e n key pointer : ℕ) (i : IsNode s list xs e) (pos : 0 < n)
    (new : (a : ℕ) → IsNode s list xs a → a ≢ n) where
  abbrev pub in_front : Store S
  in_front = link_entry e before key pointer n s

  pub in_front-links :
      (a : ℕ)
      → IsNode s list xs a
      → ((in_front.entry a).next ≡ (s.entry a).next) × ((in_front.entry a).list ≡ (s.entry a).list)
  unfolding link_entry
  in_front-links a j = ground (arith, new a, j)

  pub in_front-keys : (a : ℕ) → has a xs ≡ true → (in_front.entry a).key ≡ (s.entry a).key
  unfolding link_entry
  in_front-keys a j = ground (arith, new a, j)

  pub in_front-lists :
      ((in_front.lists list).head ≡ (s.lists list).head)
      × ((in_front.lists list).tail ≡ (s.lists list).tail)
      × ((in_front.lists list).nelts ≡ ((s.lists list).nelts + 1) % 2 ^ 32)
  unfolding link_entry
  in_front-lists = ground (arith, h.owner e i)

  -- The entries of the list are those of before, and the new one is not among them.
  pub in_front-Leads : Leads in_front list xs
  in_front-Leads = record {
    chain =
        rw (in_front-lists.0, in_front-lists.1)
          (Chain.frame (next_in in_front.entry) h.chain λ a j. (in_front-links a (ground arith)).0);
    tail_out = ground (arith, in_front-lists.0, in_front-lists.1, h.tail_out);
    not_null = λ a. rw (in_front-lists.0, in_front-lists.1) (h.not_null a);
    owner = λ a. rw (in_front-lists.0, in_front-lists.1) λ j. (in_front-links a j).1 ∙ h.owner a j;
  }

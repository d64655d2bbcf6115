-- ===== src/LinkedList/Invariant.antt =====
-- A list stands for the entries that its `next` pointers lead through, from the head to the tail.
use alter.Common.{
  ℕ, ◌%◌, ◌^◌, ◌<◌, true, false, List, [], ◌∷◌, ◌≡◌, ◌==◌, ◌||◌, has, length, if◌then◌else◌,
}
use alter.Common.Chain.{Chain}
use alter.Allocator.{Allocator}
use alter.LinkedList.Defs.{Entry, Store}

abbrev pub next_in : (ℕ → Entry) → ℕ → ℕ
next_in entry a = (entry a).next

-- One of the list's own nodes: the head, an entry or the tail.
abbrev pub IsNode : {S : Type 0} → Store S → (list : ℕ) → List ℕ → ℕ → Type 0
IsNode s list xs a = (has a ((s.lists list).head ∷ xs) || (a == (s.lists list).tail)) ≡ true

-- The `next` pointers lead from the head through the entries `xs` to the tail.
pub record Leads {S : Type 0} (s : Store S) (list : ℕ) (xs : List ℕ) : Type 0 where
  pub chain :
      Chain (next_in s.entry) (s.lists list).tail (s.lists list).head ((s.lists list).head ∷ xs)
  pub tail_out : has (s.lists list).tail ((s.lists list).head ∷ xs) ≡ false
  pub not_null : (a : ℕ) → IsNode s list xs a → 0 < a
  pub owner : (a : ℕ) → IsNode s list xs a → (s.entry a).list ≡ list

-- Besides, the nodes are items of the pool, and the list counts its entries.
pub record Owns (al : Allocator) (s : Store al.State) (list : ℕ) (xs : List ℕ) : Type 0 where
  pub leads : Leads s list xs
  pub size : (s.lists list).nelts ≡ length xs % 2 ^ 32
  pub pool_valid : al.IsValid s.pool
  pub live : (a : ℕ) → IsNode s list xs a → al.Live s.pool a

-- The first of the entries that has the key, or 0.
unfoldable pub first_with : (ℕ → Entry) → ℕ → List ℕ → ℕ
first_with entry key [] = 0
first_with entry key (x ∷ xs) = if (entry x).key == key then x else first_with entry key xs

-- The pool does not matter to the links.
pub Leads-pool :
    {S : Type 0} (pool : S) {s : Store S} {list : ℕ} {xs : List ℕ}
    → Leads s list xs
    → Leads (record s { pool = pool }) list xs
Leads-pool pool h = record {
  chain = h.chain;
  tail_out = h.tail_out;
  not_null = h.not_null;
  owner = h.owner;
}

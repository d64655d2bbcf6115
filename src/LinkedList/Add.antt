-- ===== src/LinkedList/Add.antt =====
-- frl_list_add, with its allocation.
use alter.Common.{
  ℕ, ◌+◌, ◌%◌, ◌^◌, ◌<◌, true, Option, some, List, [], ◌∷◌, ◌≡◌, ◌≢◌, ◌==◌, ◌↔◌, ◌⊎◌, has, length,
  arith, refl, Bool-cases, inl, inr, ap, ◌∙◌, sym,
}
use alter.Allocator.{Allocator, Allocates, hands_out, no_memory}
use alter.LinkedList.Defs.{Entry, Store, before, after, add, link_entry, get}
use alter.LinkedList.Invariant.{Leads, Owns, IsNode, first_with, Leads-pool}
use alter.LinkedList.Lookup.{get-first_with}
use alter.LinkedList.Insertion.{
  placed, behind-Leads, behind-entry, behind-others, same_ends, length-placed, in_front-Leads,
  in_front-lists, in_front-keys, old-IsNode,
}

pub first_with-same :
    (entry entry' : ℕ → Entry) (key : ℕ) (ys : List ℕ)
    → ((a : ℕ) → has a ys ≡ true → (entry' a).key ≡ (entry a).key)
    → first_with entry' key ys ≡ first_with entry key ys
unfolding first_with
first_with-same entry entry' key [] same = refl
first_with-same entry entry' key (y ∷ ys) same =
    ground (arith, same y, first_with-same entry entry' key ys λ a i. same a (ground arith))

-- How an insertion behind the entry `e` of a list ends: the new entry stands behind `e`, with the
-- key and the pointer given, or there was no memory and no entry has changed.
pub data AddsBehind (al : Allocator) (s : Store al.State) (list : ℕ) (xs : List ℕ)
    (e key pointer : ℕ) : Option (ℕ × Store al.State) → Type 0 where
  added :
      {n : ℕ} {s' : Store al.State}
      → Owns al s' list (placed (s.lists list).head e n xs)
      → ((s'.entry n).key ≡ key) × ((s'.entry n).pointer ≡ pointer)
      → ((a : ℕ)
          → IsNode s list xs a
          → (a ≢ n)
            × ((s'.entry a).key ≡ (s.entry a).key)
            × ((s'.entry a).pointer ≡ (s.entry a).pointer))
      → AddsBehind al s list xs e key pointer (some (n, s'))
  out_of_memory :
      {pool : al.State} → AddsBehind al s list xs e key pointer (some (0, record s { pool = pool }))

-- How an insertion before the entry `e` ends: there was no memory, or the pool has handed out the new
-- entry and the list counts it, but its entries are those of before, and every lookup finds what
-- it found.
pub data AddsBefore (al : Allocator) (s : Store al.State) (list : ℕ) (xs : List ℕ) (e : ℕ)
    : Option (ℕ × Store al.State) → Type 0 where
  lost :
      {n : ℕ} {s' : Store al.State}
      → 0 < n
      → al.Live s'.pool n
      → ((a : ℕ) → IsNode s list xs a → a ≢ n)
      → Leads s' list xs
      → (s'.lists list).nelts ≡ ((s.lists list).nelts + 1) % 2 ^ 32
      → ((fuel key : ℕ) → length xs < fuel → get fuel list key s' ≡ get fuel list key s)
      → AddsBefore al s list xs e (some (n, s'))
  out_of_memory : {pool : al.State} → AddsBefore al s list xs e (some (0, record s { pool = pool }))

module _ (al : Allocator) {s : Store al.State} {list : ℕ} {xs : List ℕ} (o : Owns al s list xs)
    (r : al.Request) (ready : al.IsReady s.pool r) (e key pointer : ℕ) where
  pub is_new : {n : ℕ} → ¬ al.Live s.pool n → (a : ℕ) → IsNode s list xs a → a ≢ n
  is_new fresh a i is = fresh (rw is at (o.live a i))

  module _ (i : has e ((s.lists list).head ∷ xs) ≡ true) where
    behind-Owns :
        {n : ℕ} (pool' : al.State)
        → al.IsValid pool'
        → 0 < n
        → ((a : ℕ) → IsNode s list xs a → a ≢ n)
        → ((q : ℕ) → al.Live pool' q ↔ ((q ≡ n) ⊎ al.Live s.pool q))
        → Owns al
            (link_entry e after key pointer n (record s { pool = pool' }))
            list
            (placed (s.lists list).head e n xs)
    behind-Owns {n} pool' ok pos new grown =
        let h = Leads-pool pool' o.leads in
        let ends = same_ends h e n key pointer i pos new in
        record {
          leads = behind-Leads h e n key pointer i pos new;
          size = ground (arith, ends.2, o.size, length-placed h e n key pointer i pos new);
          pool_valid = unfold link_entry in ok;
          live = λ a j.
              unfold link_entry in
              (grown a).1 (elim (Bool-cases (a == n)) [
                | inl is ↦ inl (ground arith)
                | inr old ↦
                    inr (o.live a (old-IsNode h e n key pointer i pos new a j (ground arith)))
              ]);
        }

    add-eq :
        {m : Option (Option ℕ × al.State)}
        → al.palloc r s.pool ≡ m
        → Allocates al.IsValid al.Live s.pool m
        → AddsBehind al s list xs e key pointer (add al r e after key pointer s)
    unfolding add
    add-eq run (hands_out {p} {s'} ok pos fresh grown) =
        let new = is_new fresh in
        let h = Leads-pool s' o.leads in
        rw run (
          added (behind-Owns s' ok pos new grown)
            (let w = behind-entry h e p key pointer i pos new in (w.0, w.1))
            λ a j. let w = behind-others h e p key pointer i pos new a j in (new a j, w.0, w.1))
    add-eq run no_memory = rw run out_of_memory

    -- In an allocator that is ready, an insertion behind the head or an entry of a well-formed
    -- list puts the new entry right behind it, with the key and pointer given, keeps the keys
    -- and pointers of the others and counts one more; or there is no memory, and no entry
    -- changes.
    pub add-AddsBehind : AddsBehind al s list xs e key pointer (add al r e after key pointer s)
    add-AddsBehind = add-eq refl (al.palloc-Allocates s.pool r o.pool_valid ready)

  module _ (i : IsNode s list xs e) where
    before-eq :
        {m : Option (Option ℕ × al.State)}
        → al.palloc r s.pool ≡ m
        → Allocates al.IsValid al.Live s.pool m
        → AddsBefore al s list xs e (add al r e before key pointer s)
    unfolding add
    before-eq run (hands_out {p} {s'} ok pos fresh grown) =
        let new = is_new fresh in
        let h = Leads-pool s' o.leads in
        let h' = in_front-Leads h e p key pointer i pos new in
        rw run (
          lost pos ((grown p).1 (inl refl)) new h' (in_front-lists h e p key pointer i pos new).2
            λ fuel k f.
              get-first_with h' fuel k f
              ∙ ap some (first_with-same _ _ k xs (in_front-keys h e p key pointer i pos new))
              ∙ sym (get-first_with o.leads fuel k f))
    before-eq run no_memory = rw run out_of_memory

    -- In an allocator that is ready, an insertion before a node of a well-formed list takes an
    -- item from the pool and counts one entry more, but the entries of the list stay as they
    -- were, and a lookup of any key finds what it found before; or there is no memory, and no
    -- entry changes.
    pub add-AddsBefore : AddsBefore al s list xs e (add al r e before key pointer s)
    add-AddsBefore = before-eq refl (al.palloc-Allocates s.pool r o.pool_valid ready)

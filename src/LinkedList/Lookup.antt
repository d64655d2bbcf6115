-- ===== src/LinkedList/Lookup.antt =====
-- Looking a key up, writing a pointer under a key, and counting.
use alter.Common.{
  ℕ, zero, suc, ◌+◌, ◌%◌, ◌^◌, ◌<◌, true, false, some, List, [], ◌∷◌, ◌≡◌, ◌≢◌, ◌==◌, ◌||◌, has,
  length, if◌then◌else◌, update, arith, refl, Bool-cases, inl, inr, ap, ◌∙◌,
}
use alter.Common.Chain
use alter.Common.Chain.{Chain, nil, cons}
use alter.LinkedList.Defs.{Entry, Store, find, get, set, Stat, stat_loop, list_stat}
use alter.LinkedList.Invariant.{Leads, first_with, next_in}

-- How many of the entries have a null pointer.
unfoldable pub nulls : (ℕ → Entry) → List ℕ → ℕ
nulls entry [] = 0
nulls entry (x ∷ xs) = (if (entry x).pointer == 0 then 1 else 0) + nulls entry xs

module _ (entry : ℕ → Entry) (tail : ℕ) where
  find-first_with :
      (key k : ℕ) {p : ℕ} {xs : List ℕ}
      → Chain (next_in entry) tail p xs
      → has tail xs ≡ false
      → ((a : ℕ) → has a xs ≡ true → 0 < a)
      → length xs < k
      → find entry tail key k p ≡ some (first_with entry key xs)
  unfolding find first_with
  find-first_with key zero c out pos h = absurd (omega arith)
  find-first_with key (suc k) nil out pos h = let e : (tail == tail) ≡ true = ground arith in rw e
  find-first_with key (suc k) (cons {p} {q} {xs} e fresh c) out pos h =
      let inside : ((p == tail) || (p == 0)) ≡ false = ground (arith, pos p) in
      let rest =
        find-first_with key k c (ground arith) (λ a i. pos a (ground arith)) (omega arith) in
      rw (inside, e, rest) (ground arith)

  stat_loop-counts :
      (k : ℕ) {p : ℕ} {xs : List ℕ} (stat : Stat)
      → Chain (next_in entry) tail p xs
      → has tail xs ≡ false
      → length xs < k
      → stat.nelts < 2 ^ 32
      → stat.busy < 2 ^ 32
      → stat_loop entry tail k p stat
        ≡ some (record {
          nelts = (stat.nelts + length xs) % 2 ^ 32;
          busy = (stat.busy + nulls entry xs) % 2 ^ 32;
        })
  unfolding stat_loop nulls
  stat_loop-counts zero stat c out h n b = absurd (omega arith)
  stat_loop-counts (suc k) stat nil out h n b =
      let e : (tail == tail) ≡ true = ground arith in rw e (ground arith)
  stat_loop-counts (suc k) stat (cons {p} {q} {xs} e fresh c) out h n b =
      let inside : (p == tail) ≡ false = ground arith in
      let next_stat : Stat = record {
        nelts = (stat.nelts + 1) % 2 ^ 32;
        busy = if (entry p).pointer == 0 then (stat.busy + 1) % 2 ^ 32 else stat.busy;
      } in
      rw (inside, e)
        (stat_loop-counts k next_stat c (ground arith) (omega arith) (omega arith) (ground arith)
          ∙ ground arith)

module _ {S : Type 0} {s : Store S} {list : ℕ} {xs : List ℕ} (h : Leads s list xs) where
  abbrev head : ℕ
  head = (s.lists list).head

  abbrev tail : ℕ
  tail = (s.lists list).tail

  entries_pos : (a : ℕ) → has a (head ∷ xs) ≡ true → 0 < a
  entries_pos a i = h.not_null a (ground (arith, i))

  -- On a well-formed list, and with fuel for one round more than there are entries,
  -- frl_list_get_lock_with ends and returns the first entry with the key, or NULL when there is
  -- none.
  pub get-first_with :
      (fuel key : ℕ) → length xs < fuel → get fuel list key s ≡ some (first_with s.entry key xs)
  unfolding get
  get-first_with fuel key f =
      find-first_with s.entry tail key fuel (Chain.uncons h.chain).2 (ground (arith, h.tail_out))
        (λ a i. entries_pos a (ground arith)) f

  -- On a well-formed list, and with fuel for one round more than there are entries,
  -- frl_list_stat ends and gives the number of entries and of those with a null pointer, modulo
  -- 2 ^ 32.
  pub list_stat-counts :
      (fuel : ℕ)
      → length xs < fuel
      → list_stat fuel list s
        ≡ some (record { nelts = length xs % 2 ^ 32; busy = nulls s.entry xs % 2 ^ 32 })
  unfolding list_stat
  list_stat-counts fuel f =
      stat_loop-counts s.entry tail fuel (record { nelts = 0; busy = 0 }) (Chain.uncons h.chain).2
        (ground (arith, h.tail_out)) f (omega arith) (omega arith)
      ∙ ground arith

  set-find :
      (fuel key pointer : ℕ)
      → suc (length xs) < fuel
      → set fuel list key pointer s ≡ (
          let e = first_with s.entry key (head ∷ xs) in
          some (
            e,
            if e == 0 then s else record s {
              entry = update s.entry e (record (s.entry e) { pointer = pointer });
            },
          ))
  unfolding set
  set-find fuel key pointer f =
      rw (find-first_with s.entry tail key fuel h.chain h.tail_out entries_pos f)

  head_pos : (head == 0) ≡ false
  head_pos = ground (arith, entries_pos head)

  -- When the key that lies in the head of a well-formed list matches, and with fuel for two
  -- rounds more than there are entries, frl_list_set_lock_with writes the pointer of the head
  -- and returns the head, whatever the entries are.
  pub set-head :
      (fuel key pointer : ℕ)
      → suc (length xs) < fuel
      → (s.entry head).key ≡ key
      → set fuel list key pointer s
        ≡ some (
          head,
          record s { entry = update s.entry head (record (s.entry head) { pointer = pointer }) },
        )
  unfolding first_with
  set-head fuel key pointer f e =
      let hit : ((s.entry head).key == key) ≡ true = ground arith in
      set-find fuel key pointer f ∙ simp (hit, head_pos)

  same_keys :
      (key e pointer : ℕ) (ys : List ℕ)
      → first_with (update s.entry e (record (s.entry e) { pointer = pointer })) key ys
        ≡ first_with s.entry key ys
  unfolding first_with
  same_keys key e pointer [] = refl
  same_keys key e pointer (y ∷ ys) = ground (arith, same_keys key e pointer ys)

  Leads-write :
      (e pointer : ℕ)
      → Leads
          (record s { entry = update s.entry e (record (s.entry e) { pointer = pointer }) })
          list
          xs
  Leads-write e pointer = record {
    chain = Chain.frame _ h.chain λ a i. ground arith;
    tail_out = h.tail_out;
    not_null = h.not_null;
    owner = λ a i. ground (arith, h.owner a i);
  }

-- What frl_list_set does with a key that the head does not have: it returns the first entry with the
-- key, or NULL and changes nothing; and a lookup then finds that entry, with the new pointer.
pub record Sets {S : Type 0} (fuel list key pointer : ℕ) (s : Store S) (xs : List ℕ) : Type 0 where
  pub e : ℕ
  pub s' : Store S
  pub runs : set fuel list key pointer s ≡ some (e, s')
  pub finds : e ≡ first_with s.entry key xs
  pub keeps : Leads s' list xs
  pub looked_up : get fuel list key s' ≡ some e
  pub written : 0 < e → s'.entry e ≡ record (s.entry e) { pointer = pointer }
  pub others : (a : ℕ) → a ≢ e → s'.entry a ≡ s.entry a
  pub lists : s'.lists ≡ s.lists
  pub pool : s'.pool ≡ s.pool
  pub not_found : e ≡ 0 → s' ≡ s

module _ {S : Type 0} {s : Store S} {list : ℕ} {xs : List ℕ} (h : Leads s list xs) where
  -- With a key that the head of a well-formed list does not have, and with fuel for two rounds
  -- more than there are entries, frl_list_set_lock_with writes the pointer of the first entry
  -- with the key, which a lookup then finds, and leaves its other fields, the other entries, the
  -- lists and the pool as they were; when no entry has the key it returns NULL and changes
  -- nothing.
  pub set-Sets :
      (fuel key pointer : ℕ)
      → suc (length xs) < fuel
      → (s.entry (s.lists list).head).key ≢ key
      → Sets fuel list key pointer s xs
  unfolding first_with
  set-Sets fuel key pointer f ne =
      let miss : ((s.entry (s.lists list).head).key == key) ≡ false = ground arith in
      let e = first_with s.entry key xs in
      elim (Bool-cases (e == 0)) [
        | inl none_found ↦ record {
          e = e;
          s' = s;
          runs = set-find h fuel key pointer f ∙ simp (miss, none_found);
          finds = refl;
          keeps = h;
          looked_up = get-first_with h fuel key (omega arith);
          written = λ p. absurd (ground arith);
          others = λ a ne. refl;
          lists = refl;
          pool = refl;
          not_found = λ z. refl;
        }
        | inr one_found ↦ record {
          e = e;
          s' = record s { entry = update s.entry e (record (s.entry e) { pointer = pointer }) };
          runs = set-find h fuel key pointer f ∙ simp (miss, one_found);
          finds = refl;
          keeps = Leads-write h e pointer;
          looked_up =
              get-first_with (Leads-write h e pointer) fuel key (omega arith)
              ∙ ap some (same_keys h key e pointer xs);
          written = λ p. ground arith;
          others = λ a ne. ground arith;
          lists = refl;
          pool = refl;
          not_found = λ z. absurd (ground (arith, z, one_found));
        }
      ]

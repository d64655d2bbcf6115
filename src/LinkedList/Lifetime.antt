-- ===== src/LinkedList/Lifetime.antt =====
-- frl_list_create gives an empty list, and frl_list_destroy frees all nodes.
use alter.Common.{
  ℕ, zero, suc, ◌+◌, ◌<◌, true, false, Option, none, some, List, [], ◌∷◌, ◌++◌, ◌≡◌, ◌≢◌, ◌==◌, ◌↔◌,
  inl, inr, has, length, arith, refl, Bool-cases, Option-cases, has-append,
}
use alter.Common.Chain.{Chain, nil, cons}
use alter.Allocator.{Allocator, Allocates, hands_out, no_memory, Frees, freed}
use alter.LinkedList.Defs.{Store, create, free_entries}
use alter.LinkedList.Invariant.{Owns, IsNode, next_in}

-- How frl_list_create ends: with an empty list, or with a write through NULL.
pub data Creates (al : Allocator) (list : ℕ) : Option (Store al.State) → Type 0 where
  created :
      {s : Store al.State}
      → Owns al s list []
      → (s.entry (s.lists list).tail).next ≡ 0
      → Creates al list (some s)
  null_written : Creates al list none

-- The second allocation finds the allocator ready after the first.
abbrev pub ReadyAfter : (al : Allocator) → (r r' : al.Request) → al.State → Type 0
ReadyAfter al r r' pool =
    (p : ℕ) (pool' : al.State) → al.palloc r pool ≡ some (some p, pool') → al.IsReady pool' r'

module _ (al : Allocator) (r r' : al.Request) (list : ℕ) (s : Store al.State) where
  -- The two sentinels are new.
  second-Creates :
      {h : ℕ} {pool : al.State} {m : Option (Option ℕ × al.State)}
      → al.palloc r s.pool ≡ some (some h, pool)
      → 0 < h
      → al.Live pool h
      → al.palloc r' pool ≡ m
      → Allocates al.IsValid al.Live pool m
      → Creates al list (create al r r' list s)
  unfolding create
  second-Creates {h} run pos live run' (hands_out {p = t} {s' = pool'} ok pos' fresh added) =
      let apart : t ≢ h = λ e. fresh (rw e live) in
      simp (run, run')
        (created
          (record {
            leads = record {
              chain = cons (ground (arith, apart)) refl nil;
              tail_out = ground (arith, apart);
              not_null = λ a i. ground arith;
              owner = λ a i. ground arith;
            };
            size = ground arith;
            pool_valid = ok;
            live = λ a i. (added a).1 (elim (Bool-cases (a == t)) [
              | inl e ↦ inl (ground arith)
              | inr e ↦ let at_head : a ≡ h = ground arith in inr (rw at_head live)
            ]);
          })
          (ground arith))
  second-Creates run pos live run' no_memory = simp (run, run') null_written

  no_item :
      (pool : al.State) (m : Option (Option ℕ × al.State))
      → al.palloc r s.pool ≡ some (none, pool)
      → al.palloc r' pool ≡ m
      → create al r r' list s ≡ none
  unfolding create
  no_item pool none run run' = simp (run, run')
  no_item pool (some x) run run' = simp (run, run')

  first-Creates :
      {m : Option (Option ℕ × al.State)}
      → al.palloc r s.pool ≡ m
      → Allocates al.IsValid al.Live s.pool m
      → ReadyAfter al r r' s.pool
      → Creates al list (create al r r' list s)
  first-Creates run (hands_out {p} {s' = pool} ok pos fresh added) ready =
      second-Creates run pos ((added p).1 (inl refl)) refl
        (al.palloc-Allocates pool r' ok (ready p pool run))
  first-Creates run (no_memory {s' = pool}) ready = elim (Option-cases (al.palloc r' pool)) [
    | inl e ↦ rw (no_item pool none run e) null_written
    | inr (x, e) ↦ rw (no_item pool (some x) run e) null_written
  ]

  -- frl_list_create, in an allocator that is ready for both allocations, gives an empty list
  -- whose tail ends the next links, or writes through NULL when there is no memory.
  pub create-Empties :
      al.IsValid s.pool
      → al.IsReady s.pool r
      → ReadyAfter al r r' s.pool
      → Creates al list (create al r r' list s)
  create-Empties ok ready after = first-Creates refl (al.palloc-Allocates s.pool r ok ready) after

-- What frl_list_destroy leaves of the nodes from `p` on.
pub record Destroyed (al : Allocator) (s : Store al.State) (nodes : List ℕ)
    (run : Option (Store al.State)) : Type 0 where
  pub pool' : al.State
  pub runs : run ≡ some (record s { pool = pool' })
  pub pool_valid : al.IsValid pool'
  pub live : (a : ℕ) → al.Live pool' a ↔ (al.Live s.pool a × (has a nodes ≡ false))

module _ (al : Allocator) (tail : ℕ) where
  free_none :
      (k : ℕ) (s : Store al.State)
      → al.IsValid s.pool
      → Destroyed al s [] (free_entries al (suc k) 0 s)
  unfolding free_entries
  free_none k s ok = record {
    pool' = s.pool;
    runs = refl;
    pool_valid = ok;
    live = λ a. (λ l. (l, refl), λ w. w.0);
  }

  free_one :
      (k : ℕ) {s : Store al.State} {p : ℕ} {ys : List ℕ} {m : Option al.State}
      → 0 < p
      → has p ys ≡ false
      → al.pfree p s.pool ≡ m
      → Frees al.IsValid al.Live s.pool p m
      → ((pool' : al.State)
          → al.IsValid pool'
          → ((a : ℕ) → al.Live pool' a ↔ (al.Live s.pool a × (a ≢ p)))
          → Destroyed al
              (record s { pool = pool' })
              ys
              (free_entries al k (s.entry p).next (record s { pool = pool' })))
      → Destroyed al s (p ∷ ys) (free_entries al (suc k) p s)
  unfolding free_entries
  free_one k {s} {p} pos out run (freed {s' = pool'} ok gone) rest =
      let d = rest pool' ok gone in
      let at_node : (p == 0) ≡ false = ground arith in
      record {
        pool' = d.pool';
        runs = simp (at_node, run) d.runs;
        pool_valid = d.pool_valid;
        live = λ a. (
          λ l. let w = (d.live a).0 l in let u = (gone a).0 w.0 in (u.0, ground (arith, w.1, u.1)),
          λ (l, not_in).
              (d.live a).1 ((gone a).1 (l, ground (arith, not_in)), ground (arith, not_in)),
        );
      }

  free-from :
      (k : ℕ) {p : ℕ} {xs : List ℕ} (s : Store al.State)
      → Chain (next_in s.entry) tail p xs
      → has tail xs ≡ false
      → (s.entry tail).next ≡ 0
      → ((a : ℕ) → has a (xs ++ tail ∷ []) ≡ true → 0 < a)
      → ((a : ℕ) → has a (xs ++ tail ∷ []) ≡ true → al.Live s.pool a)
      → al.IsValid s.pool
      → length xs + 1 < k
      → Destroyed al s (xs ++ tail ∷ []) (free_entries al k p s)
  free-from zero s c out last pos live ok h = absurd (omega arith)
  free-from (suc zero) s c out last pos live ok h = absurd (omega arith)
  free-from (suc (suc k)) s nil out last pos live ok h =
      let here : has tail (tail ∷ []) ≡ true = ground arith in
      free_one (suc k) (pos tail here) refl refl (al.pfree-Frees s.pool tail ok (live tail here))
        λ pool' ok' gone. rw last (free_none k (record s { pool = pool' }) ok')
  free-from (suc k) s (cons {p} {q} {xs} e fresh c) out last pos live ok h =
      let here : has p (p ∷ xs ++ tail ∷ []) ≡ true = ground arith in
      let apart : has p (xs ++ tail ∷ []) ≡ false = ground (arith, has-append p xs (tail ∷ [])) in
      free_one k (pos p here) apart refl (al.pfree-Frees s.pool p ok (live p here))
        λ pool' ok' gone. rw e (
          free-from k (record s { pool = pool' }) c (ground arith) last
            (λ a i. pos a (ground arith)) (λ a i. (gone a).1 (live a (ground arith), λ is. cc)) ok'
            (omega arith))

  -- The loop of frl_list_destroy, on a list whose tail ends the next links and with fuel for all
  -- nodes and one round more, ends, and frees the head, the entries and the tail and nothing
  -- else, and the pool stays well formed.
  pub free_entries-Destroyed :
      {s : Store al.State} {list : ℕ} {xs : List ℕ} (fuel : ℕ)
      → Owns al s list xs
      → (s.lists list).tail ≡ tail
      → (s.entry tail).next ≡ 0
      → length xs + 2 < fuel
      → Destroyed al s
          ((s.lists list).head ∷ xs ++ tail ∷ [])
          (free_entries al fuel (s.lists list).head s)
  free_entries-Destroyed {s} {list} {xs} fuel o at_tail last h =
      let head = (s.lists list).head in
      let node = λ (a : ℕ) (i : has a (head ∷ xs ++ tail ∷ []) ≡ true).
        let j : IsNode s list xs a = ground (arith, has-append a xs (tail ∷ []), at_tail) in j in
      free-from fuel s (rw at_tail at o.leads.chain) (ground (arith, o.leads.tail_out, at_tail))
        last (λ a i. o.leads.not_null a (node a i)) (λ a i. o.live a (node a i)) o.pool_valid
        (omega arith)

-- ===== src/LinkedList/Stale.antt =====
-- An insertion behind an entry leaves the `prev` link of the next one as it was. When that one is
-- removed, the entry that was inserted is no longer in the list.
use alter.Common.{ℕ, ◌<◌, Option, some, List, ◌≡◌, ◌≢◌, inl, inr, sym, arith, refl, ◌∙◌, remove_one}
use alter.Allocator.{Allocator, Allocates, hands_out, no_memory, Frees, freed}
use alter.LinkedList.Defs.{Store, after, add, link_entry, remove, unlink}
use alter.LinkedList.Invariant.{Leads, Owns, IsNode, Leads-pool}
use alter.LinkedList.Insertion.{behind-others, behind_owner, next_same, same_ends}
use alter.LinkedList.Add.{is_new}
use alter.LinkedList.Remove.{Precedes, Agrees, after-Leads}

-- How an insertion behind `b` ends, when the entry `e` behind `b` is then removed: the entries are
-- those of before without `e`, and the new entry, still in use, is not among them.
pub data Loses (al : Allocator) (s : Store al.State) (list : ℕ) (xs : List ℕ) (e : ℕ)
    : Option (ℕ × Store al.State) → Type 0 where
  loses :
      {n : ℕ} {s' s'' : Store al.State}
      → ((a : ℕ) → IsNode s list xs a → a ≢ n)
      → remove al e s' ≡ some s''
      → Leads s'' list (remove_one e xs)
      → al.Live s''.pool n
      → Loses al s list xs e (some (n, s'))
  out_of_memory : {pool : al.State} → Loses al s list xs e (some (0, record s { pool = pool }))

module _ (al : Allocator) {s : Store al.State} {list : ℕ} {xs : List ℕ} (o : Owns al s list xs)
    (r : al.Request) (ready : al.IsReady s.pool r) (key pointer b e : ℕ)
    (p : Precedes s list xs b e) (link : (s.entry e).prev ≡ b) where
  module _ (n : ℕ) (pool' : al.State) (pos : 0 < n)
      (new : (a : ℕ) → IsNode s list xs a → a ≢ n) where
    abbrev longer : Store al.State
    longer = link_entry b after key pointer n (record s { pool = pool' })

    abbrev old : Leads (record s { pool = pool' }) list xs
    old = Leads-pool pool' o.leads

    longer-Agrees : Agrees s longer list xs b e
    longer-Agrees =
        let ends = same_ends old b n key pointer p.inside pos new in
        record {
          link =
              (behind-others old b n key pointer p.inside pos new e (ground (arith, p.entry))).2
              ∙ link;
          same_head = ends.0;
          same_tail = ends.1;
          owner = λ a i. behind_owner old b n key pointer p.inside pos new a (ground (arith, i));
          same = λ a i ne. next_same old b n key pointer p.inside pos new a i ne;
        }

    removal-run :
        (pool'' : al.State)
        → al.pfree e pool' ≡ some pool''
        → remove al e longer ≡ some (record (unlink e longer) { pool = pool'' })
    unfolding remove unlink link_entry
    removal-run pool'' run = rw run

    removal :
        {m : Option al.State}
        → al.pfree e pool' ≡ m
        → Frees al.IsValid al.Live pool' e m
        → al.Live pool' n
        → Loses al s list xs e (some (n, longer))
    removal run (freed {s' = pool''} ok less) live =
        loses new (removal-run pool'' run)
          (Leads-pool pool'' (after-Leads longer o.leads b e p longer-Agrees))
          ((less n).1 (live, λ is. new e (ground (arith, p.entry)) (sym is)))

  stale-eq :
      {m : Option (Option ℕ × al.State)}
      → al.palloc r s.pool ≡ m
      → Allocates al.IsValid al.Live s.pool m
      → Loses al s list xs e (add al r b after key pointer s)
  unfolding add
  stale-eq run (hands_out {p = n} {s' = pool'} ok pos fresh grown) = rw run (
      removal n pool' pos (is_new al o r ready b key pointer fresh) refl
        (al.pfree-Frees pool' e ok ((grown e).1 (inr (o.live e (ground (arith, p.entry))))))
        ((grown n).1 (inl refl)))
  stale-eq run no_memory = rw run out_of_memory

  -- In an allocator that is ready, after an insertion behind a node of a well-formed list, the
  -- removal of the entry that stood behind that node, whose prev link led to it, also takes the
  -- new entry out of the list, although the pool still counts it as handed out; or there was no
  -- memory for the insertion, and no entry changed.
  pub add-remove-Loses : Loses al s list xs e (add al r b after key pointer s)
  add-remove-Loses = stale-eq refl (al.palloc-Allocates s.pool r o.pool_valid ready)

-- ===== src/LinkedList/Remove.antt =====
-- frl_list_remove takes an entry out when its `prev` link is right. Since frl_list_add leaves the
-- `prev` link of the successor as it was, a removal can take out more.
use alter.Common.{
  ℕ, ◌+◌, ◌-◌, ◌%◌, ◌^◌, ◌<◌, true, Option, some, List, ◌∷◌, ◌≡◌, ◌≢◌, has, arith, refl, ◌∙◌,
  remove_one, has-remove_one, length-remove_one, count-has,
}
use alter.Common.Chain
use alter.Common.Chain.{Chain}
use alter.Common.ChainEdit.{Chain-remove_one, no_loop, not-has-remove_one, not-has-remove_one_self}
use alter.Allocator.{Allocator, Frees, freed}
use alter.LinkedList.Defs.{Store, remove, unlink}
use alter.LinkedList.Invariant.{Leads, Owns, IsNode, next_in, Leads-pool}

module _ {S : Type 0} (t : Store S) (e b : ℕ) (link : (t.entry e).prev ≡ b) (pos : 0 < b) where
  next_joined : ((unlink e t).entry b).next ≡ (t.entry e).next
  unfolding unlink
  next_joined = ground (arith, link)

  next_other : (a : ℕ) → a ≢ b → ((unlink e t).entry a).next ≡ (t.entry a).next
  unfolding unlink
  next_other a ne = ground (arith, link)

  same_list : (a : ℕ) → ((unlink e t).entry a).list ≡ (t.entry a).list
  unfolding unlink
  same_list a = ground (arith, link)

  same_ends :
      (list : ℕ)
      → (t.entry e).list ≡ list
      → (((unlink e t).lists list).head ≡ (t.lists list).head)
        × (((unlink e t).lists list).tail ≡ (t.lists list).tail)
        × (((unlink e t).lists list).nelts ≡ ((t.lists list).nelts + 2 ^ 32 - 1) % 2 ^ 32)
  unfolding unlink
  same_ends list own = ground (arith, own)

-- What a removal needs: `b` stands right before the entry `e`.
pub record Precedes {S : Type 0} (s : Store S) (list : ℕ) (xs : List ℕ) (b e : ℕ) : Type 0 where
  pub inside : has b ((s.lists list).head ∷ xs) ≡ true
  pub entry : has e xs ≡ true
  pub next : (s.entry b).next ≡ e

-- In `t` the nodes of `s` but `b` lead on as in `s`, and the `prev` link of `e` is `b`.
pub record Agrees {S : Type 0} (s t : Store S) (list : ℕ) (xs : List ℕ) (b e : ℕ) : Type 0 where
  pub link : (t.entry e).prev ≡ b
  pub same_head : (t.lists list).head ≡ (s.lists list).head
  pub same_tail : (t.lists list).tail ≡ (s.lists list).tail
  pub owner : (a : ℕ) → IsNode s list xs a → (t.entry a).list ≡ list
  pub same :
      (a : ℕ)
      → has a ((s.lists list).head ∷ xs) ≡ true
      → a ≢ b
      → (t.entry a).next ≡ (s.entry a).next

-- The removal of `e` from such a store.
module _ {S : Type 0} {s : Store S} (t : Store S) {list : ℕ} {xs : List ℕ} (h : Leads s list xs)
    (b e : ℕ) (p : Precedes s list xs b e) (g : Agrees s t list xs b e) where
  abbrev after : Store S
  after = unlink e t

  abbrev head : ℕ
  head = (s.lists list).head

  abbrev tail : ℕ
  tail = (s.lists list).tail

  b_pos : 0 < b
  b_pos = h.not_null b (ground (arith, p.inside))

  e_own : (t.entry e).list ≡ list
  e_own = g.owner e (ground (arith, p.entry))

  ne_head : head ≢ e
  ne_head is = ground (arith, (Chain.uncons h.chain).1, p.entry)

  b_ne : e ≢ b
  b_ne is = no_loop b h.chain p.inside h.tail_out (p.next ∙ is)

  ne_tail : e ≢ tail
  ne_tail is = ground (arith, h.tail_out, p.entry)

  step_e : (t.entry e).next ≡ (s.entry e).next
  step_e = g.same e (ground (arith, p.entry)) b_ne

  after-Chain : Chain (next_in after.entry) tail head (remove_one e (head ∷ xs))
  after-Chain =
      Chain-remove_one b e p.next ne_tail (next_joined t e b g.link b_pos ∙ step_e) h.chain p.inside
        ne_head λ a i ne. next_other t e b g.link b_pos a ne ∙ g.same a i ne

  rest-eq : remove_one e (head ∷ xs) ≡ head ∷ remove_one e xs
  unfolding remove_one
  rest-eq = ground (arith, ne_head)

  was-IsNode : (a : ℕ) → IsNode after list (remove_one e xs) a → IsNode s list xs a
  was-IsNode a j =
      let k = same_ends t e b g.link b_pos list e_own in
      ground (arith, j, k.0, k.1, g.same_head, g.same_tail, has-remove_one a e xs)

  pub after-Leads : Leads after list (remove_one e xs)
  after-Leads =
      let k = same_ends t e b g.link b_pos list e_own in
      record {
        chain = rw (k.0, k.1, g.same_head, g.same_tail) (rw rest-eq at after-Chain);
        tail_out =
            ground
              (arith, k.0, k.1, g.same_head, g.same_tail, h.tail_out, not-has-remove_one e tail xs);
        not_null = λ a j. h.not_null a (was-IsNode a j);
        owner = λ a j. same_list t e b g.link b_pos a ∙ g.owner a (was-IsNode a j);
      }

module _ (al : Allocator) {s : Store al.State} {list : ℕ} {xs : List ℕ} (o : Owns al s list xs)
    (b e : ℕ) (p : Precedes s list xs b e) (link : (s.entry e).prev ≡ b) where
  itself : Agrees s s list xs b e
  itself = record {
    link = link;
    same_head = refl;
    same_tail = refl;
    owner = o.leads.owner;
    same = λ a i ne. refl;
  }

  -- What a removal promises.
  pub record Removes (s' : Store al.State) : Type 0 where
    pub runs : remove al e s ≡ some s'
    pub rest : Owns al s' list (remove_one e xs)
    pub gone : ¬ al.Live s'.pool e

  left : (a : ℕ) → IsNode (unlink e s) list (remove_one e xs) a → a ≢ e
  left a j is =
      let k =
        same_ends s e b link (b_pos s o.leads b e p itself) list (e_own s o.leads b e p itself) in
      ground (
        arith,
        j,
        is,
        k.0,
        k.1,
        ne_head s o.leads b e p itself,
        ne_tail s o.leads b e p itself,
        not-has-remove_one_self e (Chain.uncons o.leads.chain).2,
      )

  remove-eq :
      {m : Option al.State}
      → al.pfree e s.pool ≡ m
      → Frees al.IsValid al.Live s.pool e m
      → (s' : Store al.State) × Removes s'
  remove-eq run (freed {s' = pool'} ok less) =
      let t = unlink e s in
      let k =
        same_ends s e b link (b_pos s o.leads b e p itself) list (e_own s o.leads b e p itself) in
      (
        record t { pool = pool' },
        record {
          runs = unfold remove unlink in rw run;
          rest = record {
            leads = Leads-pool pool' (after-Leads s o.leads b e p itself);
            size = ground (arith, k.2, o.size, length-remove_one e xs (count-has e xs p.entry));
            pool_valid = ok;
            live = λ a j.
                let old = was-IsNode s o.leads b e p itself a j in
                (less a).1 (o.live a old, left a j);
          };
          gone = λ l. ((less e).0 l).1 refl;
        },
      )

  -- When the prev link of an entry of a well-formed list leads to the node before it,
  -- frl_list_remove takes exactly this entry out of the list, counts one less and frees it.
  pub remove-Removes : (s' : Store al.State) × Removes s'
  remove-Removes =
      remove-eq refl (al.pfree-Frees s.pool e o.pool_valid (o.live e (ground (arith, p.entry))))
